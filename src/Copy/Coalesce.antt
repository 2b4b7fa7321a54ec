-- ===== src/Copy/Coalesce.antt =====
-- internal/image/copy/spec.go: the second loop of coalesceRequests.
use magic_mirror.Prelude.{
  ◌≡◌, ◌≢◌, refl, sym, ap, ◌∙◌, subst, true, false, List, [], ◌∷◌, ◌++◌, Bool-cases, inl, inr, none,
  some, append_assoc, append-nil, All, Option-cases,
}
use magic_mirror.Image.Types.{Image}
use magic_mirror.Copy.Spec.{
  Spec, Coalescing, request_by_dst, spec_eq, note_request, coalesce_one, coalesce_loop,
  inconsistent_copies,
}
use magic_mirror.Copy.Lookup.{
  IsDistinct, snoc-IsDistinct, lookup_found, lookup_missing, lookup_head, lookup_again,
  spec_eq_refl, spec_eq_sound,
}

module _ (c : Coalescing) (s : Spec) where
  one_new :
      request_by_dst c.coalesced s.dst ≡ none
      → coalesce_one c s ≡ record c { coalesced = c.coalesced ++ (s ∷ []) }
  unfolding coalesce_one note_request
  one_new new = rw new refl

  one_same :
      (previous : Spec)
      → request_by_dst c.coalesced s.dst ≡ some previous
      → spec_eq previous s ≡ true
      → coalesce_one c s ≡ c
  unfolding coalesce_one note_request
  one_same previous found same = rw (found, same) refl

  one_other :
      (previous : Spec)
      → request_by_dst c.coalesced s.dst ≡ some previous
      → spec_eq previous s ≡ false
      → coalesce_one c s
        ≡ record c { errs = c.errs ++ (inconsistent_copies s.dst s.src previous.src ∷ []) }
  unfolding coalesce_one note_request
  one_other previous found other = rw (found, other) refl

-- No two requests of `out` have the same destination, and they are those that xs gives first.
abbrev pub IsFirstOf : List Spec → List Spec → Type 0
IsFirstOf out xs = IsDistinct out × ((d : Image) → request_by_dst out d ≡ request_by_dst xs d)

-- The lookups that the loop ends with are those in the list of all the requests.
pub loop-first :
    (c : Coalescing) (specs : List Spec)
    → IsDistinct c.coalesced
    → IsFirstOf ((coalesce_loop c specs).coalesced) (c.coalesced ++ specs)
unfolding coalesce_loop
loop-first c [] h = (h, λ d. ap (λ xs. request_by_dst xs d) (sym (append-nil c.coalesced)))
loop-first c (s ∷ specs) h = elim (Option-cases (request_by_dst c.coalesced s.dst)) [
  | inl new ↦
      let (distinct, same) =
        loop-first (record c { coalesced = c.coalesced ++ (s ∷ []) }) specs
          (snoc-IsDistinct c.coalesced s h new) in
      subst (λ w. IsFirstOf ((coalesce_loop w specs).coalesced) (c.coalesced ++ (s ∷ specs)))
        (sym (one_new c s new))
        (
          distinct,
          λ d. same d ∙ ap (λ xs. request_by_dst xs d) (append_assoc c.coalesced (s ∷ []) specs),
        )
  | inr (previous, found) ↦ elim (Bool-cases (spec_eq previous s)) [
    | inl same ↦
        let (distinct, lookups) = loop-first c specs h in
        subst (λ w. IsFirstOf ((coalesce_loop w specs).coalesced) (c.coalesced ++ (s ∷ specs)))
          (sym (one_same c s previous found same))
          (distinct, λ d. lookups d ∙ sym (lookup_again c.coalesced specs s previous d found))
    | inr other ↦
        let (distinct, lookups) =
          loop-first
            (record c { errs = c.errs ++ (inconsistent_copies s.dst s.src previous.src ∷ []) })
            specs h in
        subst (λ w. IsFirstOf ((coalesce_loop w specs).coalesced) (c.coalesced ++ (s ∷ specs)))
          (sym (one_other c s previous found other))
          (distinct, λ d. lookups d ∙ sym (lookup_again c.coalesced specs s previous d found))
  ]
]

snoc_nonempty : {A : Type 0} → (xs : List A) (x : A) → xs ++ (x ∷ []) ≢ []
snoc_nonempty [] x e = cc
snoc_nonempty (y ∷ xs) x e = cc

pub loop_keeps_errors :
    (c : Coalescing) (specs : List Spec) → (coalesce_loop c specs).errs ≡ [] → c.errs ≡ []
unfolding coalesce_loop
loop_keeps_errors c [] e = e
loop_keeps_errors c (s ∷ specs) e =
    let before = loop_keeps_errors (coalesce_one c s) specs e in
    elim (Option-cases (request_by_dst c.coalesced s.dst)) [
      | inl new ↦ sym (ap (λ w. w.errs) (one_new c s new)) ∙ before
      | inr (previous, found) ↦ elim (Bool-cases (spec_eq previous s)) [
        | inl same ↦ sym (ap (λ w. w.errs) (one_same c s previous found same)) ∙ before
        | inr other ↦ absurd (
            snoc_nonempty c.errs (inconsistent_copies s.dst s.src previous.src)
              (sym (ap (λ w. w.errs) (one_other c s previous found other)) ∙ before))
      ]
    ]

-- Every request is the first one for its destination.
abbrev pub IsFirst : List Spec → Spec → Type 0
IsFirst all_specs s = request_by_dst all_specs s.dst ≡ some s

All-lookup :
    (xs ys : List Spec)
    → ((d : Image) → request_by_dst ys d ≡ request_by_dst xs d)
    → (specs : List Spec) → All (IsFirst xs) specs
    → All (IsFirst ys) specs
All-lookup xs ys same [] h = tt
All-lookup xs ys same (s ∷ specs) (h, hs) = (same s.dst ∙ h, All-lookup xs ys same specs hs)

pub loop_accepts :
    (c : Coalescing) (specs : List Spec)
    → (coalesce_loop c specs).errs ≡ []
    → All (IsFirst (c.coalesced ++ specs)) specs
unfolding coalesce_loop
loop_accepts c [] e = tt
loop_accepts c (s ∷ specs) e = elim (Option-cases (request_by_dst c.coalesced s.dst)) [
  | inl new ↦
      let c' : Coalescing = record c { coalesced = c.coalesced ++ (s ∷ []) } in
      let rest =
        loop_accepts c' specs
          (sym (ap (λ w. (coalesce_loop w specs).errs) (one_new c s new)) ∙ e) in
      (
        lookup_missing c.coalesced (s ∷ specs) s.dst new ∙ lookup_head s specs,
        subst (λ xs. All (IsFirst xs) specs) (append_assoc c.coalesced (s ∷ []) specs) rest,
      )
  | inr (previous, found) ↦ elim (Bool-cases (spec_eq previous s)) [
    | inl same ↦
        let rest =
          loop_accepts c specs
            (sym (ap (λ w. (coalesce_loop w specs).errs) (one_same c s previous found same)) ∙ e) in
        (
          lookup_found c.coalesced (s ∷ specs) s.dst previous found
              ∙ ap some (spec_eq_sound previous s same),
          All-lookup (c.coalesced ++ specs) (c.coalesced ++ (s ∷ specs))
              (λ d. lookup_again c.coalesced specs s previous d found) specs rest,
        )
    | inr other ↦ absurd (
        snoc_nonempty c.errs (inconsistent_copies s.dst s.src previous.src) (
          sym (ap (λ w. w.errs) (one_other c s previous found other))
          ∙ loop_keeps_errors (coalesce_one c s) specs e))
  ]
]

some_inj : {s t : Spec} → some s ≡ some t → s ≡ t
some_inj e = cc

pub loop_passes :
    (c : Coalescing) (specs : List Spec)
    → c.errs ≡ []
    → All (IsFirst (c.coalesced ++ specs)) specs
    → (coalesce_loop c specs).errs ≡ []
unfolding coalesce_loop
loop_passes c [] e h = e
loop_passes c (s ∷ specs) e (first, h) = elim (Option-cases (request_by_dst c.coalesced s.dst)) [
  | inl new ↦
      let c' : Coalescing = record c { coalesced = c.coalesced ++ (s ∷ []) } in
      ap (λ w. (coalesce_loop w specs).errs) (one_new c s new)
      ∙ loop_passes c' specs e
          (subst (λ xs. All (IsFirst xs) specs) (sym (append_assoc c.coalesced (s ∷ []) specs)) h)
  | inr (previous, found) ↦
      let same : previous ≡ s =
        some_inj (sym (lookup_found c.coalesced (s ∷ specs) s.dst previous found) ∙ first) in
      ap (λ w. (coalesce_loop w specs).errs)
        (one_same c s previous found
          (subst (λ w. spec_eq previous w ≡ true) same (spec_eq_refl previous)))
      ∙ loop_passes c specs e (
          All-lookup (c.coalesced ++ (s ∷ specs)) (c.coalesced ++ specs)
            (λ d. sym (lookup_again c.coalesced specs s previous d found)) specs h)
]
