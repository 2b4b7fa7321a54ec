-- ===== src/Copy/Platforms.antt =====
-- internal/image/copy/spec.go: sets of platforms, checked when they are read. The platforms package
-- is an argument: what Parse makes of a string, or `none` for its error, on which MustParse panics.
use magic_mirror.Prelude.{
  ◌≡◌, ◌∙◌, refl, sym, ap, subst, Bool, true, false, List, [], ◌∷◌, Option, none, some, Bytes,
  if◌then◌else◌, length, All, IsBytes, ◌>>=◌, ltb, suc,
}
use magic_mirror.StringKeyed.Operations.{Set, all, cardinality, set_of, unmarshal}
use magic_mirror.StringKeyed.Laws.{Represents, set_of_lem, union-Represents, to_slice-cardinality}
use magic_mirror.StringKeyed.Order.{sort, compact}

module _ {P : Type 0} (parse_platform : Bytes → Option P) where
  -- `MustParse` of each; `none` is a panic.
  unfoldable pub must_parse_all : List Bytes → Option (List P)
  must_parse_all [] = some []
  must_parse_all (x ∷ xs) = do
    platform ← parse_platform x
    rest ← must_parse_all xs
    some (platform ∷ rest)

  unfoldable pub to_platforms : Set → Option (List P)
  unfolding must_parse_all
  to_platforms s = do raws ← all s; must_parse_all raws

  is_parsed : Option P → Bool
  is_parsed none = false
  is_parsed (some platform) = true

  -- The loop returns at the first error.
  unfoldable pub all_parse : List Bytes → Bool
  unfolding is_parsed
  all_parse [] = true
  all_parse (x ∷ xs) =
      let rest = all_parse xs in if is_parsed (parse_platform x) then rest else false

  check_platforms : Option Set → Option (Option Set)
  unfolding all_parse
  check_platforms none = some none
  check_platforms (some raw) = do
    raws ← all raw
    (if all_parse raws then some (some raw) else some none)

  -- `UnmarshalJSON` of a platform set, from the decoded elements on: `some none` is an error, and
  -- `none` a panic.
  unfoldable pub unmarshal_platforms : List Bytes → Option (Option Set)
  unfolding check_platforms
  unmarshal_platforms elems = do raw ← unmarshal elems; check_platforms raw

  parsed_some : (o : Option P) → is_parsed o ≡ true → (p : P) × (o ≡ some p)
  unfolding is_parsed
  parsed_some none h = absurd (cc)
  parsed_some (some p) h = (p, refl)

  both_true : (b c : Bool) → (if b then c else false) ≡ true → (b ≡ true) × (c ≡ true)
  both_true true c h = (refl, h)
  both_true false c h = absurd (cc)

  all_parse-must_parse :
      (xs : List Bytes)
      → all_parse xs ≡ true
      → (out : List P) × (must_parse_all xs ≡ some out) × (length out ≡ length xs)
  unfolding must_parse_all all_parse is_parsed
  all_parse-must_parse [] h = ([], refl, refl)
  all_parse-must_parse (x ∷ xs) h =
      let (ok, others) = both_true (is_parsed (parse_platform x)) (all_parse xs) h in
      let (platform, found) = parsed_some (parse_platform x) ok in
      let (out, parsed, long) = all_parse-must_parse xs others in
      (platform ∷ out, rw (found, parsed) refl, ap suc long)

pub bind_some :
    {A B : Type 0} (o : Option A) (f : A → Option B) (b : B)
    → (o >>= f) ≡ some b
    → (a : A) × (o ≡ some a) × (f a ≡ some b)
bind_some none f b e = absurd (cc)
bind_some (some a) f b e = (a, refl, e)

accepted_branch :
    (b : Bool) (s t : Set)
    → (if b then some (some s) else some none) ≡ some (some t)
    → (b ≡ true) × (s ≡ t)
accepted_branch true s t e = (refl, cc)
accepted_branch false s t e = absurd (cc)

refused_branch :
    (b : Bool) (s t : Set) → (if b then some none else some (some s)) ≡ some (some t) → s ≡ t
refused_branch true s t e = absurd (cc)
refused_branch false s t e = cc

unmarshal-set_of :
    (elems : List Bytes) (s : Set) → unmarshal elems ≡ some (some s) → set_of elems ≡ some s
unfolding unmarshal
unmarshal-set_of elems s e =
    let (newset, made, kept) = bind_some (set_of elems) _ (some s) e in
    made ∙ ap some (refused_branch (ltb (cardinality newset) (length elems)) newset s kept)

some_list : (xs ys : List Bytes) → some xs ≡ some ys → xs ≡ ys
some_list xs ys e = cc

some_set : (s t : Set) → some s ≡ some t → s ≡ t
some_set s t e = cc

module _ {P : Type 0} (parse_platform : Bytes → Option P) where
  check_platforms-some :
      (raw : Option Set) (s : Set)
      → check_platforms parse_platform raw ≡ some (some s)
      → (raw ≡ some s)
        × (raws : List Bytes) × (all s ≡ some raws)
        × (all_parse parse_platform raws ≡ true)
  unfolding check_platforms
  check_platforms-some none s e = absurd (cc)
  check_platforms-some (some raw) s e =
      let (raws, read, kept) = bind_some (all raw) _ (some s) e in
      let (parsed, same) = accepted_branch (all_parse parse_platform raws) raw s kept in
      (ap some same, raws, subst (λ w. all w ≡ some raws) same read, parsed)

  -- A platform set that was read without an error is turned into platforms without a panic, one for
  -- each of its elements.
  pub unmarshal_platforms-to_platforms :
      (elems : List Bytes) (s : Set)
      → All IsBytes elems
      → unmarshal_platforms parse_platform elems ≡ some (some s)
      → (out : List P) × (to_platforms parse_platform s ≡ some out) × (length out ≡ cardinality s)
  unfolding unmarshal_platforms to_platforms
  unmarshal_platforms-to_platforms elems s h e =
      let (raw, decoded, checked) = bind_some (unmarshal elems) _ (some s) e in
      let (same, raws, read, parsed) = check_platforms-some raw s checked in
      let (out, total, long) = all_parse-must_parse parse_platform raws parsed in
      let made =
        some_set _ _ (sym (set_of_lem elems) ∙ unmarshal-set_of elems s (decoded ∙ ap some same)) in
      let represents : Represents s (compact (sort elems)) =
        subst (λ w. Represents w (compact (sort elems))) made (union-Represents [] elems tt h) in
      let (read', slice, card) = to_slice-cardinality s (compact (sort elems)) represents in
      let same_list : raws ≡ compact (sort elems) = some_list _ _ (sym read ∙ read') in
      (out, rw read total, long ∙ ap length same_list ∙ sym card)
