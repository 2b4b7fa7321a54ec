-- ===== src/Copy/Lookup.antt =====
-- internal/image/copy/spec.go: the first request for a destination, in a list of requests.
use magic_mirror.Prelude.{
  ◌≡◌, ◌≢◌, refl, sym, ap, ◌∙◌, subst, true, false, List, [], ◌∷◌, ◌++◌, Bool-cases, inl, inr,
  arith, Option, none, some, bytes_eq_refl, bytes_eq_sound,
}
use magic_mirror.Image.Types.{Image, image_eq, image_eq_refl, image_eq_sound}
use magic_mirror.Copy.Spec.{Spec, Transform, request_by_dst, spec_eq, transform_eq}

or_first : Option Spec → Option Spec → Option Spec
or_first none r = r
or_first (some s) r = some s

-- The requests of xs come first.
request_by_dst-append :
    (xs ys : List Spec) (d : Image)
    → request_by_dst (xs ++ ys) d ≡ or_first (request_by_dst xs d) (request_by_dst ys d)
unfolding request_by_dst or_first
request_by_dst-append [] ys d = refl
request_by_dst-append (x ∷ xs) ys d = elim (Bool-cases (image_eq x.dst d)) [
  | inl same ↦ rw same refl
  | inr other ↦ rw other (request_by_dst-append xs ys d)
]

pub lookup_found :
    (xs ys : List Spec) (d : Image) (s : Spec)
    → request_by_dst xs d ≡ some s
    → request_by_dst (xs ++ ys) d ≡ some s
unfolding or_first
lookup_found xs ys d s e =
    request_by_dst-append xs ys d ∙ ap (λ o. or_first o (request_by_dst ys d)) e

pub lookup_missing :
    (xs ys : List Spec) (d : Image)
    → request_by_dst xs d ≡ none
    → request_by_dst (xs ++ ys) d ≡ request_by_dst ys d
unfolding or_first
lookup_missing xs ys d e =
    request_by_dst-append xs ys d ∙ ap (λ o. or_first o (request_by_dst ys d)) e

pub lookup_head : (s : Spec) (ys : List Spec) → request_by_dst (s ∷ ys) s.dst ≡ some s
unfolding request_by_dst
lookup_head s ys = rw (image_eq_refl s.dst) refl

some-none : (s : Spec) → some s ≢ none
some-none s e = cc

image_eq_swap : (i j : Image) → image_eq i j ≡ false → image_eq j i ≡ false
image_eq_swap i j h = elim (Bool-cases (image_eq j i)) [
  | inl same ↦
      subst (λ w. image_eq w i ≡ false) (sym (image_eq_sound j i same))
        (subst (λ w. image_eq i w ≡ false) (image_eq_sound j i same) h)
  | inr other ↦ other
]

pub lookup_hit :
    (s : Spec) (ys : List Spec) (d : Image)
    → image_eq s.dst d ≡ true
    → request_by_dst (s ∷ ys) d ≡ some s
unfolding request_by_dst
lookup_hit s ys d e = rw e refl

pub lookup_other :
    (s : Spec) (ys : List Spec) (d : Image)
    → image_eq s.dst d ≡ false
    → request_by_dst (s ∷ ys) d ≡ request_by_dst ys d
unfolding request_by_dst
lookup_other s ys d e = rw e refl

-- A request for a destination that already has one changes no lookup.
pub lookup_again :
    (xs ys : List Spec) (s previous : Spec) (d : Image)
    → request_by_dst xs s.dst ≡ some previous
    → request_by_dst (xs ++ (s ∷ ys)) d ≡ request_by_dst (xs ++ ys) d
unfolding or_first
lookup_again xs ys s previous d e = elim (Bool-cases (image_eq s.dst d)) [
  | inl same ↦
      let e' = subst (λ w. request_by_dst xs w ≡ some previous) (image_eq_sound s.dst d same) e in
      lookup_found xs (s ∷ ys) d previous e' ∙ sym (lookup_found xs ys d previous e')
  | inr other ↦
      request_by_dst-append xs (s ∷ ys) d
      ∙ ap (or_first (request_by_dst xs d)) (lookup_other s ys d other)
      ∙ sym (request_by_dst-append xs ys d)
]

pub spec_eq_refl : (s : Spec) → spec_eq s s ≡ true
unfolding spec_eq transform_eq
spec_eq_refl s =
    rw (image_eq_refl s.src, image_eq_refl s.dst, bytes_eq_refl s.transform.limit_platforms.joined)
      refl

pub transform_eq_sound : (t u : Transform) → transform_eq t u ≡ true → t ≡ u
unfolding transform_eq
transform_eq_sound t u e =
    ground (arith, bytes_eq_sound t.limit_platforms.joined u.limit_platforms.joined)

pub spec_eq_sound : (s t : Spec) → spec_eq s t ≡ true → s ≡ t
unfolding spec_eq
spec_eq_sound s t e = ground (
  arith,
  image_eq_sound s.src t.src,
  image_eq_sound s.dst t.dst,
  transform_eq_sound s.transform t.transform,
)

-- No two requests of the list have the same destination.
abbrev pub IsDistinct : List Spec → Type 0
IsDistinct [] = Unit
IsDistinct (s ∷ xs) = (request_by_dst xs s.dst ≡ none) × IsDistinct xs

pub snoc-IsDistinct :
    (xs : List Spec) (s : Spec)
    → IsDistinct xs
    → request_by_dst xs s.dst ≡ none
    → IsDistinct (xs ++ (s ∷ []))
unfolding request_by_dst
snoc-IsDistinct [] s h e = (refl, tt)
snoc-IsDistinct (x ∷ xs) s (once, h) e = elim (Bool-cases (image_eq x.dst s.dst)) [
  | inl same ↦ let hit = lookup_hit x xs s.dst same in absurd (some-none x (sym hit ∙ e))
  | inr other ↦ (
    lookup_missing xs (s ∷ []) x.dst once
        ∙ lookup_other s [] x.dst (image_eq_swap x.dst s.dst other),
    snoc-IsDistinct xs s h (sym (lookup_other x xs s.dst other) ∙ e),
  )
]
