-- ===== src/Copy/Rules.antt =====
-- internal/image/copy/spec.go: what coalesceRequests refuses, and what it returns.
use magic_mirror.Prelude.{
  ◌≡◌, ◌≢◌, refl, ◌↔◌, ◌⊎◌, Bool, true, false, ◌&&◌, not, List, [], ◌∷◌, ◌++◌, Bool-cases, inl, inr,
  arith, bytes_eq, bytes_eq_refl, bytes_eq_sound, All, map,
}
use magic_mirror.StringKeyed.Operations.{empty_set}
use magic_mirror.Image.Types.{Image}
use magic_mirror.Copy.Spec.{
  Spec, Transform, SpecError, transform_eq, error_if, coalesce_requests, request_errors,
  all_request_errors,
}
use magic_mirror.Copy.Lookup.{transform_eq_sound}
use magic_mirror.Copy.Coalesce.{
  IsFirst, IsFirstOf, loop-first, loop_accepts, loop_passes, loop_keeps_errors,
}

abbrev pub no_transform : Transform
no_transform = record { limit_platforms = empty_set }

-- The rules for one request among specs: its destination is no source, and an explicit digest on it
-- is that of the source, with no transforms.
abbrev pub Fits : List Spec → Spec → Type 0
Fits specs s =
    All (λ i. i ≢ s.dst) (map (λ r. r.src) specs)
    × ((s.dst.digest ≡ []) ⊎ ((s.dst.digest ≡ s.src.digest) × (s.transform ≡ no_transform)))

and_false : (b : Bool) → (b && false) ≡ false
and_false true = refl
and_false false = refl

no_error : (b : Bool) (e : SpecError) → error_if b e ≡ [] → b ≡ false
unfolding error_if
no_error true e h = absurd (cc)
no_error false e h = refl

append-empty : (xs ys : List SpecError) → xs ++ ys ≡ [] → (xs ≡ []) × (ys ≡ [])
append-empty [] ys e = (refl, e)
append-empty (x ∷ xs) ys e = absurd (cc)

digest_rules :
    (s : Spec)
    → (not (bytes_eq s.dst.digest []) && not (bytes_eq s.dst.digest s.src.digest)) ≡ false
    → (not (bytes_eq s.dst.digest []) && not (transform_eq s.transform no_transform)) ≡ false
    → (s.dst.digest ≡ []) ⊎ ((s.dst.digest ≡ s.src.digest) × (s.transform ≡ no_transform))
digest_rules s h k = elim (Bool-cases (bytes_eq s.dst.digest [])) [
  | inl empty ↦ inl (bytes_eq_sound s.dst.digest [] empty)
  | inr explicit ↦ inr (
    bytes_eq_sound s.dst.digest s.src.digest (ground arith),
    transform_eq_sound s.transform no_transform (ground arith),
  )
]

transform_eq_refl : (t : Transform) → transform_eq t t ≡ true
unfolding transform_eq
transform_eq_refl t = bytes_eq_refl t.limit_platforms.joined

-- `law` is what the set package documents of adding elements and of Contains.
module _ (in_set : List Image → Image → Bool)
    (law : (imgs : List Image) (img : Image)
      → (in_set imgs img ≡ false) ↔ All (λ i. i ≢ img) imgs) where
  errors_fit : (specs : List Spec) (s : Spec) → request_errors in_set specs s ≡ [] → Fits specs s
  unfolding request_errors
  errors_fit specs s e =
      let (first_two, third) = append-empty _ _ e in
      let (first, second) = append-empty _ _ first_two in
      (
        (law (map (λ r. r.src) specs) s.dst).0 (no_error _ _ first),
        digest_rules s (no_error _ _ second) (no_error _ _ third),
      )

  fit_errors : (specs : List Spec) (s : Spec) → Fits specs s → request_errors in_set specs s ≡ []
  unfolding request_errors error_if
  fit_errors specs s (no_source, inl empty) =
      rw ((law (map (λ r. r.src) specs) s.dst).1 no_source, empty, bytes_eq_refl []) refl
  fit_errors specs s (no_source, inr (same, plain)) =
      rw
        (
          (law (map (λ r. r.src) specs) s.dst).1 no_source,
          same,
          plain,
          bytes_eq_refl s.src.digest,
          transform_eq_refl no_transform,
        )
        (rw (and_false (not (bytes_eq s.src.digest []))) refl)

  requests_fit :
      (specs rest : List Spec) → all_request_errors in_set specs rest ≡ [] → All (Fits specs) rest
  unfolding all_request_errors
  requests_fit specs [] e = tt
  requests_fit specs (s ∷ rest) e =
      let (here, there) = append-empty (request_errors in_set specs s) _ e in
      (errors_fit specs s here, requests_fit specs rest there)

  fit_requests :
      (specs rest : List Spec) → All (Fits specs) rest → all_request_errors in_set specs rest ≡ []
  unfolding all_request_errors
  fit_requests specs [] h = refl
  fit_requests specs (s ∷ rest) (h, hs) = rw (fit_errors specs s h, fit_requests specs rest hs) refl

  -- For a set that behaves as documented, coalesceRequests reports no error if and only if every
  -- request fits the rules for one request, and equals the first request for its destination.
  pub coalesce_requests_accepts :
      (specs : List Spec)
      → ((coalesce_requests in_set specs).errs ≡ [])
        ↔ (All (Fits specs) specs × All (IsFirst specs) specs)
  unfolding coalesce_requests
  coalesce_requests_accepts specs = (
    (λ e. (requests_fit specs specs (loop_keeps_errors _ specs e), loop_accepts _ specs e)),
    λ h. loop_passes _ specs (fit_requests specs specs (h.0)) (h.1),
  )

-- Errors or not, the coalesced requests have different destinations, and a lookup by destination
-- finds in them the first of the given requests.
pub coalesce_requests_first :
    (in_set : List Image → Image → Bool) (specs : List Spec)
    → IsFirstOf ((coalesce_requests in_set specs).coalesced) specs
unfolding coalesce_requests
coalesce_requests_first in_set specs = loop-first _ specs tt
