-- ===== src/Copy/Examples.antt =====
-- Runs of internal/image/copy/spec.go on a few requests, and the theorems applied to them.
use magic_mirror.Prelude.{
  ℕ, Option, none, some, bytes_lt, arith, length, ◌≡◌, ◌≢◌, refl, sym, ◌∙◌, subst, ◌↔◌, Bool, true,
  false, ◌||◌, List, [], ◌∷◌, Bool-cases, inl, inr, codes, bytes_eq, All, Bytes,
}
use magic_mirror.Image.Types.{Image, image_eq, image_eq_refl, image_eq_sound}
use magic_mirror.Copy.Spec.{
  Spec, coalesce_requests, request_errors, request_by_dst, spec_eq, source_and_destination,
  coalesce_one, note_request,
}
use magic_mirror.StringKeyed.Operations.{Set, cardinality, represent, unmarshal}
use magic_mirror.StringKeyed.Encoding.{join, encode, decode, count, split}
use magic_mirror.StringKeyed.Order.{sort, compact}
use magic_mirror.Copy.Platforms.{
  to_platforms, unmarshal_platforms, unmarshal_platforms-to_platforms,
}
use magic_mirror.Copy.Coalesce.{IsFirst, IsFirstOf}
use magic_mirror.Copy.Rules.{Fits, no_transform, coalesce_requests_accepts, coalesce_requests_first}

-- A set as the list of what was added.
member : List Image → Image → Bool
member [] img = false
member (i ∷ imgs) img = image_eq i img || member imgs img

or_false : (a b : Bool) → (a || b) ≡ false → (a ≡ false) × (b ≡ false)
or_false true b e = absurd (cc)
or_false false b e = (refl, e)

true_not_false : true ≢ false
true_not_false e = cc

member-others :
    (imgs : List Image) (img : Image) → member imgs img ≡ false → All (λ i. i ≢ img) imgs
unfolding member
member-others [] img e = tt
member-others (i ∷ imgs) img e =
    let (other, rest) = or_false (image_eq i img) (member imgs img) e in
    (
      (λ same.
          true_not_false
            (sym (image_eq_refl img) ∙ subst (λ w. image_eq w img ≡ false) same other)),
      member-others imgs img rest,
    )

others-member :
    (imgs : List Image) (img : Image) → All (λ i. i ≢ img) imgs → member imgs img ≡ false
unfolding member
others-member [] img h = refl
others-member (i ∷ imgs) img (h, hs) = elim (Bool-cases (image_eq i img)) [
  | inl same ↦ absurd (h (image_eq_sound i img same))
  | inr other ↦ rw other (others-member imgs img hs)
]

abbrev image : Bytes → Image
image tag = record {
  repository = record { registry = codes "docker.io"; namespace = codes "library/alpine" };
  tag = tag;
  digest = [];
}

abbrev copy_tags : Bytes → Bytes → Spec
copy_tags a b = record { src = image a; dst = image b; transform = no_transform }

abbrev two_copies : List Spec
two_copies = copy_tags (codes "a") (codes "b") ∷ copy_tags (codes "a") (codes "b") ∷ []

abbrev in_circle : List Spec
in_circle = copy_tags (codes "a") (codes "a") ∷ []

run_two_copies :
    coalesce_requests member two_copies
    ≡ record { coalesced = copy_tags (codes "a") (codes "b") ∷ []; errs = [] }
unfolding coalesce_requests member image_eq bytes_eq request_by_dst spec_eq coalesce_one
    note_request request_errors
run_two_copies = refl

run_in_circle :
    (coalesce_requests member in_circle).errs ≡ source_and_destination (image (codes "a")) ∷ []
unfolding coalesce_requests member image_eq bytes_eq request_by_dst spec_eq coalesce_one
    note_request request_errors
run_in_circle = refl

member_law : (imgs : List Image) (img : Image) → (member imgs img ≡ false) ↔ All (λ i. i ≢ img) imgs
member_law imgs img = (member-others imgs img, others-member imgs img)

coalesce_requests_accepts_example :
    ((coalesce_requests member two_copies).errs ≡ [])
    ↔ (All (Fits two_copies) two_copies × All (IsFirst two_copies) two_copies)
coalesce_requests_accepts_example = coalesce_requests_accepts member member_law two_copies

coalesce_requests_first_example :
    IsFirstOf ((coalesce_requests member two_copies).coalesced) two_copies
coalesce_requests_first_example = coalesce_requests_first member two_copies

-- The platforms of the example: all strings but the empty one.
abbrev parse_nonempty : Bytes → Option ℕ
parse_nonempty [] = none
parse_nonempty (c ∷ s) = some c

abbrev platforms : Set
platforms = represent (codes "b" ∷ [])

run_unmarshal_platforms :
    unmarshal_platforms parse_nonempty (codes "b" ∷ []) ≡ some (some platforms)
unfolding unmarshal_platforms unmarshal bytes_eq sort compact bytes_lt join encode count decode
    split cardinality represent
run_unmarshal_platforms = refl

run_empty_platform : unmarshal_platforms parse_nonempty ([] ∷ []) ≡ some none
unfolding unmarshal_platforms unmarshal bytes_eq sort compact bytes_lt join encode count decode
    split cardinality represent
run_empty_platform = refl

unmarshal_platforms-to_platforms_example :
    (out : List ℕ) × (to_platforms parse_nonempty platforms ≡ some out)
    × (length out ≡ cardinality platforms)
unmarshal_platforms-to_platforms_example =
    unmarshal_platforms-to_platforms parse_nonempty (codes "b" ∷ []) platforms
      ((omega arith, tt), tt) run_unmarshal_platforms
