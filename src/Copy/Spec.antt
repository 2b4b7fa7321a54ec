-- ===== src/Copy/Spec.antt =====
-- internal/image/copy/spec.go: requests for copies, and how they are coalesced. An error is the
-- list of what errors.Join is given.
use magic_mirror.Prelude.{
  Bool, ◌&&◌, List, [], ◌∷◌, ◌++◌, bytes_eq, if◌then◌else◌, not, Option, none, some, map,
}
use magic_mirror.StringKeyed.Operations.{Set, empty_set}
use magic_mirror.Image.Types.{Image, image_eq}

pub record Transform : Type 0 where
  pub limit_platforms : Set

pub record Spec : Type 0 where
  pub src : Image
  pub dst : Image
  pub transform : Transform

unfoldable pub transform_eq : Transform → Transform → Bool
transform_eq t u = bytes_eq t.limit_platforms.joined u.limit_platforms.joined

-- `==` on requests
unfoldable pub spec_eq : Spec → Spec → Bool
unfolding transform_eq
spec_eq s t = image_eq s.src t.src && (image_eq s.dst t.dst && transform_eq s.transform t.transform)

pub data SpecError : Type 0 where
  source_and_destination : Image → SpecError
  inconsistent_digest : Image → Image → SpecError
  digest_with_transforms : Image → SpecError
  inconsistent_copies : Image → Image → Image → SpecError

unfoldable pub error_if : Bool → SpecError → List SpecError
error_if b e = if b then e ∷ [] else []

-- `requestsByDst[dst]`: the map holds, by destination, the requests coalesced so far.
unfoldable pub request_by_dst : List Spec → Image → Option Spec
request_by_dst [] dst = none
request_by_dst (s ∷ coalesced) dst =
    let rest = request_by_dst coalesced dst in if image_eq s.dst dst then some s else rest

pub record Coalescing : Type 0 where
  pub coalesced : List Spec
  pub errs : List SpecError

unfoldable pub note_request : Coalescing → Spec → Option Spec → Coalescing
note_request c current none = record c { coalesced = c.coalesced ++ (current ∷ []) }
note_request c current (some previous) =
    if not (spec_eq previous current)
    then record c {
      errs = c.errs ++ (inconsistent_copies current.dst current.src previous.src ∷ []);
    }
    else c

-- One iteration of the second loop.
unfoldable pub coalesce_one : Coalescing → Spec → Coalescing
unfolding note_request
coalesce_one c current = note_request c current (request_by_dst c.coalesced current.dst)

unfoldable pub coalesce_loop : Coalescing → List Spec → Coalescing
unfolding coalesce_one
coalesce_loop c [] = c
coalesce_loop c (s ∷ specs) = coalesce_loop (coalesce_one c s) specs

-- The set package: `in_set imgs img` says whether the set that all of `imgs` were added to contains
-- `img`.
module _ (in_set : List Image → Image → Bool) where
  -- The first loop's errors for one request.
  unfoldable pub request_errors : List Spec → Spec → List SpecError
  unfolding error_if transform_eq
  request_errors specs s =
      error_if (in_set (map (λ r. r.src) specs) s.dst) (source_and_destination s.dst)
      ++ error_if (not (bytes_eq s.dst.digest []) && not (bytes_eq s.dst.digest s.src.digest))
          (inconsistent_digest s.dst s.src)
      ++ error_if
          (not (bytes_eq s.dst.digest [])
            && not (transform_eq s.transform (record { limit_platforms = empty_set })))
          (digest_with_transforms s.dst)

  unfoldable pub all_request_errors : List Spec → List Spec → List SpecError
  unfolding request_errors
  all_request_errors specs [] = []
  all_request_errors specs (s ∷ rest) = request_errors specs s ++ all_request_errors specs rest

  -- Go returns the coalesced requests and the joined errors, nil when there are none.
  unfoldable pub coalesce_requests : List Spec → Coalescing
  unfolding all_request_errors coalesce_loop
  coalesce_requests specs =
      coalesce_loop (record { coalesced = []; errs = all_request_errors specs specs }) specs
