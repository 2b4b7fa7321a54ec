-- ===== src/Image/Types.antt =====
-- The types of internal/image/image.go, with their equality and how they print.
use magic_mirror.Prelude.{
  ◌≡◌, Bool, true, ◌&&◌, [], ◌∷◌, ◌++◌, Bytes, bytes_eq, if◌then◌else◌, bytes_eq_sound,
  bytes_eq_refl, arith, not,
}

pub record Repository : Type 0 where
  pub registry : Bytes
  pub namespace : Bytes

-- The Go type Digest is a string too.
pub record Image : Type 0 where
  pub repository : Repository
  pub tag : Bytes
  pub digest : Bytes

-- `==` on images
unfoldable pub image_eq : Image → Image → Bool
image_eq i j =
    bytes_eq i.repository.registry j.repository.registry
    && (bytes_eq i.repository.namespace j.repository.namespace
        && (bytes_eq i.tag j.tag && bytes_eq i.digest j.digest))

-- `Repository.String`
unfoldable pub repository_string : Repository → Bytes
repository_string r = r.registry ++ (b'/' ∷ r.namespace)

-- `Image.String`
unfoldable pub image_string : Image → Bytes
unfolding repository_string
image_string i =
    let with_repository = repository_string i.repository in
    let with_tag =
      if not (bytes_eq i.tag []) then with_repository ++ (b':' ∷ i.tag) else with_repository in
    if not (bytes_eq i.digest []) then with_tag ++ (b'@' ∷ i.digest) else with_tag

pub image_eq_refl : (i : Image) → image_eq i i ≡ true
unfolding image_eq
image_eq_refl i = ground (
  arith,
  bytes_eq_refl i.repository.registry,
  bytes_eq_refl i.repository.namespace,
  bytes_eq_refl i.tag,
  bytes_eq_refl i.digest,
)

pub image_eq_sound : (i j : Image) → image_eq i j ≡ true → i ≡ j
unfolding image_eq
image_eq_sound i j e = ground (
  arith,
  bytes_eq_sound i.repository.registry j.repository.registry,
  bytes_eq_sound i.repository.namespace j.repository.namespace,
  bytes_eq_sound i.tag j.tag,
  bytes_eq_sound i.digest j.digest,
)
