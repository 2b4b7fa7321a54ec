-- ===== src/Image/Manifest.antt =====
-- internal/image/manifest.go and internal/image/media.go: manifests, as read from a registry or as
-- changed by the program.
use magic_mirror.Prelude.{
  ℕ, Bool, true, false, ◌||◌, List, [], ◌∷◌, Option, none, some, Bytes, bytes_eq, codes,
  if◌then◌else◌, length,
}

-- The image-spec package's constants.
pub record MediaTypes : Type 0 where
  pub oci_index : Bytes
  pub oci_manifest : Bytes

-- The image-spec package's structs, by the fields that the program uses; `rest` is all else.
pub record Descriptor (P : Type 0) : Type 0 where
  pub media_type : Bytes
  pub digest : Bytes
  pub size : ℕ
  pub annotations : List (Bytes × Bytes)
  pub platform : Option P

pub record ParsedIndex (P : Type 0) : Type 0 where
  pub media_type : Bytes
  pub manifests : List (Descriptor P)
  pub rest : Bytes

pub record ParsedManifest (P : Type 0) : Type 0 where
  pub media_type : Bytes
  pub config : Descriptor P
  pub layers : List (Descriptor P)
  pub rest : Bytes

-- The four types behind the interface ManifestKind. The first two are an Index, the others a
-- Manifest.
pub data ManifestKind (P : Type 0) : Type 0 where
  raw_index : ParsedIndex P → Bytes → ManifestKind P
  parsed_index : ParsedIndex P → ManifestKind P
  raw_manifest : ParsedManifest P → Bytes → ManifestKind P
  parsed_manifest : ParsedManifest P → ManifestKind P

-- The packages for JSON and digests. `none` is an error of Marshal, on which Encoded panics.
pub record Codecs (P : Type 0) : Type 0 where
  pub marshal_index : ParsedIndex P → Option Bytes
  pub marshal_manifest : ParsedManifest P → Option Bytes
  pub digest_of : Bytes → Bytes
  pub is_valid_digest : Bytes → Bool

module _ (types : MediaTypes) where
  abbrev pub docker_index : Bytes
  docker_index = codes "application/vnd.docker.distribution.manifest.list.v2+json"

  abbrev pub docker_manifest : Bytes
  docker_manifest = codes "application/vnd.docker.distribution.manifest.v2+json"

  abbrev pub all_manifest_media_types : List Bytes
  all_manifest_media_types =
      types.oci_index ∷ docker_index ∷ types.oci_manifest ∷ docker_manifest ∷ []

  unfoldable pub is_index : Bytes → Bool
  is_index mt = bytes_eq mt types.oci_index || bytes_eq mt docker_index

  unfoldable pub is_manifest : Bytes → Bool
  is_manifest mt = bytes_eq mt types.oci_manifest || bytes_eq mt docker_manifest

module _ {P : Type 0} where
  unfoldable pub get_media_type : ManifestKind P → Bytes
  get_media_type (raw_index i raw) = i.media_type
  get_media_type (parsed_index i) = i.media_type
  get_media_type (raw_manifest m raw) = m.media_type
  get_media_type (parsed_manifest m) = m.media_type

  -- `manifest.(image.Index).Parsed()`; `none` is a panic.
  unfoldable pub as_index : ManifestKind P → Option (ParsedIndex P)
  as_index (raw_index i raw) = some i
  as_index (parsed_index i) = some i
  as_index (raw_manifest m raw) = none
  as_index (parsed_manifest m) = none

  -- `manifest.(image.Manifest).Parsed()`
  unfoldable pub as_manifest : ManifestKind P → Option (ParsedManifest P)
  as_manifest (raw_index i raw) = none
  as_manifest (parsed_index i) = none
  as_manifest (raw_manifest m raw) = some m
  as_manifest (parsed_manifest m) = some m

  module _ (codecs : Codecs P) where
    -- `Encoded`; `none` is a panic.
    unfoldable pub encoded : ManifestKind P → Option Bytes
    encoded (raw_index i raw) = some raw
    encoded (parsed_index i) = codecs.marshal_index i
    encoded (raw_manifest m raw) = some raw
    encoded (parsed_manifest m) = codecs.marshal_manifest m

    unfoldable pub describe : Bytes → Option Bytes → Option (Descriptor P)
    describe media_type none = none
    describe media_type (some body) = some (record {
      media_type = media_type;
      digest = codecs.digest_of body;
      size = length body;
      annotations = [];
      platform = none;
    })

    -- `Descriptor`
    unfoldable pub descriptor : ManifestKind P → Option (Descriptor P)
    unfolding describe encoded get_media_type
    descriptor m = describe (get_media_type m) (encoded m)

    unfoldable pub digests_valid : List (Descriptor P) → Bool
    digests_valid [] = true
    digests_valid (d ∷ ds) =
        let rest = digests_valid ds in if codecs.is_valid_digest d.digest then rest else false

    unfoldable pub validate_index : ParsedIndex P → Bool
    unfolding digests_valid
    validate_index i = digests_valid i.manifests

    unfoldable pub validate_manifest : ParsedManifest P → Bool
    unfolding digests_valid
    validate_manifest m =
        if codecs.is_valid_digest m.config.digest then digests_valid m.layers else false
