-- ===== src/Copy/IndexEdit/Examples.antt =====
-- internal/image/copy/copier.go, copyIndex: two of three platforms, one of them copied with another
-- digest.
use magic_mirror.Prelude.{
  ◌≡◌, refl, true, false, List, [], ◌∷◌, some, none, Bytes, bytes_eq, codes, if◌then◌else◌,
}
use magic_mirror.StringKeyed.Operations.{Set}
use magic_mirror.Image.Manifest.{
  Codecs, Descriptor, ParsedIndex, ManifestKind, raw_index, raw_manifest, as_index, descriptor,
}
use magic_mirror.Copy.IndexEdit.{PlatformCode, Selection, select, upload_index}
use magic_mirror.Copy.IndexEdit.Edited.{
  digests_of, platforms_of, kept_platforms, Described, all_described, next_described,
}
use magic_mirror.Copy.IndexEdit.Uploaded.{is_limited, upload_index-digests, upload_index-platforms}

abbrev codecs : Codecs Bytes
codecs = record {
  marshal_index = λ i. some i.rest;
  marshal_manifest = λ m. some m.rest;
  digest_of = λ body. body;
  is_valid_digest = λ digest. true;
}

-- A limit of `x` matches all platforms but `z`.
abbrev code : PlatformCode Bytes
code = record {
  parse_platform = λ text. some text;
  match_any = λ limits p. if bytes_eq p (codes "z") then false else true;
  deep_copy = λ i. some i;
}

abbrev entry : Bytes → Bytes → Descriptor Bytes
entry digest platform = record {
  media_type = codes "m";
  digest = digest;
  size = 1;
  annotations = [];
  platform = some platform;
}

abbrev index : ParsedIndex Bytes
index = record {
  media_type = codes "i";
  manifests =
      entry (codes "a") (codes "x")
      ∷ entry (codes "b") (codes "z")
      ∷ entry (codes "c") (codes "y")
      ∷ [];
  rest = codes "r";
}

abbrev limit_platforms : Set
limit_platforms = record { joined = codes "x" }

abbrev entries : List (Descriptor Bytes)
entries = entry (codes "a") (codes "x") ∷ entry (codes "c") (codes "y") ∷ []

abbrev selection : Selection Bytes
selection = record { selected = entries; limited = some (record index { manifests = entries }) }

selects : select code limit_platforms index ≡ some selection
unfolding select magic_mirror.StringKeyed.Operations.all bytes_eq
    magic_mirror.StringKeyed.Encoding.split magic_mirror.StringKeyed.Encoding.decode
selects = refl

abbrev manifest : Bytes → ManifestKind Bytes
manifest body =
    raw_manifest (record { media_type = codes "m"; config = entry [] []; layers = []; rest = [] })
      body

abbrev described_by : Bytes → Descriptor Bytes
described_by body = record {
  media_type = codes "m";
  digest = body;
  size = 1;
  annotations = [];
  platform = none;
}

abbrev manifests : List (ManifestKind Bytes)
manifests = manifest (codes "a") ∷ manifest (codes "d") ∷ []

abbrev descs : List (Descriptor Bytes)
descs = described_by (codes "a") ∷ described_by (codes "d") ∷ []

described : Described codecs manifests descs
unfolding descriptor
described = next_described refl (next_described refl all_described)

abbrev kind : ManifestKind Bytes
kind = raw_index index (codes "text")

is_index : as_index kind ≡ some index
unfolding as_index
is_index = refl

upload_index-digests_example :
    (up : ManifestKind Bytes) × (uploaded : ParsedIndex Bytes) × (upload_index code codecs kind
        index entries selection.limited manifests
      ≡ some up)
    × (as_index up ≡ some uploaded)
    × (digests_of uploaded.manifests ≡ digests_of descs)
upload_index-digests_example =
    upload_index-digests codecs code kind index limit_platforms selection manifests descs refl
      is_index selects described refl

upload_index-platforms_example :
    (up : ManifestKind Bytes) × (uploaded : ParsedIndex Bytes) × (upload_index code codecs kind
        index entries selection.limited manifests
      ≡ some up)
    × (as_index up ≡ some uploaded)
    × (platforms_of uploaded.manifests ≡ kept_platforms (is_limited selection) entries descs)
upload_index-platforms_example =
    upload_index-platforms codecs code kind index limit_platforms selection manifests descs refl
      is_index selects described refl

-- The second entry has lost its platform.
platform_lost : kept_platforms (is_limited selection) entries descs ≡ some (codes "x") ∷ none ∷ []
unfolding kept_platforms is_limited bytes_eq
platform_lost = refl
