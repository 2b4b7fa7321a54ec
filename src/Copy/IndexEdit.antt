-- ===== src/Copy/IndexEdit.antt =====
-- internal/image/copy/copier.go, copyIndex: which manifests of an index are copied, and the index
-- that is uploaded for them. `none` is a panic.
pub mod Edited
pub mod Uploaded
mod Examples
use magic_mirror.Prelude.{
  ◌>>=◌, Bool, true, false, ◌||◌, List, [], ◌∷◌, Option, none, some, Bytes, bytes_eq, if◌then◌else◌,
  not,
}
use magic_mirror.StringKeyed.Operations.{Set}
use magic_mirror.Copy.Platforms.{to_platforms}
use magic_mirror.Image.Manifest.{
  Codecs, Descriptor, ParsedIndex, ManifestKind, parsed_index, descriptor,
}

-- The packages for platforms, and the one for deep copies.
pub record PlatformCode (P : Type 0) : Type 0 where
  pub parse_platform : Bytes → Option P
  pub match_any : List P → P → Bool
  pub deep_copy : ParsedIndex P → Option (ParsedIndex P)

-- `selectedDescriptors`, and `dstIndex` if it was copied: then its manifests are the same slice.
pub record Selection (P : Type 0) : Type 0 where
  pub selected : List (Descriptor P)
  pub limited : Option (ParsedIndex P)

module _ {P : Type 0} where
  -- An entry of the uploaded index for a copied manifest. If the slice is shared, then the write of
  -- the new descriptor hides the annotations and the platform of the old one before they are read.
  unfoldable pub replaced : Bool → Descriptor P → Descriptor P → Descriptor P
  replaced shared old desc =
      let source = if shared then desc else old in
      record desc { annotations = source.annotations; platform = source.platform }

  module _ (codecs : Codecs P) where
    -- The loop over dstManifests. Round i reads and writes the entries i only; `entries` are those
    -- of dstIndex.
    unfoldable pub replace_each :
        Bool
        → List (Descriptor P)
        → List (Descriptor P)
        → List (ManifestKind P)
        → Option (List (Descriptor P))
    unfolding replaced
    replace_each shared entries selected [] = some entries
    replace_each shared (entry ∷ entries) (old ∷ selected) (manifest ∷ manifests) = do
      desc ← descriptor codecs manifest
      rest ← replace_each shared entries selected manifests
      some ((if bytes_eq desc.digest old.digest then entry else replaced shared old desc) ∷ rest)
    replace_each shared [] selected (manifest ∷ manifests) = none
    replace_each shared (entry ∷ entries) [] (manifest ∷ manifests) = none

    -- Whether the loop calls ensureNewDstIndex.
    unfoldable pub any_changed : List (Descriptor P) → List (ManifestKind P) → Option Bool
    any_changed selected [] = some false
    any_changed [] (manifest ∷ manifests) = none
    any_changed (old ∷ selected) (manifest ∷ manifests) = do
      desc ← descriptor codecs manifest
      rest ← any_changed selected manifests
      some (not (bytes_eq desc.digest old.digest) || rest)

  module _ (code : PlatformCode P) where
    unfoldable pub matching : List P → List (Descriptor P) → Option (List (Descriptor P))
    matching limits [] = some []
    matching limits (d ∷ ds) = do
      p ← d.platform
      rest ← matching limits ds
      some (if code.match_any limits p then d ∷ rest else rest)

    unfoldable pub select_for : ParsedIndex P → List P → Option (Selection P)
    unfolding matching
    select_for index [] = some (record { selected = index.manifests; limited = none })
    select_for index (p ∷ ps) = do
      copy ← code.deep_copy index
      ds ← matching (p ∷ ps) copy.manifests
      some (record { selected = ds; limited = some (record copy { manifests = ds }) })

    unfoldable pub select : Set → ParsedIndex P → Option (Selection P)
    unfolding to_platforms select_for
    select limit_platforms index = do
      limits ← to_platforms code.parse_platform limit_platforms
      select_for index limits

    -- The unlimited case copies the index on the first change.
    unfoldable pub changed_index :
        Codecs P
        → ManifestKind P
        → ParsedIndex P
        → List (Descriptor P)
        → List (ManifestKind P)
        → Bool
        → Option (ManifestKind P)
    unfolding replace_each
    changed_index codecs kind index selected manifests false = some kind
    changed_index codecs kind index selected manifests true = do
      copy ← code.deep_copy index
      entries ← replace_each codecs false copy.manifests selected manifests
      some (parsed_index (record copy { manifests = entries }))

    -- `uploadIndex`, once all manifests are copied
    unfoldable pub upload_index :
        Codecs P
        → ManifestKind P
        → ParsedIndex P
        → List (Descriptor P)
        → Option (ParsedIndex P)
        → List (ManifestKind P)
        → Option (ManifestKind P)
    unfolding changed_index any_changed replace_each
    upload_index codecs kind index selected none manifests = do
      changed ← any_changed codecs selected manifests
      changed_index codecs kind index selected manifests changed
    upload_index codecs kind index selected (some dst) manifests = do
      entries ← replace_each codecs true dst.manifests selected manifests
      some (parsed_index (record dst { manifests = entries }))
