-- ===== src/Copy/PlatformCopier/Copied.antt =====
-- internal/image/copy/platforms.go: copyPlatform uploads a manifest only to a repository that holds
-- its blobs.
use magic_mirror.Prelude.{◌≡◌, some, Bytes}
use magic_mirror.Image.Types.{Image, Repository}
use magic_mirror.Image.Manifest.{ManifestKind, ParsedManifest, as_manifest}
use magic_mirror.Registry.Client.{Url}
use magic_mirror.Copy.Blobs.{Outside}
use magic_mirror.Copy.Blobs.Sound.{Promises}
use magic_mirror.Copy.Manifests.{Reading}
use magic_mirror.Copy.PlatformCopier.{Caches, PlatformCopyKey}
use magic_mirror.Copy.PlatformCopier.Complete.{
  HoldsManifest, HoldsBlobs, IsConsistent, IsGood, Keeping,
}

module _ {S C P : Type 0} {out : Outside S C} {reading : Reading P} {caches : Caches S P}
    {Holds : S → Repository → Bytes → Type 0} {HasManifest : S → Repository → Bytes → Type 0}
    {IsUpload : Url → Repository → Type 0} (promises : Promises out Holds IsUpload)
    (keeping : Keeping out reading caches Holds HasManifest) where
  open out use {net}
  open reading use {types, codecs}

  abbrev Good : S → Type 0
  Good s = IsGood out reading caches Holds HasManifest s

  abbrev Consistent : S → Type 0
  Consistent s = IsConsistent out reading caches Holds HasManifest s

  -- Good, and the repository holds the blobs of the manifest with this text.
  abbrev Ready : Repository → Bytes → S → Type 0
  Ready repo body s = Good s × HoldsBlobs out reading caches Holds HasManifest s repo body

  module _ (req : PlatformCopyKey) (kind : ManifestKind P) where
    -- Good, and the destination holds the blobs of the manifest.
    abbrev Copied : S → Type 0
    Copied s =
        Good s
        × ((m : ParsedManifest P)
            → as_manifest kind ≡ some m
            → HoldsManifest Holds s req.dst.repository m)
