-- ===== src/Copy/PlatformCopier.antt =====
-- internal/image/copy/platforms.go: copying the image for one platform; and CopyAll of
-- internal/image/copy/blobs.go.
pub mod Complete
pub mod Holding
pub mod Collected
pub mod Copied
pub mod Mock
mod Examples
use magic_mirror.Prelude.{
  ℕ, Bool, true, false, List, [], ◌∷◌, ◌++◌, Option, none, some, Bytes, if◌then◌else◌, map,
}
use magic_mirror.Image.Types.{Image, Repository}
use magic_mirror.Image.Manifest.{
  Descriptor, ParsedManifest, ManifestKind, is_manifest, get_media_type, as_manifest,
  validate_manifest, descriptor,
}
use magic_mirror.Registry.Outcome.{
  Outcome, Run, invalid_digest, not_a_manifest, return, fail, ◌>>=◌, ◌>>◌,
}
use magic_mirror.Copy.Blobs.{BlobCopyKey, Outside, register_source, copy_blob}
use magic_mirror.Copy.Manifests.{Reading, or_crash, upload_manifest}

-- The caches that copyPlatform shares with other goroutines: InformFront and Get of the manifests,
-- and the results that the map of blobs has cached.
pub record Caches (S P : Type 0) : Type 0 where
  pub inform_front : Image → S → S
  pub get_cached : Image → Run S (ManifestKind P)
  pub blob_result : BlobCopyKey → S → Option (Outcome (Unit {0}))
  pub set_blob_result : BlobCopyKey → Outcome (Unit {0}) → S → S

pub record PlatformCopyKey : Type 0 where
  pub src : Image
  pub dst : Image

unfoldable pub copy_keys : Repository → List Bytes → List BlobCopyKey
copy_keys dst [] = []
copy_keys dst (dgst ∷ dgsts) = record { digest = dgst; dst = dst } ∷ copy_keys dst dgsts

-- The layers' digests, then the configuration's.
unfoldable pub blob_digests : {P : Type 0} → ParsedManifest P → List Bytes
blob_digests m = map (λ layer. layer.digest) m.layers ++ (m.config.digest ∷ [])

-- The images that CopyAll asks for.
unfoldable pub platform_keys : Repository → List Image → List PlatformCopyKey
platform_keys dst [] = []
platform_keys dst (src ∷ srcs) =
    record { src = src; dst = record { repository = dst; tag = []; digest = src.digest } }
    ∷ platform_keys dst srcs

module _ {S C : Type 0} (out : Outside S C) where
  unfoldable pub register_all : Repository → List Bytes → S → S
  unfolding register_source
  register_all src [] s = s
  register_all src (dgst ∷ dgsts) s = register_all src dgsts (register_source out dgst src s)

module _ {S C P : Type 0} (out : Outside S C) (reading : Reading P) (caches : Caches S P) where
  open out use {net}
  open reading use {types, codecs}

  -- completeTask stores the handler's result in the key's task
  unfoldable pub note_result : BlobCopyKey → Outcome Unit × S → Outcome Unit × S
  note_result key (r, s) = (r, caches.set_blob_result key r s)

  unfoldable pub blob_or_copy : BlobCopyKey → Option (Outcome Unit) → Run S Unit
  unfolding note_result
  blob_or_copy key none s = note_result key (copy_blob out key s)
  blob_or_copy key (some r) s = (r, s)

  -- One result of `Collect`: the cached one, or else that of the handler, which is copyBlob. Handlers
  -- run here in the order of the results, also one that another caller waits for; what else goes on
  -- meanwhile is a part of each exchange.
  unfoldable pub get_blob : BlobCopyKey → Run S Unit
  unfolding blob_or_copy
  get_blob key s = blob_or_copy key (caches.blob_result key s) s

  -- `Collect`, up to the first error
  unfoldable pub collect_blobs : List BlobCopyKey → Run S Unit
  unfolding get_blob
  collect_blobs [] = return tt
  collect_blobs (key ∷ keys) = get_blob key >> collect_blobs keys

  -- `CopyAll` of the blobs
  unfoldable pub copy_blobs : Repository → Repository → List Bytes → Run S Unit
  unfolding register_all copy_keys collect_blobs
  copy_blobs src dst dgsts s = collect_blobs (copy_keys dst dgsts) (register_all out src dgsts s)

  -- From `manifest.Validate` on.
  unfoldable pub copy_manifest : PlatformCopyKey → ManifestKind P → ParsedManifest P → Run S Unit
  unfolding blob_digests copy_blobs
  copy_manifest req kind m =
      if validate_manifest codecs m
      then (do
        copy_blobs req.src.repository req.dst.repository (blob_digests m)
        desc ← or_crash net reading (descriptor codecs kind)
        upload_manifest net reading (record req.dst { digest = desc.digest }) kind)
      else fail invalid_digest

  unfoldable pub inform : Image → Run S Unit
  inform src s = return tt (caches.inform_front src s)

  unfoldable pub copy_platform : PlatformCopyKey → Run S (ManifestKind P)
  unfolding inform copy_manifest
  copy_platform req = do
    inform req.src
    kind ← caches.get_cached req.src
    (if is_manifest types (get_media_type kind)
        then (do m ← or_crash net reading (as_manifest kind); copy_manifest req kind m; return kind)
        else fail not_a_manifest)
