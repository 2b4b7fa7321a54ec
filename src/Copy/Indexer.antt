-- ===== src/Copy/Indexer.antt =====
-- internal/image/copy/blobindexer.go: registering the blobs of a destination's manifests.
use magic_mirror.Prelude.{List, [], ◌∷◌, Bytes, if◌then◌else◌, not, map}
use magic_mirror.Image.Types.{Image, Repository}
use magic_mirror.Image.Manifest.{
  ParsedManifest, ManifestKind, is_index, is_manifest, get_media_type, as_index, as_manifest,
  descriptor,
}
use magic_mirror.Registry.Outcome.{Outcome, done, failed, panics, Run, return, ◌>>=◌, ◌>>◌}
use magic_mirror.Copy.Blobs.{Outside}
use magic_mirror.Copy.Manifests.{Reading, or_crash}
use magic_mirror.Copy.PlatformCopier.{register_all}

-- The indexer's manifest cache, and `go`, for one goroutine for each image.
pub record Indexing (S P : Type 0) : Type 0 where
  pub get_indexed : Image → Run S (ManifestKind P)
  pub spawn : List Image → S → S

-- The configuration's digest, then the layers'.
unfoldable pub indexed_digests : {P : Type 0} → ParsedManifest P → List Bytes
indexed_digests m = m.config.digest ∷ map (λ layer. layer.digest) m.layers

module _ {S C P : Type 0} (out : Outside S C) (reading : Reading P) (indexing : Indexing S P) where
  open out use {net}
  open reading use {types, codecs}

  unfoldable pub index_blobs : Repository → ParsedManifest P → Run S Unit
  unfolding indexed_digests
  index_blobs repo m s = return tt (register_all out repo (indexed_digests m) s)

  unfoldable pub queue_manifests : Repository → List Bytes → Run S Unit
  queue_manifests repo dgsts s =
      return tt (
        indexing.spawn (map (λ dgst. record { repository = repo; tag = []; digest = dgst }) dgsts)
          s)

  unfoldable pub submit : Repository → ManifestKind P → Run S Unit
  unfolding index_blobs queue_manifests
  submit repo kind =
      if is_index types (get_media_type kind)
      then (do
        index ← or_crash net reading (as_index kind)
        queue_manifests repo (map (λ d. d.digest) index.manifests))
      else if not (is_manifest types (get_media_type kind))
      then return tt
      else (do
        m ← or_crash net reading (as_manifest kind)
        index_blobs repo m
        desc ← or_crash net reading (descriptor codecs kind)
        return tt)

  unfoldable pub ignore_error : Outcome Unit × S → Outcome Unit × S
  ignore_error (done u, s) = (done u, s)
  ignore_error (failed e, s) = (done tt, s)
  ignore_error (panics, s) = (panics, s)

  -- One of the goroutines; Submit itself returns no error.
  unfoldable pub index_image : Image → Run S Unit
  unfolding submit ignore_error
  index_image img s = ignore_error ((indexing.get_indexed img >>= submit img.repository) s)
