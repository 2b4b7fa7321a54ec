-- ===== src/Copy/Copier.antt =====
-- internal/image/copy/copier.go: copying one image, and one index.
use magic_mirror.Prelude.{
  Bool, false, ◌&&◌, List, [], ◌∷◌, Option, none, some, bytes_eq, if◌then◌else◌, map,
}
use magic_mirror.StringKeyed.Operations.{empty_set}
use magic_mirror.Image.Types.{Image, Repository}
use magic_mirror.Image.Manifest.{
  Descriptor, ParsedIndex, ManifestKind, is_index, is_manifest, get_media_type, as_index, encoded,
  validate_index,
}
use magic_mirror.Registry.Outcome.{
  Outcome, done, failed, panics, Run, invalid_digest, no_platforms, unknown_type, return, fail,
  ◌>>=◌, ◌>>◌,
}
use magic_mirror.Copy.Spec.{Spec, transform_eq}
use magic_mirror.Copy.Blobs.{Outside}
use magic_mirror.Copy.Manifests.{Reading, or_crash, upload_manifest}
use magic_mirror.Copy.PlatformCopier.{PlatformCopyKey, platform_keys}
use magic_mirror.Copy.Indexer.{Indexing, submit}
use magic_mirror.Copy.IndexEdit.{PlatformCode, Selection, select, upload_index}

-- The caches that copySpec shares with other goroutines, by the methods it calls: Get of the two
-- manifest caches, and Get and Collect of the platform copier. `dst_first`: the goroutine that asks
-- for the destination's manifest runs before the request for the source's; else it runs after.
pub record Copying (S P : Type 0) : Type 0 where
  pub get_src : Image → Run S (ManifestKind P)
  pub get_dst : Image → Run S (ManifestKind P)
  pub copy_one : PlatformCopyKey → Run S (ManifestKind P)
  pub copy_many : List PlatformCopyKey → Run S (List (ManifestKind P))
  pub dst_first : S → Bool

unfoldable pub source_images : {P : Type 0} → Repository → List (Descriptor P) → List Image
source_images repo ds = map (λ d. record { repository = repo; tag = []; digest = d.digest }) ds

unfoldable pub attempt : {S A : Type 0} → Outcome A × S → Outcome (Option A) × S
attempt (done a, s) = (done (some a), s)
attempt (failed e, s) = (done none, s)
attempt (panics, s) = (panics, s)

module _ {S C P : Type 0} (out : Outside S C) (reading : Reading P) (indexing : Indexing S P)
    (code : PlatformCode P) (copying : Copying S P) where
  open out use {net}
  open reading use {types, codecs}

  -- The rest of copyIndex for the images that are selected.
  unfoldable pub copy_images :
      Spec → ManifestKind P → ParsedIndex P → Selection P → List Image → Run S Unit
  copy_images spec kind index selection [] = fail no_platforms
  copy_images spec kind index selection (img ∷ []) = do
    copied ← copying.copy_one (record { src = img; dst = spec.dst })
    return tt
  copy_images spec kind index selection (img ∷ other ∷ imgs) = do
    manifests ← copying.copy_many (platform_keys spec.dst.repository (img ∷ other ∷ imgs))
    upload ←
        or_crash net reading
          (upload_index code codecs kind index selection.selected selection.limited manifests)
    upload_manifest net reading spec.dst upload

  unfoldable pub copy_index : Spec → ManifestKind P → ParsedIndex P → Run S Unit
  unfolding copy_images source_images
  copy_index spec kind index =
      if validate_index codecs index
      then (do
        selection ← or_crash net reading (select code spec.transform.limit_platforms index)
        copy_images spec kind index selection
            (source_images spec.src.repository selection.selected))
      else fail invalid_digest

  -- The destination's manifest, if there is one; an error is no error here.
  unfoldable pub get_dst_manifest : Image → Run S (Option (ManifestKind P))
  unfolding attempt
  get_dst_manifest dst s = attempt (copying.get_dst dst s)

  unfoldable pub get_both : Spec → Run S (ManifestKind P × Option (ManifestKind P))
  unfolding get_dst_manifest
  get_both spec s =
      (if copying.dst_first s
          then (do
            found ← get_dst_manifest spec.dst
            kind ← copying.get_src spec.src
            return (kind, found))
          else (do
            kind ← copying.get_src spec.src
            found ← get_dst_manifest spec.dst
            return (kind, found)))
        s

  -- Whether the destination is up to date; its blobs are indexed in any case.
  unfoldable pub is_unchanged : Spec → ManifestKind P → Option (ManifestKind P) → Run S Bool
  is_unchanged spec kind none = return false
  is_unchanged spec kind (some found) = do
    submit out reading indexing spec.dst.repository found
    body ← or_crash net reading (encoded codecs kind)
    other ← or_crash net reading (encoded codecs found)
    return (
        bytes_eq body other && transform_eq spec.transform (record { limit_platforms = empty_set }))

  unfoldable pub copy_changed : Spec → ManifestKind P → Run S Unit
  unfolding copy_index
  copy_changed spec kind =
      if is_index types (get_media_type kind)
      then (do index ← or_crash net reading (as_index kind); copy_index spec kind index)
      else if is_manifest types (get_media_type kind)
      then (do copied ← copying.copy_one (record { src = spec.src; dst = spec.dst }); return tt)
      else fail (unknown_type (get_media_type kind))

  unfoldable pub copy_spec : Spec → Run S Unit
  unfolding get_both is_unchanged copy_changed
  copy_spec spec = do
    (kind, found) ← get_both spec
    unchanged ← is_unchanged spec kind found
    if unchanged then return tt else copy_changed spec kind
