-- ===== src/Copy/PlatformCopier/Collected.antt =====
-- internal/image/copy/blobs.go: CopyAll leaves all blobs at the destination where it returns.
use magic_mirror.Prelude.{◌≡◌, refl, List, [], ◌∷◌, Option, none, some, Bytes}
use magic_mirror.Image.Types.{Repository}
use magic_mirror.Registry.Outcome.{
  Outcome, done, failed, panics, Ends, Ends-bind, Ends-imp, Ends-both,
}
use magic_mirror.Registry.Client.{Url}
use magic_mirror.Copy.Blobs.{BlobCopyKey, Outside, register_source, copy_blob}
use magic_mirror.Copy.Blobs.Sound.{IsSound, Extends, Promises}
use magic_mirror.Copy.Blobs.Registered.{register_source-Extends, copy_blob-Extends}
use magic_mirror.Copy.Blobs.Keeps.{copy_blob-keeps}
use magic_mirror.Copy.Manifests.{Reading}
use magic_mirror.Copy.PlatformCopier.{
  Caches, copy_keys, register_all, note_result, blob_or_copy, get_blob, collect_blobs, copy_blobs,
}
use magic_mirror.Copy.PlatformCopier.Complete.{HoldsAll, HoldsKeys, IsConsistent, IsGood, Keeping}
use magic_mirror.Copy.PlatformCopier.Holding.{HoldsAll-imp, HoldsKeys-copy_keys}

module _ {S C P : Type 0} {out : Outside S C} {reading : Reading P} {caches : Caches S P}
    {Holds : S → Repository → Bytes → Type 0} {HasManifest : S → Repository → Bytes → Type 0}
    {IsUpload : Url → Repository → Type 0} (promises : Promises out Holds IsUpload)
    (keeping : Keeping out reading caches Holds HasManifest) where
  open out use {net}
  open reading use {types, codecs}

  abbrev Good : S → Type 0
  Good s = IsGood out reading caches Holds HasManifest s

  abbrev Consistent : S → Type 0
  Consistent s = IsConsistent out reading caches Holds HasManifest s

  Extends-refl : (s : S) → Extends out Holds s s
  Extends-refl s = record { kept = λ repo dgst held. held; sound = λ sound. sound }

  Extends-trans :
      {s s1 s2 : S} → Extends out Holds s s1 → Extends out Holds s1 s2 → Extends out Holds s s2
  Extends-trans f g = record {
    kept = λ repo dgst held. g.kept repo dgst (f.kept repo dgst held);
    sound = λ sound. g.sound (f.sound sound);
  }

  register_source-Good :
      (src : Repository) (dgst : Bytes) (s : S)
      → Holds s src dgst
      → Good s
      → Good (register_source out dgst src s)
  unfolding register_source
  register_source-Good src dgst s held (sound, consistent) = (
    (register_source-Extends promises dgst src s held).sound sound,
    keeping.blobs_consistent.map_set _ s consistent,
  )

  register_all-Good :
      (src : Repository) (dgsts : List Bytes) (s : S)
      → HoldsAll Holds s src dgsts
      → Good s
      → Good (register_all out src dgsts s)
  unfolding register_all HoldsAll
  register_all-Good src [] s held h = h
  register_all-Good src (dgst ∷ dgsts) s (held, others) h =
      register_all-Good src dgsts (register_source out dgst src s)
        (HoldsAll-imp Holds
          (λ d h'. (register_source-Extends promises dgst src s held).kept src d h') dgsts others)
        (register_source-Good src dgst s held h)

  -- Good, nothing lost since s, and the destination holds the blob.
  abbrev Got : BlobCopyKey → S → S → Type 0
  Got key s s' = Good s' × (Extends out Holds s s' × Holds s' key.dst key.digest)

  note_result-Got :
      (key : BlobCopyKey) (s : S) (r : Outcome Unit) (s' : S)
      → IsSound out Holds s
      → Ends
          (λ w. Extends out Holds s w × Consistent w)
          (λ u w. (Extends out Holds s w × Holds w key.dst key.digest) × Consistent w)
          (r, s')
      → Ends Good (λ u w. Got key s w) (note_result out reading caches key (r, s'))
  unfolding note_result
  note_result-Got key s (done u) s' sound ((ext, held), consistent) =
      let more = Extends-trans ext (keeping.result_Extends key (done u) s') in
      (
        (more.sound sound, keeping.result_consistent key (done u) s' (λ e. held) consistent),
        (more, (keeping.result_Extends key (done u) s').kept key.dst key.digest held),
      )
  note_result-Got key s (failed e) s' sound (ext, consistent) =
      let more = Extends-trans ext (keeping.result_Extends key (failed e) s') in
      (more.sound sound, keeping.result_consistent key (failed e) s' (λ same. absurd cc) consistent)
  note_result-Got key s panics s' sound (ext, consistent) =
      let more = Extends-trans ext (keeping.result_Extends key panics s') in
      (more.sound sound, keeping.result_consistent key panics s' (λ same. absurd cc) consistent)

  blob_or_copy-Got :
      (key : BlobCopyKey) (cached : Option (Outcome Unit)) (s : S)
      → caches.blob_result key s ≡ cached
      → Good s
      → Ends Good (λ u s'. Got key s s') (blob_or_copy out reading caches key cached s)
  unfolding blob_or_copy
  blob_or_copy-Got key none s e (sound, consistent) =
      let (r, s') = copy_blob out key s in
      note_result-Got key s r s' sound (
        Ends-both (λ w. Extends out Holds s w) Consistent
          (λ u w. Extends out Holds s w × Holds w key.dst key.digest) (λ u w. Consistent w)
          (copy_blob out key s) (copy_blob-Extends promises key s sound)
          (copy_blob-keeps keeping.blobs_consistent key s consistent))
  blob_or_copy-Got key (some (done u)) s e h = (h, (Extends-refl s, h.1.1 key e))
  blob_or_copy-Got key (some (failed f)) s e h = h
  blob_or_copy-Got key (some panics) s e h = h

  collect_blobs-Good :
      (keys : List BlobCopyKey) (s : S)
      → Good s
      → Ends Good
          (λ u s'. Good s' × (Extends out Holds s s' × HoldsKeys Holds s' keys))
          (collect_blobs out reading caches keys s)
  unfolding collect_blobs get_blob HoldsKeys
  collect_blobs-Good [] s h = (h, (Extends-refl s, tt))
  collect_blobs-Good (key ∷ keys) s h =
      Ends-bind Good (λ u s'. Got key s s')
        (λ u s'. Good s' × (Extends out Holds s s' × HoldsKeys Holds s' (key ∷ keys)))
        (get_blob out reading caches key) _ s
        (blob_or_copy-Got key (caches.blob_result key s) s refl h)
        λ u s1 (h1, (more, held)).
          Ends-imp Good (λ u s'. Good s' × (Extends out Holds s1 s' × HoldsKeys Holds s' keys)) _
            (λ u s' (h', (later, others)).
              (h', (Extends-trans more later, (later.kept key.dst key.digest held, others))))
            _ (collect_blobs-Good keys s1 h1)

  pub copy_blobs-Good :
      (src dst : Repository) (dgsts : List Bytes) (s : S)
      → HoldsAll Holds s src dgsts
      → Good s
      → Ends Good
          (λ u s'. Good s' × HoldsAll Holds s' dst dgsts)
          (copy_blobs out reading caches src dst dgsts s)
  unfolding copy_blobs
  copy_blobs-Good src dst dgsts s held h =
      let s1 = register_all out src dgsts s in
      Ends-imp Good
        (λ u s'. Good s' × (Extends out Holds s1 s' × HoldsKeys Holds s' (copy_keys dst dgsts))) _
        (λ u s' (h', (later, keys)). (h', HoldsKeys-copy_keys Holds s' dst dgsts keys)) _
        (collect_blobs-Good (copy_keys dst dgsts) s1 (register_all-Good src dgsts s held h))
