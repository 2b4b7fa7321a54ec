-- ===== src/Copy/Blobs/Registered.antt =====
-- internal/image/copy/blobs.go: the registered sources, and copyBlob as a whole.
use magic_mirror.Prelude.{
  ◌≡◌, inl, inr, refl, sym, ap, ◌∙◌, subst, Bool, true, false, List, [], ◌∷◌, some, Bytes, bytes_eq,
  if◌then◌else◌, Bool-cases, arith, bytes_eq_sound, bytes_eq_refl,
}
use magic_mirror.Image.Types.{Repository}
use magic_mirror.Registry.Outcome.{Outcome, done, failed, panics, Ends}
use magic_mirror.Registry.Client.{Url}
use magic_mirror.Copy.Blobs.{
  BlobCopyKey, BlobMutexKey, Outside, find_set, store_set, set_or_new, sources, register_source,
  ensure_sources, copy_missing, copy_locked, copy_blob, register_if_done,
}
use magic_mirror.Copy.Blobs.Sound.{IsSound, Extends, Promises}
use magic_mirror.Copy.Blobs.Steps.{Later, Later-trans}
use magic_mirror.Copy.Blobs.Copied.{Copied, missing-Ends}

if_true : {A : Type 0} {b : Bool} → b ≡ true → (x y : A) → (if b then x else y) ≡ x
if_true e x y = rw e refl

if_false : {A : Type 0} {b : Bool} → b ≡ false → (x y : A) → (if b then x else y) ≡ y
if_false e x y = rw e refl

module _ {S C : Type 0} (out : Outside S C) where
  find_set-store_set :
      (m : List (Bytes × out.RepoSet)) (d e : Bytes) (set : out.RepoSet)
      → find_set out (store_set out m d set) e
        ≡ (if bytes_eq d e then some set else find_set out m e)
  unfolding find_set store_set
  find_set-store_set [] d e set = refl
  find_set-store_set ((c, old) ∷ m) d e set = ground (
    arith,
    bytes_eq_sound c d,
    bytes_eq_sound c e,
    bytes_eq_sound d e,
    bytes_eq_refl e,
    find_set-store_set m d e set,
  )

module _ {S C : Type 0} {out : Outside S C} {Holds : S → Repository → Bytes → Type 0}
    {IsUpload : Url → Repository → Type 0} (promises : Promises out Holds IsUpload) where
  sources-store :
      (dgst d : Bytes) (set : out.RepoSet) (s : S)
      → sources out d (out.set_source_map (store_set out (out.source_map s) dgst set) s)
        ≡ (if bytes_eq dgst d then set else sources out d s)
  unfolding sources set_or_new
  sources-store dgst d set s = elim (Bool-cases (bytes_eq dgst d)) [
    | inl same ↦
        rw (promises.source_map_set, find_set-store_set out (out.source_map s) dgst d set, same)
          refl
    | inr other ↦
        rw (promises.source_map_set, find_set-store_set out (out.source_map s) dgst d set, other)
          refl
  ]

  -- A set replaces the one of a digest, where its members hold the blob.
  store-Extends :
      (dgst : Bytes) (set : out.RepoSet) (s : S)
      → (IsSound out Holds s
          → (repo : Repository) → out.contains set repo ≡ true
          → Holds s repo dgst)
      → Extends out Holds s (out.set_source_map (store_set out (out.source_map s) dgst set) s)
  store-Extends dgst set s members = record {
    kept = λ repo d held.
        promises.set_source_map_kept (store_set out (out.source_map s) dgst set) s repo d held;
    sound = λ sound d repo listed.
        promises.set_source_map_kept (store_set out (out.source_map s) dgst set) s repo d
          (elim (Bool-cases (bytes_eq dgst d)) [
            | inl same ↦
                subst (λ w. Holds s repo w) (bytes_eq_sound dgst d same)
                  (members sound repo (
                    sym (
                      ap (λ w. out.contains w repo)
                        (sources-store dgst d set s ∙ if_true same set (sources out d s)))
                    ∙ listed))
            | inr other ↦ sound d repo (
                sym (
                  ap (λ w. out.contains w repo)
                    (sources-store dgst d set s ∙ if_false other set (sources out d s)))
                ∙ listed)
          ]);
  }

  ensure_sources-Extends : (dgst : Bytes) (s : S) → Extends out Holds s (ensure_sources out dgst s)
  unfolding ensure_sources
  ensure_sources-Extends dgst s =
      store-Extends dgst (sources out dgst s) s (λ sound repo listed. sound dgst repo listed)

  pub register_source-Extends :
      (dgst : Bytes) (repo : Repository) (s : S)
      → Holds s repo dgst
      → Extends out Holds s (register_source out dgst repo s)
  unfolding register_source
  register_source-Extends dgst repo s held =
      store-Extends dgst (out.add (sources out dgst s) repo) s λ sound other listed.
        elim (promises.contains-add (sources out dgst s) repo other listed) [
          | inl old ↦ sound dgst other old
          | inr same ↦ subst (λ w. Holds s w dgst) same held
        ]

  register_if_done-Ends :
      (s0 : S) (key : BlobCopyKey) (r : Outcome Unit) (s : S)
      → Ends (Later promises s0) (Copied promises s0 key) (r, s)
      → Ends (Later promises s0) (Copied promises s0 key) (register_if_done out key (r, s))
  unfolding register_if_done
  register_if_done-Ends s0 key (done u) s (h, held) =
      let more = register_source-Extends key.digest key.dst s held in
      (Later-trans promises s0 h more, more.kept key.dst key.digest held)
  register_if_done-Ends s0 key (failed e) s h = h
  register_if_done-Ends s0 key panics s h = h

  locked-Ends :
      (s0 : S) (key : BlobCopyKey) (s : S)
      → IsSound out Holds s0
      → Later promises s0 s
      → Ends (Later promises s0) (Copied promises s0 key) (copy_locked out key s)
  unfolding copy_locked
  locked-Ends s0 key s sound h =
      let s' = ensure_sources out key.digest s in
      let h' = Later-trans promises s0 h (ensure_sources-Extends key.digest s) in
      elim (Bool-cases (out.contains (sources out key.digest s') key.dst)) [
        | inl known ↦ rw known (h', h'.sound sound key.digest key.dst known)
        | inr unknown ↦
            let (r, s1) = copy_missing out key s' in
            rw unknown (register_if_done-Ends s0 key r s1 (missing-Ends promises s0 key s' h'))
      ]

  after_unlock :
      (s : S) (key : BlobCopyKey) (mutex_key : BlobMutexKey) (r : Outcome Unit) (s' : S)
      → Ends (Later promises s) (Copied promises s key) (r, s')
      → Ends (Later promises s) (Copied promises s key) (r, out.unlock mutex_key s')
  after_unlock s key mutex_key (done u) s' (h, held) =
      let more = promises.unlock-Extends mutex_key s' in
      (Later-trans promises s h more, more.kept key.dst key.digest held)
  after_unlock s key mutex_key (failed e) s' h =
      Later-trans promises s h (promises.unlock-Extends mutex_key s')
  after_unlock s key mutex_key panics s' h =
      Later-trans promises s h (promises.unlock-Extends mutex_key s')

  -- However copyBlob ends, no blob is lost and the sources stay sound; the destination holds the blob
  -- where it returns.
  pub copy_blob-Extends :
      (key : BlobCopyKey) (s : S)
      → IsSound out Holds s
      → Ends
          (Extends out Holds s)
          (λ u s'. Extends out Holds s s' × Holds s' key.dst key.digest)
          (copy_blob out key s)
  unfolding copy_blob
  copy_blob-Extends key s sound =
      let mutex_key : BlobMutexKey = record { digest = key.digest; registry = key.dst.registry } in
      let (r, s') = copy_locked out key (out.lock mutex_key s) in
      after_unlock s key mutex_key r s'
        (locked-Ends s key (out.lock mutex_key s) sound (promises.lock-Extends mutex_key s))
