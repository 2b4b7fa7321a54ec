-- ===== src/Copy/Blobs/Keeps.antt =====
-- internal/image/copy/blobs.go: copyBlob sends no request but those for blobs, so it keeps all that
-- these keep.
use magic_mirror.Prelude.{
  ℕ, ◌≡◌, inl, inr, refl, Bool, true, false, List, [], ◌∷◌, ◌++◌, Option, none, some, Bytes, codes,
  if◌then◌else◌, ◌==◌, Bool-cases,
}
use magic_mirror.Image.Types.{Repository}
use magic_mirror.Registry.Outcome.{
  Outcome, done, failed, panics, Run, return, ◌>>=◌, Ends, Ends-bind,
}
use magic_mirror.Registry.Client.{
  Request, Response, Url, head, get, put, post, pull_scope, push_scope, header_get,
}
use magic_mirror.Registry.Rules.{
  ClientsKeep, get_client-bind, new_request-bind, do_expecting-bind, do_expecting_no_body-bind,
}
use magic_mirror.Copy.Blobs.{
  BlobCopyKey, BlobMutexKey, Outside, sources, register_source, ensure_sources, blob_url,
  uploads_url, check_for_existing_blob, download_blob, or_bad_answer, request_blob_upload_url,
  send_blob, copy_from, copy_missing, upload_location, send_unless_mounted, mount_namespace,
  register_if_done, copy_locked, copy_blob,
}

-- The request is no PUT, or it has a query, as an upload of a blob has.
abbrev pub IsForBlob : Request → Type 0
IsForBlob req =
    req.method ≡ put
    → (query : List (Bytes × Bytes)) × (last : Bytes × Bytes) × (req.url.query
        ≡ query ++ (last ∷ []))

module _ {S C : Type 0} (out : Outside S C) (K : S → Type 0) where
  open out use {net}

  -- K is kept by requests for blobs, while other goroutines run, and by what is not a request.
  pub record BlobsKeep : Type 0 where
    pub clients : ClientsKeep net K
    pub exchanged :
        (client : C) (req : Request) (s : S) → IsForBlob req → K s → K (net.exchange client req s).1
    pub map_set : (m : List (Bytes × out.RepoSet)) (s : S) → K s → K (out.set_source_map m s)
    pub locked : (key : BlobMutexKey) (s : S) → K s → K (out.lock key s)
    pub unlocked : (key : BlobMutexKey) (s : S) → K s → K (out.unlock key s)

module _ {S C : Type 0} {out : Outside S C} {K : S → Type 0} (keep : BlobsKeep out K) where
  open out use {net}

  or_bad_answer-keeps :
      {A B : Type 0} (Q : B → S → Type 0) (o : Option A) (f : A → Run S B) (s : S)
      → K s
      → ((a : A) → Ends K Q (f a s))
      → Ends K Q ((or_bad_answer out o >>= f) s)
  unfolding or_bad_answer
  or_bad_answer-keeps Q none f s h k = h
  or_bad_answer-keeps Q (some a) f s h k = k a

  check-keeps :
      (repo : Repository) (dgst : Bytes) (s : S)
      → K s
      → Ends K (λ found s'. K s') (check_for_existing_blob out repo dgst s)
  unfolding check_for_existing_blob
  check-keeps repo dgst s h =
      let Q : Bool → S → Type 0 = λ found s'. K s' in
      get_client-bind keep.clients Q repo pull_scope _ s h λ client s1 h1.
        new_request-bind net K Q head (blob_url out repo dgst) [] _ s1 h1 (
          let after = keep.exchanged client _ s1 (λ e. absurd cc) h1 in
          do_expecting_no_body-bind net K Q (200 ∷ 404 ∷ []) _ client _ s1 after
            λ raw e fine. after)

  location-keeps :
      (u : Url) (raw : Response) (s : S)
      → K s
      → Ends K (λ upload s'. K s') (upload_location out u raw s)
  unfolding upload_location
  location-keeps u raw s h = elim (Bool-cases (raw.status == 201)) [
    | inl created ↦ rw created h
    | inr accepted ↦
        rw accepted (or_bad_answer-keeps (λ upload s'. K s') _ (λ u'. return (some u')) s h λ u'. h)
  ]

  request-keeps :
      (repo : Repository) (dgst from : Bytes) (s : S)
      → K s
      → Ends K (λ upload s'. K s') (request_blob_upload_url out repo dgst from s)
  unfolding request_blob_upload_url
  request-keeps repo dgst from s h =
      let Q : Option Url → S → Type 0 = λ upload s'. K s' in
      get_client-bind keep.clients Q repo push_scope _ s h λ client s1 h1.
        new_request-bind net K Q post (uploads_url out repo dgst from) [] _ s1 h1 (
          let after = keep.exchanged client _ s1 (λ e. absurd cc) h1 in
          do_expecting_no_body-bind net K Q (201 ∷ 202 ∷ []) _ client _ s1 after λ raw e fine.
            location-keeps (uploads_url out repo dgst from) (record raw { body = [] }) _ after)

  download-keeps :
      (repo : Repository) (dgst : Bytes) (s : S)
      → K s
      → Ends K (λ blob s'. K s') (download_blob out repo dgst s)
  unfolding download_blob
  download-keeps repo dgst s h =
      let Q : Bytes × ℕ → S → Type 0 = λ blob s'. K s' in
      get_client-bind keep.clients Q repo pull_scope _ s h λ client s1 h1.
        new_request-bind net K Q get (blob_url out repo dgst) [] _ s1 h1 (
          let after = keep.exchanged client _ s1 (λ e. absurd cc) h1 in
          do_expecting-bind net K Q (200 ∷ []) _ client _ s1 after λ raw e fine.
            or_bad_answer-keeps Q (out.parse_int (header_get raw.headers (codes "Content-Length")))
              (λ size. return (raw.body, size)) _ after λ size. after)

  send-keeps :
      (source : Repository) (key : BlobCopyKey) (upload : Url) (s : S)
      → K s
      → Ends K (λ u s'. K s') (send_blob out source key upload s)
  unfolding send_blob
  send-keeps source key upload s h =
      let Q : Unit {0} → S → Type 0 = λ u s'. K s' in
      Ends-bind K (λ blob s'. K s') Q (download_blob out source key.digest) _ s
        (download-keeps source key.digest s h)
        λ blob s1 h1. or_bad_answer-keeps Q (out.parse_query upload) _ s1 h1 λ query.
          new_request-bind net K Q put _ blob.0 _ s1 h1 (
            get_client-bind keep.clients Q key.dst push_scope _ s1 h1 λ client s2 h2.
              let after =
                keep.exchanged client _ s2 (λ e. (query, (codes "digest", key.digest), refl)) h2 in
              do_expecting_no_body-bind net K Q (201 ∷ []) _ client _ s2 after λ raw e fine. after)

  unless-keeps :
      (source : Repository) (key : BlobCopyKey) (upload : Option Url) (s : S)
      → K s
      → Ends K (λ u s'. K s') (send_unless_mounted out source key upload s)
  unfolding send_unless_mounted
  unless-keeps source key none s h = h
  unless-keeps source key (some u) s h = send-keeps source key u s h

  from-keeps :
      (key : BlobCopyKey) (slice : List Repository) (s : S)
      → K s
      → Ends K (λ u s'. K s') (copy_from out key slice s)
  unfolding copy_from
  from-keeps key [] s h = h
  from-keeps key (source ∷ rest) s h =
      Ends-bind K (λ upload s'. K s') (λ u s'. K s')
        (request_blob_upload_url out key.dst key.digest
          (mount_namespace out (source ∷ rest) key.dst.registry))
        _ s (request-keeps key.dst key.digest _ s h)
        λ upload s1 h1. unless-keeps source key upload s1 h1

  choose-keeps :
      (key : BlobCopyKey) (found : Bool) (s : S)
      → K s
      → Ends K
          (λ u s'. K s')
          ((if found then return tt else λ s'.
              copy_from out key (out.to_slice (sources out key.digest s') s') s')
            s)
  choose-keeps key true s h = h
  choose-keeps key false s h = from-keeps key (out.to_slice (sources out key.digest s) s) s h

  missing-keeps : (key : BlobCopyKey) (s : S) → K s → Ends K (λ u s'. K s') (copy_missing out key s)
  unfolding copy_missing
  missing-keeps key s h =
      Ends-bind K (λ found s'. K s') (λ u s'. K s') (check_for_existing_blob out key.dst key.digest)
        _ s (check-keeps key.dst key.digest s h) λ found s1 h1. choose-keeps key found s1 h1

  register_if_done-keeps :
      (key : BlobCopyKey) (r : Outcome Unit) (s : S)
      → Ends K (λ u s'. K s') (r, s)
      → Ends K (λ u s'. K s') (register_if_done out key (r, s))
  unfolding register_if_done register_source
  register_if_done-keeps key (done u) s h = keep.map_set _ s h
  register_if_done-keeps key (failed e) s h = h
  register_if_done-keeps key panics s h = h

  locked-keeps : (key : BlobCopyKey) (s : S) → K s → Ends K (λ u s'. K s') (copy_locked out key s)
  unfolding copy_locked ensure_sources
  locked-keeps key s h =
      let s' = ensure_sources out key.digest s in
      let h' : K s' = keep.map_set _ s h in
      elim (Bool-cases (out.contains (sources out key.digest s') key.dst)) [
        | inl known ↦ rw known h'
        | inr unknown ↦
            let (r, s1) = copy_missing out key s' in
            rw unknown (register_if_done-keeps key r s1 (missing-keeps key s' h'))
      ]

  unlocked-keeps :
      (mutex_key : BlobMutexKey) (r : Outcome Unit) (s : S)
      → Ends K (λ u s'. K s') (r, s)
      → Ends K (λ u s'. K s') (r, out.unlock mutex_key s)
  unlocked-keeps mutex_key (done u) s h = keep.unlocked mutex_key s h
  unlocked-keeps mutex_key (failed e) s h = keep.unlocked mutex_key s h
  unlocked-keeps mutex_key panics s h = keep.unlocked mutex_key s h

  pub copy_blob-keeps :
      (key : BlobCopyKey) (s : S) → K s → Ends K (λ u s'. K s') (copy_blob out key s)
  unfolding copy_blob
  copy_blob-keeps key s h =
      let mutex_key : BlobMutexKey = record { digest = key.digest; registry = key.dst.registry } in
      let (r, s') = copy_locked out key (out.lock mutex_key s) in
      unlocked-keeps mutex_key r s'
        (locked-keeps key (out.lock mutex_key s) (keep.locked mutex_key s h))
