-- ===== src/Copy/Blobs/Copied.antt =====
-- internal/image/copy/blobs.go: where copyBlob ends.
use magic_mirror.Prelude.{
  ℕ, ◌≡◌, inl, inr, refl, ◌∙◌, Bool, true, false, List, [], ◌∷◌, Option, none, some, Bytes, codes,
  if◌then◌else◌, ◌==◌, Bool-cases, arith, ==_iff,
}
use magic_mirror.Image.Types.{Repository}
use magic_mirror.Registry.Outcome.{return, Ends, Ends-bind}
use magic_mirror.Registry.Client.{
  answered, Url, Request, Response, head, get, put, post, pull_scope, push_scope, header_get,
  expects,
}
use magic_mirror.Copy.Blobs.{
  BlobCopyKey, Outside, sources, blob_url, uploads_url, check_for_existing_blob, download_blob,
  request_blob_upload_url, send_blob, copy_from, copy_missing, upload_location, send_unless_mounted,
  mount_namespace,
}
use magic_mirror.Copy.Blobs.Sound.{Promises, plain_request}
use magic_mirror.Copy.Blobs.Steps.{
  Later, get_client-bind, new_request-bind, or_bad_answer-bind, do_expecting_no_body-bind,
  do_expecting-bind,
}

expects_two : (a b n : ℕ) → expects (a ∷ b ∷ []) n ≡ true → (n == a) ≡ false → n ≡ b
unfolding expects
expects_two a b n h k = ground arith

expects_one : (a n : ℕ) → expects (a ∷ []) n ≡ true → n ≡ a
unfolding expects
expects_one a n h = ground arith

some-inj : {A : Type 0} {a b : A} → some a ≡ some b → a ≡ b
some-inj e = cc

module _ {S C : Type 0} {out : Outside S C} {Holds : S → Repository → Bytes → Type 0}
    {IsUpload : Url → Repository → Type 0} (promises : Promises out Holds IsUpload) (s0 : S) where
  open out use {net}

  -- What the check for a blob found out.
  check-Ends :
      (repo : Repository) (dgst : Bytes) (s : S)
      → Later promises s0 s
      → Ends
          (Later promises s0)
          (λ found s'. Later promises s0 s' × (found ≡ true → Holds s' repo dgst))
          (check_for_existing_blob out repo dgst s)
  unfolding check_for_existing_blob
  check-Ends repo dgst s h =
      let Q : Bool → S → Type 0 =
        λ found s'. Later promises s0 s' × (found ≡ true → Holds s' repo dgst) in
      get_client-bind promises s0 Q repo pull_scope _ s h λ client s1 h1.
        new_request-bind promises s0 Q head (blob_url out repo dgst) [] _ s1 h1 (
          do_expecting_no_body-bind promises s0 Q client
            (plain_request out Holds head (blob_url out repo dgst)) (200 ∷ 404 ∷ []) _ s1 h1
            λ raw e fine after. (
              after,
              λ ok. promises.head_found client repo dgst s1 raw e ((==_iff raw.status 200).0 ok),
            ))

  location-Ends :
      (repo : Repository) (dgst from : Bytes) (client : C) (raw : Response) (s : S)
      → let req : Request = plain_request out Holds post (uploads_url out repo dgst from) in
        (net.exchange client req s).0 ≡ answered raw
        → expects (201 ∷ 202 ∷ []) raw.status ≡ true
        → Later promises s0 (net.exchange client req s).1
        → Ends
            (Later promises s0)
            (λ upload s'.
              Later promises s0 s'
              × (upload ≡ none → Holds s' repo dgst)
              × ((u : Url) → upload ≡ some u → IsUpload u repo))
            (upload_location out
              (uploads_url out repo dgst from)
              (record raw { body = [] })
              (net.exchange client req s).1)
  unfolding upload_location
  location-Ends repo dgst from client raw s e fine after = elim (Bool-cases (raw.status == 201)) [
    | inl created ↦ rw created (
      after,
      λ mounted.
          promises.post_created client repo dgst from s raw e ((==_iff raw.status 201).0 created),
      λ u up. absurd (cc),
    )
    | inr accepted ↦ rw accepted (
        or_bad_answer-bind promises s0
          (λ upload s'.
            Later promises s0 s'
            × (upload ≡ none → Holds s' repo dgst)
            × ((u : Url) → upload ≡ some u → IsUpload u repo))
          (out.parse_reference (uploads_url out repo dgst from)
            (header_get raw.headers (codes "Location")))
          (λ u. return (some u)) _ after
          λ u parsed. (
            after,
            λ mounted. absurd (cc),
            λ v up.
                promises.post_accepted client repo dgst from s raw v e
                  (expects_two 201 202 raw.status fine accepted) (parsed ∙ up),
          ))
  ]

  request-Ends :
      (repo : Repository) (dgst from : Bytes) (s : S)
      → Later promises s0 s
      → Ends
          (Later promises s0)
          (λ upload s'.
            Later promises s0 s'
            × (upload ≡ none → Holds s' repo dgst)
            × ((u : Url) → upload ≡ some u → IsUpload u repo))
          (request_blob_upload_url out repo dgst from s)
  unfolding request_blob_upload_url
  request-Ends repo dgst from s h =
      let Q : Option Url → S → Type 0 = λ upload s'.
        Later promises s0 s'
        × (upload ≡ none → Holds s' repo dgst)
        × ((u : Url) → upload ≡ some u → IsUpload u repo) in
      get_client-bind promises s0 Q repo push_scope _ s h λ client s1 h1.
        new_request-bind promises s0 Q post (uploads_url out repo dgst from) [] _ s1 h1 (
          do_expecting_no_body-bind promises s0 Q client
            (plain_request out Holds post (uploads_url out repo dgst from)) (201 ∷ 202 ∷ []) _ s1 h1
            λ raw e fine after. location-Ends repo dgst from client raw s1 e fine after)

  download-Ends :
      (repo : Repository) (dgst : Bytes) (s : S)
      → Later promises s0 s
      → Ends (Later promises s0) (λ blob s'. Later promises s0 s') (download_blob out repo dgst s)
  unfolding download_blob
  download-Ends repo dgst s h =
      let Q : Bytes × ℕ → S → Type 0 = λ blob s'. Later promises s0 s' in
      get_client-bind promises s0 Q repo pull_scope _ s h λ client s1 h1.
        new_request-bind promises s0 Q get (blob_url out repo dgst) [] _ s1 h1 (
          do_expecting-bind promises s0 Q client
            (plain_request out Holds get (blob_url out repo dgst)) (200 ∷ []) _ s1 h1
            λ raw e fine after.
              or_bad_answer-bind promises s0 Q
                (out.parse_int (header_get raw.headers (codes "Content-Length"))) _ _ after
                λ size e'. after)

  abbrev pub Copied : BlobCopyKey → Unit {0} → S → Type 0
  Copied key u s = Later promises s0 s × Holds s key.dst key.digest

  send-Ends :
      (source : Repository) (key : BlobCopyKey) (upload : Url) (s : S)
      → Later promises s0 s
      → IsUpload upload key.dst
      → Ends (Later promises s0) (Copied key) (send_blob out source key upload s)
  unfolding send_blob
  send-Ends source key upload s h given =
      Ends-bind (Later promises s0) (λ blob s'. Later promises s0 s') (Copied key)
        (download_blob out source key.digest) _ s (download-Ends source key.digest s h)
        λ blob s1 h1.
          or_bad_answer-bind promises s0 (Copied key) (out.parse_query upload) _ s1 h1 λ query e.
            new_request-bind promises s0 (Copied key) put _ blob.0 _ s1 h1 (
              get_client-bind promises s0 (Copied key) key.dst push_scope _ s1 h1 λ client s2 h2.
                do_expecting_no_body-bind promises s0 (Copied key) client _ (201 ∷ []) _ s2 h2
                  λ raw e' fine after. (
                    after,
                    promises.put_created client key.dst key.digest upload query _ blob.0 s2 raw
                        given e' (expects_one 201 raw.status fine),
                  ))

  unless-Ends :
      (source : Repository) (key : BlobCopyKey) (upload : Option Url) (s : S)
      → Later promises s0 s
      → (upload ≡ none → Holds s key.dst key.digest)
      → ((u : Url) → upload ≡ some u → IsUpload u key.dst)
      → Ends (Later promises s0) (Copied key) (send_unless_mounted out source key upload s)
  unfolding send_unless_mounted
  unless-Ends source key none s h mounted given = (h, mounted refl)
  unless-Ends source key (some u) s h mounted given = send-Ends source key u s h (given u refl)

  from-Ends :
      (key : BlobCopyKey) (slice : List Repository) (s : S)
      → Later promises s0 s
      → Ends (Later promises s0) (Copied key) (copy_from out key slice s)
  unfolding copy_from
  from-Ends key [] s h = h
  from-Ends key (source ∷ rest) s h =
      let from = mount_namespace out (source ∷ rest) key.dst.registry in
      Ends-bind (Later promises s0) _ (Copied key)
        (request_blob_upload_url out key.dst key.digest from) _ s
        (request-Ends key.dst key.digest from s h)
        λ upload s1 q. unless-Ends source key upload s1 (q.0) (q.1) (q.2)

  choose-Ends :
      (key : BlobCopyKey) (found : Bool) (s : S)
      → Later promises s0 s
      → (found ≡ true → Holds s key.dst key.digest)
      → Ends (Later promises s0) (Copied key) (
          (if found then return tt else λ s'.
          copy_from out key (out.to_slice (sources out key.digest s') s') s')
            s)
  choose-Ends key true s h held = (h, held refl)
  choose-Ends key false s h held = from-Ends key (out.to_slice (sources out key.digest s) s) s h

  pub missing-Ends :
      (key : BlobCopyKey) (s : S)
      → Later promises s0 s
      → Ends (Later promises s0) (Copied key) (copy_missing out key s)
  unfolding copy_missing
  missing-Ends key s h =
      Ends-bind (Later promises s0) _ (Copied key) (check_for_existing_blob out key.dst key.digest)
        _ s (check-Ends key.dst key.digest s h) λ found s1 q. choose-Ends key found s1 (q.0) (q.1)
