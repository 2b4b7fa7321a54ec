-- ===== src/Copy/Blobs.antt =====
-- internal/image/copy/blobs.go: copying one blob between repositories.
pub mod Sound
pub mod Steps
pub mod Copied
pub mod Registered
pub mod Keeps
mod Examples
use magic_mirror.Prelude.{
  ℕ, Bool, true, false, List, [], ◌∷◌, ◌++◌, Option, none, some, Bytes, bytes_eq, codes,
  if◌then◌else◌, ◌==◌, not, Bool-cases,
}
use magic_mirror.Image.Types.{Repository}
use magic_mirror.Registry.Outcome.{
  Outcome, done, failed, panics, Run, Fault, bad_answer, return, fail, crash, ◌>>=◌, ◌>>◌,
}
use magic_mirror.Registry.Client.{
  Net, Url, Request, Response, head, get, put, post, pull_scope, push_scope, header_get,
  api_base_url, new_request, do_expecting, do_expecting_no_body, get_client,
}

pub record BlobCopyKey : Type 0 where
  pub digest : Bytes
  pub dst : Repository

pub record BlobMutexKey : Type 0 where
  pub digest : Bytes
  pub registry : Bytes

-- What stands outside: the network, the set package, the standard library's parsers, and the mutex
-- copyMu. `to_slice` may order a set in any way. `lock` ends with the key locked, after other
-- goroutines ran. The store holds sourceMap.
pub record Outside (S C : Type 0) : Type 1 where
  pub net : Net S C
  pub RepoSet : Type 0
  pub new_set : RepoSet
  pub add : RepoSet → Repository → RepoSet
  pub contains : RepoSet → Repository → Bool
  pub to_slice : RepoSet → S → List Repository
  pub source_map : S → List (Bytes × RepoSet)
  pub set_source_map : List (Bytes × RepoSet) → S → S
  pub lock : BlobMutexKey → S → S
  pub unlock : BlobMutexKey → S → S
  -- `u.Parse(location)`, `url.ParseQuery` and `strconv.ParseInt`
  pub parse_reference : Url → Bytes → Option Url
  pub parse_query : Url → Option (List (Bytes × Bytes))
  pub parse_int : Bytes → Option ℕ
  pub format_int : ℕ → Bytes

module _ {S C : Type 0} (out : Outside S C) where
  open out use {net, RepoSet}

  unfoldable pub find_set : List (Bytes × RepoSet) → Bytes → Option RepoSet
  find_set [] dgst = none
  find_set ((d, set) ∷ rest) dgst =
      let later = find_set rest dgst in if bytes_eq d dgst then some set else later

  -- `c.sourceMap[dgst] = set`
  unfoldable pub store_set : List (Bytes × RepoSet) → Bytes → RepoSet → List (Bytes × RepoSet)
  store_set [] dgst new = (dgst, new) ∷ []
  store_set ((d, set) ∷ rest) dgst new =
      let later = store_set rest dgst new in
      if bytes_eq d dgst then (d, new) ∷ rest else (d, set) ∷ later

  unfoldable pub set_or_new : Option RepoSet → RepoSet
  set_or_new none = out.new_set
  set_or_new (some set) = set

  -- `sources`: the set for a digest, made if there is none. Sets are shared, so later reads and
  -- writes of it go to the store.
  unfoldable pub sources : Bytes → S → RepoSet
  unfolding find_set set_or_new
  sources dgst s = set_or_new (find_set (out.source_map s) dgst)

  unfoldable pub register_source : Bytes → Repository → S → S
  unfolding sources store_set
  register_source dgst src s =
      out.set_source_map (store_set (out.source_map s) dgst (out.add (sources dgst s) src)) s

  unfoldable pub ensure_sources : Bytes → S → S
  unfolding sources store_set
  ensure_sources dgst s = out.set_source_map (store_set (out.source_map s) dgst (sources dgst s)) s

  unfoldable pub blob_url : Repository → Bytes → Url
  blob_url repo dgst = record (api_base_url net repo.registry) {
    path = codes "/v2/" ++ (repo.namespace ++ (codes "/blobs/" ++ dgst));
  }

  unfoldable pub check_for_existing_blob : Repository → Bytes → Run S Bool
  unfolding blob_url
  check_for_existing_blob repo dgst = do
    client ← get_client net repo pull_scope
    req ← new_request net head (blob_url repo dgst) []
    resp ← do_expecting_no_body net client req (200 ∷ 404 ∷ [])
    return (resp.status == 200)

  unfoldable pub or_bad_answer : {A : Type 0} → Option A → Run S A
  or_bad_answer none = fail bad_answer
  or_bad_answer (some a) = return a

  -- The body that is read from the answer, and its length.
  unfoldable pub download_blob : Repository → Bytes → Run S (Bytes × ℕ)
  unfolding blob_url or_bad_answer
  download_blob repo dgst = do
    client ← get_client net repo pull_scope
    req ← new_request net get (blob_url repo dgst) []
    resp ← do_expecting net client req (200 ∷ [])
    size ← or_bad_answer (out.parse_int (header_get resp.headers (codes "Content-Length")))
    return (resp.body, size)

  unfoldable pub upload_query : Bytes → Bytes → List (Bytes × Bytes)
  upload_query dgst mount_namespace =
      if not (bytes_eq mount_namespace [])
      then (codes "mount", dgst) ∷ (codes "from", mount_namespace) ∷ []
      else (codes "digest", dgst) ∷ []

  unfoldable pub uploads_url : Repository → Bytes → Bytes → Url
  unfolding upload_query
  uploads_url repo dgst mount_namespace = record (api_base_url net repo.registry) {
    path = codes "/v2/" ++ (repo.namespace ++ codes "/blobs/uploads/");
    query = upload_query dgst mount_namespace;
  }

  -- `none`: the blob was mounted.
  unfoldable pub upload_location : Url → Response → Run S (Option Url)
  unfolding or_bad_answer
  upload_location u resp = if resp.status == 201 then return none else do
    upload ← or_bad_answer (out.parse_reference u (header_get resp.headers (codes "Location")))
    return (some upload)

  unfoldable pub request_blob_upload_url : Repository → Bytes → Bytes → Run S (Option Url)
  unfolding uploads_url upload_location
  request_blob_upload_url repo dgst mount_namespace = do
    client ← get_client net repo push_scope
    req ← new_request net post (uploads_url repo dgst mount_namespace) []
    resp ← do_expecting_no_body net client req (201 ∷ 202 ∷ [])
    upload_location (uploads_url repo dgst mount_namespace) resp

  -- The namespace of the first source in the registry; empty if there is none.
  unfoldable pub mount_namespace : List Repository → Bytes → Bytes
  mount_namespace [] registry = []
  mount_namespace (src ∷ rest) registry =
      let later = mount_namespace rest registry in
      if bytes_eq src.registry registry then src.namespace else later

  -- From `downloadBlob` on.
  unfoldable pub send_blob : Repository → BlobCopyKey → Url → Run S Unit
  unfolding or_bad_answer
  send_blob source key upload = do
    (blob, size) ← download_blob source key.digest
    query ← or_bad_answer (out.parse_query upload)
    req ←
        new_request net put (record upload { query = query ++ ((codes "digest", key.digest) ∷ []) })
          blob
    client ← get_client net key.dst push_scope
    resp ←
        do_expecting_no_body net client
          (record req {
            headers =
                (codes "Content-Type", codes "application/octet-stream")
                ∷ (codes "Content-Length", out.format_int size)
                ∷ [];
          })
          (201 ∷ [])
    return tt

  unfoldable pub send_unless_mounted : Repository → BlobCopyKey → Option Url → Run S Unit
  send_unless_mounted source key none = return tt
  send_unless_mounted source key (some upload) = send_blob source key upload

  -- `allSources[0]` panics on an empty list.
  unfoldable pub copy_from : BlobCopyKey → List Repository → Run S Unit
  unfolding send_unless_mounted
  copy_from key [] = crash
  copy_from key (source ∷ rest) = do
    upload ←
        request_blob_upload_url key.dst key.digest
          (mount_namespace (source ∷ rest) key.dst.registry)
    send_unless_mounted source key upload

  -- From the check for the blob on.
  unfoldable pub copy_missing : BlobCopyKey → Run S Unit
  unfolding copy_from
  copy_missing key = do
    has_blob ← check_for_existing_blob key.dst key.digest
    (if has_blob then return tt else λ s. copy_from key (out.to_slice (sources key.digest s) s) s)

  -- The deferred registration, on success only.
  unfoldable pub register_if_done : BlobCopyKey → Outcome Unit × S → Outcome Unit × S
  register_if_done key (done u, s) = (done u, register_source key.digest key.dst s)
  register_if_done key (failed e, s) = (failed e, s)
  register_if_done key (panics, s) = (panics, s)

  unfoldable pub copy_locked : BlobCopyKey → Run S Unit
  unfolding copy_missing register_if_done
  copy_locked key s =
      let s' = ensure_sources key.digest s in
      if out.contains (sources key.digest s') key.dst
      then (done tt, s')
      else register_if_done key (copy_missing key s')

  -- `copyBlob`, with its deferred Unlock
  unfoldable pub copy_blob : BlobCopyKey → Run S Unit
  unfolding copy_locked
  copy_blob key s =
      let mutex_key : BlobMutexKey = record { digest = key.digest; registry = key.dst.registry } in
      let (r, s') = copy_locked key (out.lock mutex_key s) in (r, out.unlock mutex_key s')
