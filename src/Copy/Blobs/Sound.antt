-- ===== src/Copy/Blobs/Sound.antt =====
-- internal/image/copy/blobs.go: a blob that was copied without an error is in its repository, and
-- so is every blob that is registered as a source.
use magic_mirror.Prelude.{◌≡◌, ◌⊎◌, true, false, List, [], ◌∷◌, ◌++◌, some, Bytes, codes}
use magic_mirror.Image.Types.{Repository}
use magic_mirror.Registry.Client.{
  answered, Url, Request, Response, ClientKey, Scope, Method, head, put, post, header_get,
}
use magic_mirror.Copy.Blobs.{BlobMutexKey, Outside, sources, blob_url, uploads_url}

module _ {S C : Type 0} (out : Outside S C) (Holds : S → Repository → Bytes → Type 0) where
  open out use {net}

  -- Every repository that is registered as a source of a blob holds it.
  abbrev pub IsSound : S → Type 0
  IsSound s =
      (dgst : Bytes) (repo : Repository)
      → out.contains (sources out dgst s) repo ≡ true
      → Holds s repo dgst

  -- No blob is lost, and no repository is registered that does not hold the blob.
  pub record Extends (s s' : S) : Type 0 where
    pub kept : (repo : Repository) (dgst : Bytes) → Holds s repo dgst → Holds s' repo dgst
    pub sound : IsSound s → IsSound s'

  abbrev pub plain_request : Method → Url → Request
  plain_request method url = record { method = method; url = url; headers = []; body = [] }

  -- What the registries and the packages promise. `IsUpload u repo`: the registry gave u for the
  -- upload of a blob to the repository.
  pub record Promises (IsUpload : Url → Repository → Type 0) : Type 0 where
    -- the API of registries
    pub head_found :
        (client : C) (repo : Repository) (dgst : Bytes) (s : S) (resp : Response)
        → (net.exchange client (plain_request head (blob_url out repo dgst)) s).0 ≡ answered resp
        → resp.status ≡ 200
        → Holds (net.exchange client (plain_request head (blob_url out repo dgst)) s).1 repo dgst
    pub post_created :
        (client : C) (repo : Repository) (dgst from : Bytes) (s : S) (resp : Response)
        → (net.exchange client (plain_request post (uploads_url out repo dgst from)) s).0
          ≡ answered resp
        → resp.status ≡ 201
        → Holds
            (net.exchange client (plain_request post (uploads_url out repo dgst from)) s).1
            repo
            dgst
    pub post_accepted :
        (client : C) (repo : Repository) (dgst from : Bytes) (s : S) (resp : Response) (u : Url)
        → (net.exchange client (plain_request post (uploads_url out repo dgst from)) s).0
          ≡ answered resp
        → resp.status ≡ 202
        → out.parse_reference
            (uploads_url out repo dgst from)
            (header_get resp.headers (codes "Location"))
          ≡ some u
        → IsUpload u repo
    pub put_created :
        (client : C) (repo : Repository) (dgst : Bytes) (u : Url)
        (query headers : List (Bytes × Bytes)) (body : Bytes) (s : S) (resp : Response)
        → IsUpload u repo
        → let req : Request = record {
          method = put;
          url = record u { query = query ++ ((codes "digest", dgst) ∷ []) };
          headers = headers;
          body = body;
        } in
          (net.exchange client req s).0 ≡ answered resp
          → resp.status ≡ 201
          → Holds (net.exchange client req s).1 repo dgst
    -- registries lose no blobs while the program runs, and other goroutines register what is so
    pub exchange-Extends :
        (client : C) (req : Request) (s : S) → Extends s (net.exchange client req s).1
    pub new_transport-Extends :
        (repo : Repository) (scope : Scope) (s : S) → Extends s (net.new_transport repo scope s).2
    pub lock-Extends : (key : BlobMutexKey) (s : S) → Extends s (out.lock key s)
    pub unlock-Extends : (key : BlobMutexKey) (s : S) → Extends s (out.unlock key s)
    -- the parts of the store are apart
    pub set_clients-Extends : (cs : List (ClientKey × C)) (s : S) → Extends s (net.set_clients cs s)
    pub source_map_set :
        (m : List (Bytes × out.RepoSet)) (s : S) → out.source_map (out.set_source_map m s) ≡ m
    pub set_source_map_kept :
        (m : List (Bytes × out.RepoSet)) (s : S) (repo : Repository) (dgst : Bytes)
        → Holds s repo dgst
        → Holds (out.set_source_map m s) repo dgst
    -- the set package
    pub contains-new_set : (repo : Repository) → out.contains out.new_set repo ≡ false
    pub contains-add :
        (set : out.RepoSet) (repo other : Repository)
        → out.contains (out.add set repo) other ≡ true
        → (out.contains set other ≡ true) ⊎ (repo ≡ other)
