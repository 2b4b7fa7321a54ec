-- ===== src/Copy/Blobs/Examples.antt =====
-- internal/image/copy/blobs.go against a small registry that finds no blob, mounts none, and stores
-- what is uploaded.
use magic_mirror.Prelude.{
  ℕ, ◌≡◌, refl, Bool, true, false, List, [], ◌∷◌, ◌++◌, none, some, Bytes, bytes_eq, codes, ◌&&◌,
  ◌||◌,
}
use magic_mirror.Image.Types.{Repository}
use magic_mirror.Registry.Outcome.{done}
use magic_mirror.Registry.Client.{
  Answer, answered, Net, Url, Request, Response, ClientKey, Method, head, get, put, post,
  repository_eq, get_client, find_client, client_key_eq, new_request, do_expecting,
  do_expecting_no_body, expects, header_get, api_base_url,
}
use magic_mirror.Copy.Blobs.{
  BlobCopyKey, Outside, copy_blob, sources, find_set, store_set, register_source, ensure_sources,
  check_for_existing_blob, download_blob, request_blob_upload_url, send_blob, copy_from,
  copy_missing, mount_namespace, copy_locked, blob_url, uploads_url,
}

-- a host, the path of its uploads for a repository, and a digest
record Stored : Type 0 where
  host : Bytes
  path : Bytes
  digest : Bytes

record State : Type 0 where
  known_clients : List (ClientKey × Unit {0})
  registered : List (Bytes × List Repository)
  stored : List Stored

abbrev uploads_path : Bytes → Bytes
uploads_path namespace = codes "/v2/" ++ (namespace ++ codes "/blobs/uploads/")

is_stored : List Stored → Bytes → Bytes → Bytes → Bool
is_stored [] host path dgst = false
is_stored (b ∷ bs) host path dgst =
    (bytes_eq b.host host && (bytes_eq b.path path && bytes_eq b.digest dgst))
    || is_stored bs host path dgst

abbrev Holds : State → Repository → Bytes → Type 0
Holds s repo dgst = is_stored s.stored repo.registry (uploads_path repo.namespace) dgst ≡ true

last_value : List (Bytes × Bytes) → Bytes
last_value [] = []
last_value ((n, v) ∷ []) = v
last_value (p ∷ q ∷ rest) = last_value (q ∷ rest)

abbrev answer : ℕ → List (Bytes × Bytes) → Response
answer status headers = record { status = status; headers = headers; body = codes "x" }

serve : Method → Request → State → Answer × State
unfolding last_value
serve head req s = (answered (answer 404 []), s)
serve get req s = (answered (answer 200 ((codes "Content-Length", codes "1") ∷ [])), s)
serve post req s = (answered (answer 202 ((codes "Location", codes "/") ∷ [])), s)
serve put req s = (
  answered (answer 201 []),
  record s {
    stored =
        record { host = req.url.host; path = req.url.path; digest = last_value req.url.query }
        ∷ s.stored;
  },
)

member : List Repository → Repository → Bool
member [] repo = false
member (r ∷ rs) repo = repository_eq r repo || member rs repo

abbrev net : Net State (Unit {0})
net = record {
  exchange = λ client req s. serve req.method req s;
  new_transport = λ repo scope s. (tt, false, s);
  clients = λ s. s.known_clients;
  set_clients = λ cs s. record s { known_clients = cs };
  valid_url = λ url. true;
  registry_scheme = λ registry. none;
}

abbrev outside : Outside State (Unit {0})
outside = record {
  net = net;
  RepoSet = List Repository;
  new_set = [];
  add = λ rs r. r ∷ rs;
  contains = member;
  to_slice = λ rs s. rs;
  source_map = λ s. s.registered;
  set_source_map = λ m s. record s { registered = m };
  lock = λ key s. s;
  unlock = λ key s. s;
  parse_reference = λ u location. some (record u { query = [] });
  parse_query = λ u. some [];
  parse_int = λ text. some 1;
  format_int = λ n. codes "1";
}

abbrev IsUpload : Url → Repository → Type 0
IsUpload u repo = (u.host ≡ repo.registry) × (u.path ≡ uploads_path repo.namespace)

abbrev repo : Bytes → Repository
repo name = record { registry = codes "r"; namespace = name }

abbrev blob : Bytes
blob = codes "d"

abbrev key : BlobCopyKey
key = record { digest = blob; dst = repo (codes "to") }

-- The blob is in one repository, and registered there.
abbrev initial : State
initial = record {
  known_clients = [];
  registered = (blob, repo (codes "from") ∷ []) ∷ [];
  stored = record { host = codes "r"; path = uploads_path (codes "from"); digest = blob } ∷ [];
}

run_copy_blob :
    ((copy_blob outside key initial).0 ≡ done tt)
    × (Holds (copy_blob outside key initial).1 (repo (codes "to")) blob)
unfolding copy_blob copy_locked copy_missing sources find_set store_set check_for_existing_blob
    get_client find_client client_key_eq repository_eq bytes_eq register_source ensure_sources serve
    is_stored member new_request do_expecting do_expecting_no_body expects header_get api_base_url
    blob_url uploads_url copy_from mount_namespace request_blob_upload_url send_blob download_blob
run_copy_blob = (refl, refl)
