-- ===== src/Copy/PlatformCopier/Mock.antt =====
-- A small registry for the platform copier, whose repositories share their blobs.
use magic_mirror.Prelude.{
  ℕ, ◌≡◌, ◌⊎◌, inl, inr, refl, subst, Bool, true, false, List, [], ◌∷◌, ◌++◌, Option, some, none,
  Bytes, bytes_eq, codes, ◌&&◌, ◌||◌, if◌then◌else◌, Bool-cases, arith, bytes_eq_sound,
  bytes_eq_refl,
}
use magic_mirror.StringKeyed.Order.{or_right}
use magic_mirror.Image.Types.{Repository}
use magic_mirror.Image.Manifest.{Descriptor, ParsedManifest, ManifestKind, raw_manifest}
use magic_mirror.Registry.Outcome.{Outcome, Run, done, failed, bad_answer}
use magic_mirror.Registry.Client.{
  Answer, answered, Net, Method, head, get, put, post, Request, Response, repository_eq,
}
use magic_mirror.Registry.Laws.{repository_eq_sound}
use magic_mirror.Copy.Blobs.{Outside, sources, find_set, set_or_new, BlobCopyKey}
use magic_mirror.Copy.Blobs.Sound.{Extends, Promises}
use magic_mirror.Copy.Manifests.{Reading}
use magic_mirror.Copy.PlatformCopier.{Caches}
use magic_mirror.Copy.PlatformCopier.Complete.{IsGood}

pub record State : Type 0 where
  pub registered : List (Bytes × List Repository)
  pub blobs : List Bytes
  pub manifests : List Bytes
  pub results : List (BlobCopyKey × Outcome (Unit {0}))

unfoldable pub mem : List Bytes → Bytes → Bool
mem [] x = false
mem (y ∷ ys) x = bytes_eq y x || mem ys x

abbrev pub Holds : State → Repository → Bytes → Type 0
Holds s repo dgst = mem s.blobs dgst ≡ true

abbrev pub HasManifest : State → Repository → Bytes → Type 0
HasManifest s repo body = mem s.manifests body ≡ true

unfoldable pub last_value : List (Bytes × Bytes) → Bytes
last_value [] = []
last_value ((n, v) ∷ []) = v
last_value (p ∷ q ∷ rest) = last_value (q ∷ rest)

abbrev pub answer : ℕ → List (Bytes × Bytes) → Response
answer status headers = record { status = status; headers = headers; body = codes "x" }

-- An upload with a query is kept as a blob, by the digest in it, and another one as a manifest.
unfoldable pub store_put : List (Bytes × Bytes) → Bytes → State → State
unfolding last_value
store_put [] body s = record s { manifests = body ∷ s.manifests }
store_put (p ∷ query) body s = record s { blobs = last_value (p ∷ query) ∷ s.blobs }

-- It finds no blob and mounts none.
unfoldable pub serve : Method → Request → State → Answer × State
unfolding store_put
serve head req s = (answered (answer 404 []), s)
serve get req s = (answered (answer 200 ((codes "Content-Length", codes "1") ∷ [])), s)
serve post req s = (answered (answer 202 ((codes "Location", codes "/") ∷ [])), s)
serve put req s = (answered (answer 201 []), store_put req.url.query req.body s)

abbrev pub net : Net State (Unit {0})
net = record {
  exchange = λ client req s. serve req.method req s;
  new_transport = λ repo scope s. (tt, false, s);
  clients = λ s. [];
  set_clients = λ cs s. s;
  valid_url = λ url. true;
  registry_scheme = λ registry. none;
}

unfoldable pub is_member : List Repository → Repository → Bool
is_member [] repo = false
is_member (r ∷ rs) repo = repository_eq r repo || is_member rs repo

abbrev pub outside : Outside State (Unit {0})
outside = record {
  net = net;
  RepoSet = List Repository;
  new_set = [];
  add = λ rs r. r ∷ rs;
  contains = is_member;
  to_slice = λ rs s. rs;
  source_map = λ s. s.registered;
  set_source_map = λ m s. record s { registered = m };
  lock = λ key s. s;
  unlock = λ key s. s;
  parse_reference = λ u location. some u;
  parse_query = λ u. some [];
  parse_int = λ text. some 1;
  format_int = λ n. codes "1";
}

abbrev pub layer : Descriptor (Unit {0})
layer = record { media_type = []; digest = codes "c"; size = 1; annotations = []; platform = none }

abbrev pub parsed : ParsedManifest (Unit {0})
parsed = record { media_type = codes "m"; config = layer; layers = layer ∷ []; rest = [] }

abbrev pub reading : Reading (Unit {0})
reading = record {
  types = record { oci_index = codes "i"; oci_manifest = codes "m" };
  codecs = record {
    marshal_index = λ i. none;
    marshal_manifest = λ m. none;
    digest_of = λ body. codes "d";
    is_valid_digest = λ digest. true;
  };
  verify = λ digest body. some true;
  read_all = λ resp. some resp.body;
  value_text = λ body. body;
  unmarshal_index = λ body. none;
  unmarshal_manifest = λ body. some parsed;
}

unfoldable pub find_result :
    List (BlobCopyKey × Outcome (Unit {0})) → BlobCopyKey → Option (Outcome (Unit {0}))
find_result [] key = none
find_result ((k, r) ∷ results) key =
    if bytes_eq k.digest key.digest && repository_eq k.dst key.dst
    then some r
    else find_result results key

unfoldable pub get_if_held : Bool → Run State (ManifestKind (Unit {0}))
get_if_held true s = (done (raw_manifest parsed (codes "text")), s)
get_if_held false s = (failed bad_answer, s)

abbrev pub caches : Caches State (Unit {0})
caches = record {
  inform_front = λ img s. s;
  get_cached = λ img s. get_if_held (mem s.blobs (codes "c")) s;
  blob_result = λ key s. find_result s.results key;
  set_blob_result = λ key r s. record s { results = (key, r) ∷ s.results };
}

abbrev pub Good : State → Type 0
Good s = IsGood outside reading caches Holds HasManifest s

pub mem_head : (x y : Bytes) (xs : List Bytes) → x ≡ y → mem (x ∷ xs) y ≡ true
unfolding mem
mem_head x y xs e = ground (arith, bytes_eq_refl y)

pub mem_tail : (x y : Bytes) (xs : List Bytes) → mem xs y ≡ true → mem (x ∷ xs) y ≡ true
unfolding mem
mem_tail x y xs e = ground arith

pub mem_cases :
    (x y : Bytes) (xs : List Bytes) → mem (x ∷ xs) y ≡ true → (x ≡ y) ⊎ (mem xs y ≡ true)
unfolding mem
mem_cases x y xs e = elim (Bool-cases (bytes_eq x y)) [
  | inl same ↦ inl (bytes_eq_sound x y same)
  | inr apart ↦ inr (or_right (bytes_eq x y) (mem xs y) apart e)
]

-- What more blobs and the same registrations do.
pub keeps :
    {s s' : State}
    → ((dgst : Bytes) → mem s.blobs dgst ≡ true → mem s'.blobs dgst ≡ true)
    → s'.registered ≡ s.registered
    → Extends outside Holds s s'
unfolding sources
keeps {s} {s'} kept same = record {
  kept = λ repo dgst held. kept dgst held;
  sound = λ sound dgst repo listed. kept dgst (
      sound dgst repo (
        subst (λ m. is_member (set_or_new outside (find_set outside m dgst)) repo ≡ true) same
          listed));
}

store_put-Extends :
    (query : List (Bytes × Bytes)) (body : Bytes) (s : State)
    → Extends outside Holds s (store_put query body s)
unfolding store_put
store_put-Extends [] body s = keeps (λ dgst held. held) refl
store_put-Extends (p ∷ query) body s =
    keeps (λ dgst held. mem_tail (last_value (p ∷ query)) dgst s.blobs held) refl

pub serve-Extends :
    (method : Method) (req : Request) (s : State) → Extends outside Holds s (serve method req s).1
unfolding serve store_put
serve-Extends head req s = keeps (λ dgst held. held) refl
serve-Extends get req s = keeps (λ dgst held. held) refl
serve-Extends post req s = keeps (λ dgst held. held) refl
serve-Extends put req s = store_put-Extends req.url.query req.body s

pub last_value-append :
    (q : List (Bytes × Bytes)) (n v : Bytes) → last_value (q ++ ((n, v) ∷ [])) ≡ v
unfolding last_value
last_value-append [] n v = refl
last_value-append (p ∷ []) n v = refl
last_value-append (p ∷ r ∷ rest) n v = last_value-append (r ∷ rest) n v

-- An upload with a digest at the end of its query is kept as that blob.
stored_put :
    (query : List (Bytes × Bytes)) (n dgst body : Bytes) (s : State)
    → mem (store_put (query ++ ((n, dgst) ∷ [])) body s).blobs dgst ≡ true
unfolding store_put
stored_put [] n dgst body s = mem_head dgst dgst s.blobs refl
stored_put (p ∷ query) n dgst body s =
    mem_head (last_value (p ∷ (query ++ ((n, dgst) ∷ [])))) dgst s.blobs
      (last_value-append (p ∷ query) n dgst)

pub is_member_some :
    (set : List Repository) (repo other : Repository)
    → is_member (repo ∷ set) other ≡ true
    → (is_member set other ≡ true) ⊎ (repo ≡ other)
unfolding is_member
is_member_some set repo other listed = elim (Bool-cases (repository_eq repo other)) [
  | inl same ↦ inr (repository_eq_sound repo other same)
  | inr apart ↦ inl (or_right (repository_eq repo other) (is_member set other) apart listed)
]

pub is_member_none : (repo : Repository) → is_member [] repo ≡ false
unfolding is_member
is_member_none repo = refl

pub promises : Promises outside Holds (λ u repo. Unit {0})
unfolding serve
promises = record {
  head_found = λ client repo dgst s resp e ok. absurd (ground arith);
  post_created = λ client repo dgst from s resp e created. absurd (ground arith);
  post_accepted = λ client repo dgst from s resp u e accepted parsed. tt;
  put_created = λ client repo dgst u query headers body s resp upload e created.
      stored_put query (codes "digest") dgst body s;
  exchange-Extends = λ client req s. serve-Extends req.method req s;
  new_transport-Extends = λ repo scope s. keeps (λ dgst held. held) refl;
  lock-Extends = λ key s. keeps (λ dgst held. held) refl;
  unlock-Extends = λ key s. keeps (λ dgst held. held) refl;
  set_clients-Extends = λ cs s. keeps (λ dgst held. held) refl;
  source_map_set = λ m s. refl;
  set_source_map_kept = λ m s repo dgst held. held;
  contains-new_set = λ repo. is_member_none repo;
  contains-add = λ set repo other listed. is_member_some set repo other listed;
}
