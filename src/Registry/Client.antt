-- ===== src/Registry/Client.antt =====
-- internal/image/registry/registry.go: requests with expected answers, and the cache of clients.
use magic_mirror.Prelude.{
  ℕ, Bool, true, false, List, [], ◌∷◌, Option, none, some, Bytes, bytes_eq, codes, ◌==◌, ◌&&◌, ◌||◌,
  if◌then◌else◌,
}
use magic_mirror.Registry.Outcome.{
  Outcome, done, failed, panics, Run, not_sent, unexpected_status, no_client, bad_request,
}
use magic_mirror.Image.Types.{Repository}

pub data Method : Type 0 where
  head get put post : Method

-- The parts of a URL that the program sets.
pub record Url : Type 0 where
  pub scheme : Bytes
  pub host : Bytes
  pub path : Bytes
  pub query : List (Bytes × Bytes)

pub record Request : Type 0 where
  pub method : Method
  pub url : Url
  pub headers : List (Bytes × Bytes)
  pub body : Bytes

pub record Response : Type 0 where
  pub status : ℕ
  pub headers : List (Bytes × Bytes)
  pub body : Bytes

-- What the HTTP client returns: a response with no error, or an error. A response comes with an error
-- where a redirect was refused; else it is nil then.
pub data Answer : Type 0 where
  answered : Response → Answer
  error_and_response error_only : Answer

-- `Header.Get`: the first value, or the empty string
unfoldable pub header_get : List (Bytes × Bytes) → Bytes → Bytes
header_get [] name = []
header_get ((n, v) ∷ rest) name =
    let later = header_get rest name in if bytes_eq n name then v else later

pub data Scope : Type 0 where
  pull_scope push_scope : Scope

unfoldable pub scope_eq : Scope → Scope → Bool
scope_eq pull_scope pull_scope = true
scope_eq push_scope push_scope = true
scope_eq _ _ = false

pub record ClientKey : Type 0 where
  pub repo : Repository
  pub scope : Scope

-- `==` on keys
unfoldable pub repository_eq : Repository → Repository → Bool
repository_eq r q = bytes_eq r.registry q.registry && bytes_eq r.namespace q.namespace

unfoldable pub client_key_eq : ClientKey → ClientKey → Bool
unfolding scope_eq repository_eq
client_key_eq j k = repository_eq j.repo k.repo && scope_eq j.scope k.scope

-- `transport.CheckError`: whether the status is among those expected
unfoldable pub expects : List ℕ → ℕ → Bool
expects [] status = false
expects (c ∷ cs) status = status == c || expects cs status

-- What stands outside the program: HTTP clients C, and the store S as all goroutines see it. While
-- a request is under way the others run, so an exchange may change all of the store. `new_transport` is getTransport, which asks the packages for names,
-- credentials and transports; it returns a client in every case, and whether there is an error.
pub record Net (S C : Type 0) : Type 0 where
  pub exchange : C → Request → S → Answer × S
  pub new_transport : Repository → Scope → S → C × Bool × S
  pub clients : S → List (ClientKey × C)
  pub set_clients : List (ClientKey × C) → S → S
  -- `http.NewRequest` takes the URL
  pub valid_url : Url → Bool
  -- the scheme that the names package gives for a registry, where it takes the name
  pub registry_scheme : Bytes → Option Bytes

-- `APIBaseURL`
or_https : Option Bytes → Bytes
or_https none = codes "https"
or_https (some scheme) = scheme

module _ {S C : Type 0} (net : Net S C) where
  unfoldable pub api_base_url : Bytes → Url
  unfolding or_https
  api_base_url registry = record {
    scheme = or_https (net.registry_scheme registry);
    host = registry;
    path = [];
    query = [];
  }

  -- `http.NewRequest`
  unfoldable pub new_request : Method → Url → Bytes → Run S Request
  new_request method url body s =
      if net.valid_url url
      then (done (record { method = method; url = url; headers = []; body = body }), s)
      else (failed bad_request, s)

  unfoldable pub check_status : List ℕ → Answer → Outcome Response
  check_status expected error_only = failed not_sent
  check_status expected error_and_response = failed not_sent
  check_status expected (answered resp) =
      if expects expected resp.status then done resp else failed (unexpected_status resp.status)

  unfoldable pub do_expecting : C → Request → List ℕ → Run S Response
  unfolding check_status
  do_expecting client req expected s =
      let (answer, s') = net.exchange client req s in (check_status expected answer, s')

  -- `resp.Body = nil` stands also on the error path, where resp is nil unless a redirect was refused.
  unfoldable pub drop_body : List ℕ → Answer → Outcome Response
  drop_body expected error_only = panics
  drop_body expected error_and_response = failed not_sent
  drop_body expected (answered resp) =
      if expects expected resp.status
      then done (record resp { body = [] })
      else failed (unexpected_status resp.status)

  unfoldable pub do_expecting_no_body : C → Request → List ℕ → Run S Response
  unfolding drop_body
  do_expecting_no_body client req expected s =
      let (answer, s') = net.exchange client req s in (drop_body expected answer, s')

  unfoldable pub find_client : List (ClientKey × C) → ClientKey → Option C
  find_client [] key = none
  find_client ((k, c) ∷ rest) key =
      let later = find_client rest key in if client_key_eq k key then some c else later

  unfoldable pub make_client : ClientKey → C × Bool × S → Outcome C × S
  make_client key (c, failure, s) =
      if failure
      then (failed no_client, s)
      else (done c, net.set_clients ((key, c) ∷ net.clients s) s)

  unfoldable pub client_or_new : ClientKey → Option C → Run S C
  unfolding make_client
  client_or_new key (some c) s = (done c, s)
  client_or_new key none s = make_client key (net.new_transport key.repo key.scope s)

  unfoldable pub get_client : Repository → Scope → Run S C
  unfolding client_or_new find_client
  get_client repo scope s =
      let key : ClientKey = record { repo = repo; scope = scope } in
      client_or_new key (find_client (net.clients s) key) s
