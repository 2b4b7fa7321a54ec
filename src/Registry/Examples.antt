-- ===== src/Registry/Examples.antt =====
-- The theorems on clients, applied to a network that answers nothing.
use magic_mirror.Prelude.{ℕ, ◌≡◌, refl, true, false, List, [], ◌∷◌, none, codes}
use magic_mirror.Image.Types.{Repository}
use magic_mirror.Registry.Outcome.{done, panics, failed, not_sent}
use magic_mirror.Registry.Client.{
  drop_body, error_only, error_and_response, Net, Request, ClientKey, get, pull_scope,
  do_expecting_no_body, get_client,
}
use magic_mirror.Registry.Laws.{get_client_again}

-- The store is the cache; clients are numbers.
abbrev silent : Net (List (ClientKey × ℕ)) ℕ
silent = record {
  exchange = λ client req s. (error_only, s);
  new_transport = λ repo scope s. (7, false, s);
  clients = λ s. s;
  set_clients = λ cs s. cs;
  valid_url = λ url. true;
  registry_scheme = λ registry. none;
}

abbrev request : Request
request = record {
  method = get;
  url = record { scheme = codes "https"; host = codes "r"; path = codes "/v2/"; query = [] };
  headers = [];
  body = [];
}

abbrev repo : Repository
repo = record { registry = codes "r"; namespace = codes "n" }

run_no_answer : (do_expecting_no_body silent 7 request (200 ∷ []) []).0 ≡ panics
unfolding do_expecting_no_body
run_no_answer = refl

redirected_no_panic : drop_body silent (200 ∷ []) error_and_response ≡ failed not_sent
unfolding drop_body
redirected_no_panic = refl

abbrev cached : List (ClientKey × ℕ)
cached = (record { repo = repo; scope = pull_scope }, 7) ∷ []

run_get_client : get_client silent repo pull_scope [] ≡ (done 7, cached)
unfolding get_client
run_get_client = refl

get_client_again_example : get_client silent repo pull_scope cached ≡ (done 7, cached)
get_client_again_example =
    get_client_again silent (λ cs s. refl) repo pull_scope [] cached 7 run_get_client
