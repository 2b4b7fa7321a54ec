-- ===== src/Registry/Rules.antt =====
-- internal/image/registry/registry.go: how the calls of a client end, for any predicate K on the
-- store that the calls keep.
use magic_mirror.Prelude.{
  ℕ, ◌≡◌, inl, inr, refl, Bool, true, false, List, [], ◌∷◌, Option, none, some, Bytes, Bool-cases,
}
use magic_mirror.Image.Types.{Repository}
use magic_mirror.Registry.Outcome.{Run, ◌>>=◌, Ends, Ends-bind, continue}
use magic_mirror.Registry.Client.{
  error_and_response, error_only, Answer, answered, Net, Url, Request, Response, ClientKey, Scope,
  Method, new_request, expects, do_expecting, do_expecting_no_body, get_client, drop_body,
  check_status, find_client, client_or_new, make_client,
}

module _ {S C : Type 0} (net : Net S C) (K : S → Type 0) where
  -- What GetClient does to the store keeps K.
  pub record ClientsKeep : Type 0 where
    pub new_transport-keeps :
        (repo : Repository) (scope : Scope) (s : S) → K s → K (net.new_transport repo scope s).2
    pub set_clients-keeps : (cs : List (ClientKey × C)) (s : S) → K s → K (net.set_clients cs s)

module _ {S C : Type 0} {net : Net S C} {K : S → Type 0} (keep : ClientsKeep net K) where
  make_client-Ends :
      (key : ClientKey) (made : C × Bool × S)
      → K made.2
      → Ends K (λ c s. K s) (make_client net key made)
  unfolding make_client
  make_client-Ends key (c, true, s) h = h
  make_client-Ends key (c, false, s) h = keep.set_clients-keeps ((key, c) ∷ net.clients s) s h

  client_or_new-Ends :
      (key : ClientKey) (found : Option C) (s : S)
      → K s
      → Ends K (λ c s'. K s') (client_or_new net key found s)
  unfolding client_or_new
  client_or_new-Ends key (some c) s h = h
  client_or_new-Ends key none s h =
      make_client-Ends key (net.new_transport key.repo key.scope s)
        (keep.new_transport-keeps key.repo key.scope s h)

  pub get_client-bind :
      {B : Type 0} (Q : B → S → Type 0) (repo : Repository) (scope : Scope) (f : C → Run S B)
      (s : S)
      → K s
      → ((client : C) (s' : S) → K s' → Ends K Q (f client s'))
      → Ends K Q ((get_client net repo scope >>= f) s)
  unfolding get_client
  get_client-bind Q repo scope f s h k =
      Ends-bind K (λ c s'. K s') Q (get_client net repo scope) f s
        (client_or_new-Ends (record { repo = repo; scope = scope })
          (find_client net (net.clients s) (record { repo = repo; scope = scope })) s h)
        k

module _ {S C B : Type 0} (net : Net S C) (K : S → Type 0) (Q : B → S → Type 0) where
  pub new_request-bind :
      (method : Method) (url : Url) (body : Bytes) (f : Request → Run S B) (s : S)
      → K s
      → Ends K Q (f (record { method = method; url = url; headers = []; body = body }) s)
      → Ends K Q ((new_request net method url body >>= f) s)
  unfolding new_request
  new_request-bind method url body f s h k = elim (Bool-cases (net.valid_url url)) [
    | inl valid ↦ rw valid k
    | inr invalid ↦ rw invalid h
  ]

  module _ (expected : List ℕ) (f : Response → Run S B) where
    drop_body-bind :
        (answer : Answer) (s : S)
        → K s
        → ((raw : Response)
            → answer ≡ answered raw
            → expects expected raw.status ≡ true
            → Ends K Q (f (record raw { body = [] }) s))
        → Ends K Q (continue (drop_body net expected answer) f s)
    unfolding drop_body
    drop_body-bind error_only s h k = h
    drop_body-bind error_and_response s h k = h
    drop_body-bind (answered raw) s h k = elim (Bool-cases (expects expected raw.status)) [
      | inl fine ↦ rw fine (k raw refl fine)
      | inr wrong ↦ rw wrong h
    ]

    check_status-bind :
        (answer : Answer) (s : S)
        → K s
        → ((raw : Response)
            → answer ≡ answered raw
            → expects expected raw.status ≡ true
            → Ends K Q (f raw s))
        → Ends K Q (continue (check_status net expected answer) f s)
    unfolding check_status
    check_status-bind error_only s h k = h
    check_status-bind error_and_response s h k = h
    check_status-bind (answered raw) s h k = elim (Bool-cases (expects expected raw.status)) [
      | inl fine ↦ rw fine (k raw refl fine)
      | inr wrong ↦ rw wrong h
    ]

    -- The exchange itself must keep K.
    pub do_expecting_no_body-bind :
        (client : C) (req : Request) (s : S)
        → K (net.exchange client req s).1
        → ((raw : Response)
            → (net.exchange client req s).0 ≡ answered raw
            → expects expected raw.status ≡ true
            → Ends K Q (f (record raw { body = [] }) (net.exchange client req s).1))
        → Ends K Q ((do_expecting_no_body net client req expected >>= f) s)
    unfolding do_expecting_no_body
    do_expecting_no_body-bind client req s h k =
        drop_body-bind (net.exchange client req s).0 (net.exchange client req s).1 h k

    pub do_expecting-bind :
        (client : C) (req : Request) (s : S)
        → K (net.exchange client req s).1
        → ((raw : Response)
            → (net.exchange client req s).0 ≡ answered raw
            → expects expected raw.status ≡ true
            → Ends K Q (f raw (net.exchange client req s).1))
        → Ends K Q ((do_expecting net client req expected >>= f) s)
    unfolding do_expecting
    do_expecting-bind client req s h k =
        check_status-bind (net.exchange client req s).0 (net.exchange client req s).1 h k
