-- ===== src/Registry/Laws.antt =====
-- internal/image/registry/registry.go: what the cache of clients and the checks of answers do.
use magic_mirror.Prelude.{
  ◌≡◌, refl, sym, ap, ◌∙◌, Bool, true, false, List, ◌∷◌, Option, none, some, arith, bytes_eq_refl,
  bytes_eq_sound,
}
use magic_mirror.Registry.Outcome.{done}
use magic_mirror.Registry.Client.{
  Net, ClientKey, Scope, get_client, find_client, client_key_eq, scope_eq, repository_eq,
  pull_scope, push_scope, make_client, client_or_new,
}
use magic_mirror.Image.Types.{Repository}

pub repository_eq_refl : (r : Repository) → repository_eq r r ≡ true
unfolding repository_eq
repository_eq_refl r = rw (bytes_eq_refl r.registry, bytes_eq_refl r.namespace) refl

pub repository_eq_sound : (r q : Repository) → repository_eq r q ≡ true → r ≡ q
unfolding repository_eq
repository_eq_sound r q e =
    ground (arith, bytes_eq_sound r.registry q.registry, bytes_eq_sound r.namespace q.namespace)

scope_eq_refl : (s : Scope) → scope_eq s s ≡ true
unfolding scope_eq
scope_eq_refl pull_scope = refl
scope_eq_refl push_scope = refl

client_key_eq_refl : (k : ClientKey) → client_key_eq k k ≡ true
unfolding client_key_eq
client_key_eq_refl k = rw (repository_eq_refl k.repo, scope_eq_refl k.scope) refl

done_inj : {A : Type 0} {a b : A} → done a ≡ done b → a ≡ b
done_inj e = cc

module _ {S C : Type 0} (net : Net S C) where
  find_client_head :
      (key : ClientKey) (c : C) (cs : List (ClientKey × C))
      → find_client net ((key, c) ∷ cs) key ≡ some c
  unfolding find_client
  find_client_head key c cs = rw (client_key_eq_refl key) refl

  module _ (law : (cs : List (ClientKey × C)) (s : S) → net.clients (net.set_clients cs s) ≡ cs)
      (key : ClientKey) where
    made_again :
        (made : C × Bool × S) (s' : S) (c : C)
        → make_client net key made ≡ (done c, s')
        → find_client net (net.clients s') key ≡ some c
    unfolding make_client
    made_again (c0, true, s0) s' c e = absurd (cc)
    made_again (c0, false, s0) s' c e =
        let state : net.set_clients ((key, c0) ∷ net.clients s0) s0 ≡ s' = ap (λ p. p.1) e in
        let same : c0 ≡ c = done_inj (ap (λ p. p.0) e) in
        ap (λ w. find_client net (net.clients w) key) (sym state)
        ∙ ap (λ cs. find_client net cs key) (law ((key, c0) ∷ net.clients s0) s0)
        ∙ find_client_head key c0 (net.clients s0)
        ∙ ap some same

    found_again :
        (found : Option C) (s s' : S) (c : C)
        → find_client net (net.clients s) key ≡ found
        → client_or_new net key found s ≡ (done c, s')
        → find_client net (net.clients s') key ≡ some c
    unfolding client_or_new
    found_again none s s' c missing e = made_again (net.new_transport key.repo key.scope s) s' c e
    found_again (some c0) s s' c hit e =
        ap (λ w. find_client net (net.clients w) key) (sym (ap (λ p. p.1) e))
        ∙ hit
        ∙ ap some (done_inj (ap (λ p. p.0) e))

  -- If the cache reads back as it was written, then a client that GetClient returned for a
  -- repository and a scope is returned again by the next call, which changes nothing.
  pub get_client_again :
      ((cs : List (ClientKey × C)) (s : S) → net.clients (net.set_clients cs s) ≡ cs)
      → (repo : Repository) (scope : Scope) (s s' : S) (c : C)
      → get_client net repo scope s ≡ (done c, s')
      → get_client net repo scope s' ≡ (done c, s')
  unfolding get_client
  get_client_again law repo scope s s' c e =
      let key : ClientKey = record { repo = repo; scope = scope } in
      rw (found_again law key (find_client net (net.clients s) key) s s' c refl e) refl
