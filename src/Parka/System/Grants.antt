-- ===== src/Parka/System/Grants.antt =====
-- Work grants in every reachable state of a map: the invariants of the comment on `workState`.
use magic_mirror.Prelude.{
  ℕ, suc, ◌+◌, ◌≤◌, ◌<◌, ◌≡◌, ◌≢◌, refl, ap, true, List, [], ◌++◌, Option, none, some, arith, set,
  get_elem?, weigh, weigh-append, weigh-set, weigh-get_elem?, weigh-snoc, weigh-set_two, length,
  subst, sym,
}
use magic_mirror.Parka.Deque.{DequeLaws}
use magic_mirror.Parka.WorkState.{send_grant}
use magic_mirror.Parka.WorkState.Balance.{IsBalanced}
use magic_mirror.Parka.Goroutine.{
  Setup, Pc, Choice, Effect, settling, granting, receiving, worker, handler, send_grant_to,
  receive_grant,
}
use magic_mirror.Parka.System.{MapState, act}
use magic_mirror.Parka.System.Runs.{
  World, Moves, steps, transfers, calls, Reach, start, later, new_map, advance, is_call, listed,
}
use magic_mirror.Parka.System.Weights.{holds, promises, blocks, stale, weight_of}
use magic_mirror.Parka.System.Local.{Keeps, KeepsIf, act-Keeps}

module _ {ℓ} {K V E P : Type ℓ} (setup : Setup K V E P) (laws : DequeLaws setup.deque) where
  -- The counter `grants` is the number of grants that goroutines hold; `reattachers` with the
  -- transfers that are under way is the number of handlers blocked in ReceiveGrant; and the counters
  -- are in balance.
  pub record IsAccounted (w : World setup) : Type 0 where
    pub grants_held : w.shared.state.grants ≡ weigh holds w.threads
    pub reattachers_blocked :
        w.shared.state.reattachers + weigh promises w.threads ≡ weigh blocks w.threads
    pub counters_balanced : IsBalanced laws w.shared.state

  -- The same, and the handle of a handler that runs is not terminated, which the steps preserve.
  pub record IsSteady (w : World setup) : Type 0 where
    pub counted : w.shared.state.grants ≡ weigh holds w.threads
    pub paired : w.shared.state.reattachers + weigh promises w.threads ≡ weigh blocks w.threads
    pub balanced : IsBalanced laws w.shared.state
    pub fresh : weigh stale w.threads ≡ 0

  weigh-listed : (f : Pc K V E P → ℕ) (o : Option (Pc K V E P)) → weigh f (listed o) ≡ weight_of f o
  unfolding weigh
  weigh-listed f none = refl
  weigh-listed f (some p) = omega arith

  -- What a weight sums to after a step.
  pub weigh-advance :
      (f : Pc K V E P → ℕ) (xs : List (Pc K V E P)) (i : ℕ) (p q : Pc K V E P)
      (o : Option (Pc K V E P))
      → get_elem? xs i ≡ some p
      → weigh f (set xs i q ++ listed o) + f p ≡ weigh f xs + f q + weight_of f o
  weigh-advance f xs i p q o at =
      omega
        (arith, weigh-append f (set xs i q) (listed o), weigh-listed f o, weigh-set f xs i p q at)

  step-IsSteady :
      (w : World setup) (i : ℕ) (p : Pc K V E P) (e : Effect (MapState setup) (Pc K V E P))
      → get_elem? w.threads i ≡ some p
      → Keeps setup laws w.shared p e
      → IsSteady w
      → IsSteady (advance setup w i e)
  step-IsSteady w i p e at k a = record {
    counted = omega (arith, weigh-advance holds w.threads i p e.next e.spawned at);
    paired = omega (
      arith,
      weigh-advance promises w.threads i p e.next e.spawned at,
      weigh-advance blocks w.threads i p e.next e.spawned at,
    );
    balanced = k.balanced;
    fresh = omega (arith, weigh-advance stale w.threads i p e.next e.spawned at);
  }

  -- The two sides of a transfer: a grant changes hands, a promise is kept, a handler is unblocked.
  abbrev pub Sends : Pc K V E P → Pc K V E P → Type 0
  Sends p p' =
      (holds p ≡ holds p' + 1)
      × (promises p ≡ promises p' + 1)
      × (blocks p ≡ 0)
      × (blocks p' ≡ 0)
      × (stale p' ≤ stale p)

  abbrev pub Receives : Pc K V E P → Pc K V E P → Type 0
  Receives q q' =
      (holds q + 1 ≡ holds q')
      × (promises q ≡ 0)
      × (promises q' ≡ 0)
      × (blocks q ≡ 1)
      × (blocks q' ≡ 0)
      × (stale q' ≡ 0)

  pub send-weights : (p p' : Pc K V E P) → send_grant_to p ≡ some p' → Sends p p'
  send-weights (settling send_grant worker) p' e = ground arith
  send-weights (settling send_grant (handler k id h)) p' e = ground arith
  send-weights (granting [] (suc t) after) p' e = ground arith
  send-weights p p' e = absurd (cc)

  pub receive-weights :
      (q q' : Pc K V E P) → receive_grant q ≡ some q' → stale q ≡ 0 → Receives q q'
  receive-weights (receiving k id h) q' e st = ground arith
  receive-weights q q' e st = absurd (cc)

  pub apart :
      (w : World setup) (i j : ℕ) (p q : Pc K V E P)
      → get_elem? w.threads i ≡ some p
      → get_elem? w.threads j ≡ some q
      → 0 < promises p
      → promises q ≡ 0
      → i ≢ j
  apart w i j p q at_i at_j pos null same =
      ground (arith, at_i, subst (λ n. get_elem? w.threads n ≡ some q) (sym same) at_j)

  transfer-IsSteady :
      (w : World setup) (i j : ℕ) (p p' q q' : Pc K V E P)
      → get_elem? w.threads i ≡ some p
      → get_elem? w.threads j ≡ some q
      → i ≢ j
      → Sends p p'
      → Receives q q'
      → IsSteady w
      → IsSteady (record w { threads = set (set w.threads i p') j q' })
  transfer-IsSteady w i j p p' q q' at_i at_j ne s r a =
      let sum : (f : Pc K V E P → ℕ)
          → weigh f (set (set w.threads i p') j q') + f p + f q ≡ weigh f w.threads + f p' + f q' =
        λ f. weigh-set_two f w.threads i j p p' q q' ne at_i at_j in
      record {
        counted = omega (arith, sum holds);
        paired = omega (arith, sum promises, sum blocks);
        balanced = a.balanced;
        fresh = omega (arith, sum stale);
      }

  -- A call holds nothing yet.
  call-weights :
      (p : Pc K V E P)
      → is_call p ≡ true
      → (holds p ≡ 0) × (promises p ≡ 0) × (blocks p ≡ 0) × (stale p ≡ 0)
  call-weights p e = ground arith

  step-Keeps :
      (w : World setup) (c : Choice V E P) (i : ℕ) (p : Pc K V E P)
      (e : Effect (MapState setup) (Pc K V E P))
      → get_elem? w.threads i ≡ some p
      → act setup c w.shared p ≡ some e
      → IsSteady w
      → Keeps setup laws w.shared p e
  step-Keeps w c i p e at does a = subst (KeepsIf setup laws w.shared p) does (
      act-Keeps setup laws c w.shared p a.balanced
        (omega (arith, weigh-get_elem? holds w.threads i p at, a.counted))
        (omega (arith, weigh-get_elem? stale w.threads i p at, a.fresh)))

  -- Grants are issued within the limit only.
  pub Moves-within :
      {w w' : World setup}
      → Moves setup w w'
      → IsSteady w
      → w.shared.state.grants < w'.shared.state.grants
      → w'.shared.state.grants ≤ w'.shared.state.grant_limit
  Moves-within {w} (steps c i p e at does) a h = (step-Keeps w c i p e at does a).within h
  Moves-within (transfers i j p p' q q' at_i sent at_j got) a h = absurd (omega arith)
  Moves-within (calls p c) a h = absurd (omega arith)

  -- Every step of every goroutine, every transfer of a grant and every new call keep the account.
  pub Moves-IsSteady : {w w' : World setup} → Moves setup w w' → IsSteady w → IsSteady w'
  Moves-IsSteady {w} (steps c i p e at does) a =
      step-IsSteady w i p e at (step-Keeps w c i p e at does a) a
  Moves-IsSteady {w} (transfers i j p p' q q' at_i sent at_j got) a =
      transfer-IsSteady w i j p p' q q' at_i at_j
        (apart w i j p q at_i at_j (omega (arith, send-weights p p' sent))
          (omega (arith, received)))
        (send-weights p p' sent) received a
    where
      received : Receives q q'
      received =
          receive-weights q q' got
            (omega (arith, a.fresh, weigh-get_elem? stale w.threads j q at_j))
  Moves-IsSteady {w} (calls p c) a = record {
    counted = omega (arith, weigh-snoc holds w.threads p, call-weights p c);
    paired =
        omega
          (arith, weigh-snoc promises w.threads p, weigh-snoc blocks w.threads p, call-weights p c);
    balanced = a.balanced;
    fresh = omega (arith, weigh-snoc stale w.threads p, call-weights p c);
  }

  new_map-IsSteady : (max_int : ℕ) → 1 ≤ max_int → IsSteady (new_map setup max_int)
  unfolding weigh
  new_map-IsSteady max_int h = record {
    counted = refl;
    paired = refl;
    balanced = record {
      limited = h;
      idle = λ _. refl;
      drained = λ _. ap length laws.items-empty;
      awaited = λ h. absurd (h refl);
    };
    fresh = refl;
  }

  pub Reach-IsSteady :
      {max_int : ℕ} {w : World setup} → 1 ≤ max_int → Reach setup max_int w → IsSteady w
  Reach-IsSteady {max_int} h start = new_map-IsSteady max_int h
  Reach-IsSteady h (later r m) = Moves-IsSteady m (Reach-IsSteady h r)

  -- In every state that a map can reach, whatever its goroutines, handlers and callers do: the
  -- counter `grants` is the number of work grants held by goroutines; the counter
  -- `reattachers` with the transfers under way is the number of handlers blocked in
  -- ReceiveGrant; the limit is at least 1; while fewer grants are out than the limit allows,
  -- no reattacher waits and no key is queued; and `emptied` is set only while grants are out.
  pub Reach-IsAccounted :
      {max_int : ℕ} {w : World setup} → 1 ≤ max_int → Reach setup max_int w → IsAccounted w
  Reach-IsAccounted h r =
      let a = Reach-IsSteady h r in
      record {
        grants_held = a.counted;
        reattachers_blocked = a.paired;
        counters_balanced = a.balanced;
      }
