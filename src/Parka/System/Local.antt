-- ===== src/Parka/System/Local.antt =====
-- One step of one goroutine keeps the account of grants and of reattachers, and the balance.
use magic_mirror.Prelude.{
  ℕ, zero, suc, ◌+◌, ◌≤◌, ◌<◌, ◌≡◌, refl, true, false, List, [], ◌∷◌, Option, none, some, arith,
  Bool-cases, inl, inr,
}
use magic_mirror.Catch.{Exit, returns, panics, goexits, Result, is_returned, unwrap}
use magic_mirror.Parka.Deque.{DequeLaws}
use magic_mirror.Parka.WorkState.{Enqueue, Next, retire, send_grant, take_key}
use magic_mirror.Parka.WorkState.Balance.{
  IsBalanced, try_get_section-IsBalanced, limit_section-IsBalanced, schedule_section-IsBalanced,
  reattach_section-IsBalanced, dequeue_section-IsBalanced, wait_section-IsBalanced,
}
use magic_mirror.Parka.WorkState.Accounts.{
  try_get_section-account, limit_section-account, schedule_section-account,
  reattach_section-account, dequeue_section-account, wait_section-account,
}
use magic_mirror.Parka.Tasks.{task_result}
use magic_mirror.Parka.Handle.{Handle}
use magic_mirror.Parka.Goroutine.{
  Setup, Pc, Choice, Effect, After, stop, collect, Caller, worker, handler, work, handling,
  settling, receiving, informing, scheduling, granting, awaiting, replied, limiting, dequeuing,
  ejecting, joining, waiting, finished, detaches, reattaches, exits,
}
use magic_mirror.Parka.System.{
  MapState, act, try_get, handle, settle, schedule, await, collect_result,
}
use magic_mirror.Parka.System.Weights.{holds, promises, blocks, stale, weight_of}

module _ {ℓ} {K V E P : Type ℓ} (setup : Setup K V E P) (laws : DequeLaws setup.deque) where
  abbrev Held : MapState setup → Type 0
  Held sh = IsBalanced laws sh.state

  pub record Keeps (sh : MapState setup) (p : Pc K V E P) (e : Effect (MapState setup) (Pc K V E P))
      : Type 0 where
    pub grants :
        e.shared.state.grants + holds p ≡ sh.state.grants + holds e.next + weight_of holds e.spawned
    pub paired :
        e.shared.state.reattachers + promises e.next + weight_of promises e.spawned + blocks p
        ≡ sh.state.reattachers + promises p + blocks e.next + weight_of blocks e.spawned
    pub balanced : IsBalanced laws e.shared.state
    pub within :
        sh.state.grants < e.shared.state.grants → e.shared.state.grants ≤ e.shared.state.grant_limit
    pub fresh : stale e.next + weight_of stale e.spawned ≡ 0

  abbrev pub KeepsIf :
      MapState setup → Pc K V E P → Option (Effect (MapState setup) (Pc K V E P)) → Type 0
  KeepsIf sh p none = Unit
  KeepsIf sh p (some e) = Keeps sh p e

  try_get-Keeps :
      (c : Caller K) (sh : MapState setup) (p : Pc K V E P)
      → Held sh
      → 0 < sh.state.grants
      → holds p ≡ 1
      → promises p ≡ 0
      → blocks p ≡ 0
      → stale {V = V} {E = E} {P = P} (settling send_grant c) ≡ 0
      → KeepsIf sh p (try_get setup c sh)
  unfolding try_get
  try_get-Keeps c sh p b pos h pr bl st = ground (
    arith,
    try_get_section-account laws sh.state pos,
    try_get_section-IsBalanced laws sh.state b pos,
  )

  handle-Keeps :
      (k : K) (id : ℕ) (h : Handle) (c : Choice V E P) (sh : MapState setup)
      → Held sh
      → holds {V = V} {E = E} {P = P} (handling k id h) ≤ sh.state.grants
      → h.terminated ≡ false
      → KeepsIf sh (handling k id h) (handle setup k id h c sh)
  unfolding handle
  handle-Keeps k id h detaches sh b le live = elim (Bool-cases h.detached) [
    | inl out ↦ ground arith
    | inr attached ↦ ground (
      arith,
      try_get-Keeps (handler k id h) sh (handling k id h) b (ground arith) (ground arith) refl refl
          (ground arith),
    )
  ]
  handle-Keeps k id h reattaches sh b le live =
      ground
        (arith, reattach_section-account laws sh.state, reattach_section-IsBalanced laws sh.state b)
  handle-Keeps k id h (exits (returns v e)) sh b le live = ground arith
  handle-Keeps k id h (exits goexits) sh b le live = ground arith
  handle-Keeps k id h (exits (panics p)) sh b le live = tt

  settle-Keeps :
      (next : Next K) (caller : Caller K) (sh : MapState setup)
      → Held sh
      → stale {V = V} {E = E} {P = P} (settling next caller) ≡ 0
      → KeepsIf sh (settling next caller) (settle setup next caller sh)
  unfolding settle
  settle-Keeps (retire none) worker sh b st = ground arith
  settle-Keeps (retire none) (handler j id h) sh b st = ground arith
  settle-Keeps (retire (some ch)) worker sh b st = ground arith
  settle-Keeps (retire (some ch)) (handler j id h) sh b st = ground arith
  settle-Keeps send_grant c sh b st = tt
  settle-Keeps (take_key k) worker sh b st = ground arith
  settle-Keeps (take_key k) (handler j id h) sh b st = ground arith

  schedule-Keeps :
      (e : Enqueue) (ks : List K) (after : After) (sh : MapState setup)
      → Held sh
      → KeepsIf sh (scheduling e ks after) (schedule setup e ks after sh)
  unfolding schedule
  schedule-Keeps e [] stop sh b = ground arith
  schedule-Keeps e [] (collect ids) sh b = ground arith
  schedule-Keeps e (k ∷ ks) after sh b = ground (
    arith,
    schedule_section-account laws e (k ∷ ks) sh.state,
    schedule_section-IsBalanced laws e (k ∷ ks) sh.state b,
  )

  collect_result-weights :
      (x : Exit V E P) (ids : List ℕ) (vs : List V)
      → (let p = collect_result setup x ids vs in
          (holds p ≡ 0) × (promises p ≡ 0) × (blocks p ≡ 0) × (stale p ≡ 0))
  unfolding collect_result
  collect_result-weights (returns v none) ids vs = ground arith
  collect_result-weights (returns v (some e)) ids vs = ground arith
  collect_result-weights (panics p) ids vs = ground arith
  collect_result-weights goexits ids vs = ground arith

  await-Keeps :
      (r : Option (Result V E P)) (id : ℕ) (ids : List ℕ) (vs : List V) (sh : MapState setup)
      → Held sh
      → KeepsIf sh (awaiting (id ∷ ids) vs) (await setup r ids vs sh)
  unfolding await
  await-Keeps none id ids vs sh b = tt
  await-Keeps (some r) id ids vs sh b = elim (Bool-cases (is_returned r)) [
    | inl ok ↦ rw ok (ground (arith, collect_result-weights (unwrap r) ids vs))
    | inr bad ↦ rw bad (ground arith)
  ]

  pub act-Keeps :
      (c : Choice V E P) (sh : MapState setup) (p : Pc K V E P)
      → Held sh
      → holds p ≤ sh.state.grants
      → stale p ≡ 0
      → KeepsIf sh p (act setup c sh p)
  unfolding act
  act-Keeps c sh (work none) b le st = try_get-Keeps worker sh (work none) b le refl refl refl refl
  act-Keeps c sh (work (some k)) b le st = ground arith
  act-Keeps c sh (handling k id h) b le st = handle-Keeps k id h c sh b le (ground arith)
  act-Keeps c sh (settling next caller) b le st = settle-Keeps next caller sh b st
  act-Keeps c sh (receiving k id h) b le st = tt
  act-Keeps c sh (informing e ks wants) b le st = ground arith
  act-Keeps c sh (scheduling e ks after) b le st = schedule-Keeps e ks after sh b
  act-Keeps c sh (granting (k ∷ ks) t after) b le st = ground arith
  act-Keeps c sh (granting [] zero stop) b le st = ground arith
  act-Keeps c sh (granting [] zero (collect ids)) b le st = ground arith
  act-Keeps c sh (granting [] (suc t) after) b le st = tt
  act-Keeps c sh (awaiting [] vs) b le st = ground arith
  act-Keeps c sh (awaiting (id ∷ ids) vs) b le st =
      await-Keeps (task_result id sh.table) id ids vs sh b
  act-Keeps c sh (replied r) b le st = tt
  act-Keeps c sh (limiting limit) b le st = ground (
    arith,
    limit_section-account laws limit sh.state,
    limit_section-IsBalanced laws limit sh.state b,
  )
  act-Keeps c sh (dequeuing cleanup) b le st =
      ground
        (arith, dequeue_section-account laws sh.state, dequeue_section-IsBalanced laws sh.state b)
  act-Keeps c sh (ejecting [] true) b le st = ground arith
  act-Keeps c sh (ejecting [] false) b le st = ground arith
  act-Keeps c sh (ejecting (id ∷ ids) cleanup) b le st = ground arith
  act-Keeps c sh joining b le st = ground (
    arith,
    wait_section-account laws sh.next_chan sh.state,
    wait_section-IsBalanced laws sh.next_chan sh.state b,
  )
  act-Keeps c sh (waiting ch) b le st = ground arith
  act-Keeps c sh finished b le st = tt
