-- ===== src/Parka/System/Moved.antt =====
-- Every step of every goroutine of a map moves the pending keys as `Moved` says.
use magic_mirror.Prelude.{
  ℕ, zero, suc, ◌+◌, ◌≤◌, ◌<◌, ◌≡◌, refl, ap, Bool, true, false, List, [], ◌∷◌, Option, none, some,
  arith, weigh, weigh-append, length-set, Bool-cases, inl, inr,
}
use magic_mirror.Catch.{
  Exit, returns, panics, goexits, Result, is_returned, unwrap, return_result, goexit_result,
}
use magic_mirror.Parka.Deque.{DequeLaws}
use magic_mirror.Parka.WorkState.{
  Enqueue, back, front, schedule_section, limit_section, dequeue_section,
}
use magic_mirror.Parka.WorkState.Queue.{enqueued}
use magic_mirror.Parka.WorkState.Accounts.{
  limit_section-account, schedule_section-account, reattach_section-account,
  dequeue_section-account, wait_section-keys,
}
use magic_mirror.Parka.Tasks.{TaskTable, lookup, finish_task, task_result}
use magic_mirror.Parka.Tasks.Pending.{
  hit, pending, IsSound, AllLoose, get_or_create-Creates, finish_loose-pending,
}
use magic_mirror.Parka.Tasks.Removal.{remove_tasks-Removes, remove_tasks-pending}
use magic_mirror.Parka.Handle.{Handle, terminate}
use magic_mirror.Parka.Goroutine.{
  Setup, Pc, Choice, After, stop, collect, worker, handler, work, handling, settling, receiving,
  informing, scheduling, granting, awaiting, replied, limiting, dequeuing, ejecting, joining,
  waiting, finished, detaches, reattaches, exits,
}
use magic_mirror.Parka.System.{
  MapState, act, handle, schedule, await, collect_result, start_task, dequeue,
}
use magic_mirror.Parka.System.Weights.{holds, stale}
use magic_mirror.Parka.System.Places.{
  Table, Owns, carries, queued, MovedIf, try_get-Moved, finish-Moved, settle-Moved,
}

module _ {ℓ} {K V E P : Type ℓ} (setup : Setup K V E P) (j : K) (laws : DequeLaws setup.deque) where
  open setup use {same}

  -- The gate of the task that a goroutine handles is closed.
  abbrev pub IsUnfinished : MapState setup → Pc K V E P → Type 0
  IsUnfinished sh (handling k id h) = pending same k sh.table ≡ 1
  IsUnfinished sh _ = Unit

  start_task-Moved :
      (k : K) (o : Option ℕ) (sh : MapState setup)
      → lookup same k sh.table.tasks ≡ o
      → MovedIf setup j laws sh (work (some k)) (start_task setup k o sh)
  unfolding start_task
  start_task-Moved k none sh e = tt
  start_task-Moved k (some id) sh e = ground arith

  handle-Moved :
      (k : K) (id : ℕ) (h : Handle) (c : Choice V E P) (sh : MapState setup)
      → IsSound same sh.table
      → lookup same k sh.table.tasks ≡ some id
      → pending same k sh.table ≡ 1
      → (h.detached ≡ false → 0 < sh.state.grants)
      → MovedIf setup j laws sh (handling k id h) (handle setup k id h c sh)
  unfolding handle weigh
  handle-Moved k id h detaches sh v own unfinished held = elim (Bool-cases h.detached) [
    | inl out ↦ ground arith
    | inr attached ↦ ground (
      arith,
      try_get-Moved setup j laws (handler k id h) sh (handling k id h) (held attached) refl own,
    )
  ]
  handle-Moved k id h reattaches sh v own unfinished held =
      ground (arith, ap laws.items (reattach_section-account laws sh.state).queue)
  handle-Moved k id h (exits (returns r e)) sh v own unfinished held =
      finish-Moved setup j laws k id h (return_result r e) (terminate h).1 sh v own unfinished
  handle-Moved k id h (exits goexits) sh v own unfinished held =
      finish-Moved setup j laws k id h (goexit_result setup.zero_value) (terminate h).1 sh v own
        unfinished
  handle-Moved k id h (exits (panics p)) sh v own unfinished held = tt

  weigh-enqueued :
      (e : Enqueue) (f : K → ℕ) (old new : List K)
      → weigh f (enqueued e old new) ≡ weigh f old + weigh f new
  weigh-enqueued back f old new = weigh-append f old new
  weigh-enqueued front f old new = omega (arith, weigh-append f new old)

  schedule-Moved :
      (e : Enqueue) (ks : List K) (after : After) (sh : MapState setup)
      → MovedIf setup j laws sh (scheduling e ks after) (schedule setup e ks after sh)
  unfolding schedule weigh
  schedule-Moved e [] stop sh = ground arith
  schedule-Moved e [] (collect ids) sh = ground arith
  schedule-Moved e (k ∷ ks) after sh =
      let a = schedule_section-account laws e (k ∷ ks) sh.state in
      record {
        place = omega (
          arith,
          ap (weigh (hit same j)) a.queue,
          ap (weigh (hit same j)) a.split,
          weigh-enqueued e (hit same j) (laws.items sh.state.keys) a.later,
          weigh-append (hit same j) (schedule_section setup.deque e (k ∷ ks) sh.state).1 a.later,
        );
        owns = tt;
        owns_new = tt;
      }

  collect_result-carries :
      (x : Exit V E P) (ids : List ℕ) (vs : List V) (t : Table setup j)
      → (carries setup j (collect_result setup x ids vs) ≡ 0)
        × Owns setup j t (collect_result setup x ids vs)
  unfolding collect_result
  collect_result-carries (returns v none) ids vs t = (refl, tt)
  collect_result-carries (returns v (some e)) ids vs t = (refl, tt)
  collect_result-carries (panics p) ids vs t = (refl, tt)
  collect_result-carries goexits ids vs t = (refl, tt)

  await-Moved :
      (r : Option (Result V E P)) (id : ℕ) (ids : List ℕ) (vs : List V) (sh : MapState setup)
      → MovedIf setup j laws sh (awaiting (id ∷ ids) vs) (await setup r ids vs sh)
  unfolding await
  await-Moved none id ids vs sh = tt
  await-Moved (some r) id ids vs sh = elim (Bool-cases (is_returned r)) [
    | inl ok ↦ rw ok (ground (arith, collect_result-carries (unwrap r) ids vs sh.table))
    | inr bad ↦ rw bad (ground arith)
  ]

  dequeue-Moved :
      (cleanup : Bool) (sh : MapState setup)
      → IsSound same sh.table
      → queued setup j laws sh ≤ pending same j sh.table
      → MovedIf setup j laws sh (dequeuing cleanup) (dequeue setup cleanup sh)
  unfolding dequeue weigh
  dequeue-Moved cleanup sh v once =
      let a = dequeue_section-account laws sh.state in
      let ks : List K = (dequeue_section setup.deque sh.state).1 in
      let taken : weigh (hit same j) ks ≡ queued setup j laws sh = ap (weigh (hit same j)) a.2 in
      record {
        place = omega (
          arith,
          taken,
          ap (weigh (hit same j)) a.3,
          remove_tasks-pending same ks j sh.table v (omega arith),
        );
        owns = (remove_tasks-Removes same ks sh.table v).loose j;
        owns_new = tt;
      }

  pub AllLoose-finish :
      (id : ℕ) (r : Result V E P) (ids : List ℕ) (t : TaskTable K (Result V E P))
      → AllLoose same j t ids
      → AllLoose same j (finish_task id r t) ids
  AllLoose-finish id r [] t all = tt
  AllLoose-finish id r (i ∷ ids) t ((below, off), all) =
      ((omega (arith, length-set t.heap id (some r)), off), AllLoose-finish id r ids t all)

  -- What a step may rely on.
  pub record Ready (sh : MapState setup) (p : Pc K V E P) : Type ℓ where
    pub sound : IsSound same sh.table
    pub owned : Owns setup j sh.table p
    pub unfinished : IsUnfinished sh p
    pub queued_once : queued setup j laws sh ≤ pending same j sh.table
    pub held : 0 < holds p → 0 < sh.state.grants
    pub fresh : stale p ≡ 0

  pub act-Moved :
      (c : Choice V E P) (sh : MapState setup) (p : Pc K V E P)
      → Ready sh p
      → MovedIf setup j laws sh p (act setup c sh p)
  unfolding act weigh
  act-Moved c sh (work none) r =
      try_get-Moved setup j laws worker sh (work none) (r.held (omega arith)) refl tt
  act-Moved c sh (work (some k)) r = start_task-Moved k (lookup same k sh.table.tasks) sh refl
  act-Moved c sh (handling k id h) r =
      handle-Moved k id h c sh r.sound r.owned r.unfinished (λ e. r.held (ground (arith, r.fresh)))
  act-Moved c sh (settling next caller) r = settle-Moved setup j laws next caller sh r.owned
  act-Moved c sh (receiving k id h) r = tt
  act-Moved c sh (informing e ks wants) r =
      let made = get_or_create-Creates same ks sh.table r.sound in ground (arith, made.made j)
  act-Moved c sh (scheduling e ks after) r = schedule-Moved e ks after sh
  act-Moved c sh (granting (k ∷ ks) t after) r = ground arith
  act-Moved c sh (granting [] zero stop) r = ground arith
  act-Moved c sh (granting [] zero (collect ids)) r = ground arith
  act-Moved c sh (granting [] (suc t) after) r = tt
  act-Moved c sh (awaiting [] vs) r = ground arith
  act-Moved c sh (awaiting (id ∷ ids) vs) r = await-Moved (task_result id sh.table) id ids vs sh
  act-Moved c sh (replied reply) r = tt
  act-Moved c sh (limiting limit) r =
      let a = limit_section-account laws limit sh.state in
      ground (
        arith,
        ap (weigh (hit same j)) a.taken,
        weigh-append (hit same j) (limit_section setup.deque limit sh.state).1
            (laws.items (limit_section setup.deque limit sh.state).0.keys),
      )
  act-Moved c sh (dequeuing cleanup) r = dequeue-Moved cleanup sh r.sound r.queued_once
  act-Moved c sh (ejecting [] true) r = ground arith
  act-Moved c sh (ejecting [] false) r = ground arith
  act-Moved c sh (ejecting (id ∷ ids) cleanup) r = ground (
    arith,
    finish_loose-pending same j id (return_result setup.zero_value (some setup.task_ejected))
        sh.table r.owned.0,
    AllLoose-finish id (return_result setup.zero_value (some setup.task_ejected)) ids sh.table
        r.owned.1,
  )
  act-Moved c sh joining r =
      ground (arith, ap laws.items (wait_section-keys laws sh.next_chan sh.state))
  act-Moved c sh (waiting ch) r = ground arith
  act-Moved c sh finished r = tt
