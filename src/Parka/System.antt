-- ===== src/Parka/System.antt =====
-- The methods of internal/parka/map.go as steps of goroutines over the shared fields of a Map.
-- `act` is one step of one goroutine, and `none` where it is blocked or where the program crashes.
pub mod Places
pub mod Moved
pub mod OncePerKey
pub mod Keys
pub mod Changes
pub mod Runs
pub mod Weights
pub mod Local
pub mod Grants
pub mod Limit
pub mod Progress
use magic_mirror.Prelude.{
  ℕ, zero, suc, ◌+◌, ◌≡◌, Bool, true, false, not, ◌&&◌, List, [], ◌∷◌, ◌++◌, Option, none, some,
  set, get_elem?, if◌then◌else◌, ◌==◌,
}
use magic_mirror.Catch.{
  Exit, returns, panics, goexits, Result, is_returned, goexit_result, return_result, unwrap,
}
use magic_mirror.Parka.Int.{ℤ}
use magic_mirror.Parka.WorkState.{
  WorkState, Next, retire, send_grant, take_key, Enqueue, try_get_section, schedule_section,
  limit_section, reattach_section, dequeue_section, wait_section,
}
use magic_mirror.Parka.Handle.{
  Handle, Entry, new_handle, calls_map, no_effect, outside_lifetime, detach_entry, reattach_entry,
  set_detached, terminate,
}
use magic_mirror.Parka.Tasks.{lookup, get_or_create, remove_tasks, finish_task, task_result}
use magic_mirror.Parka.Goroutine.{
  Setup, Shared, Reply, values, failed, panicked, Caller, worker, handler, After, stop, collect, Pc,
  work, handling, settling, receiving, informing, scheduling, granting, awaiting, replied, limiting,
  dequeuing, ejecting, joining, waiting, finished, Choice, detaches, reattaches, exits, Effect,
  resume, after_grants,
}

module _ {ℓ} {K V E P : Type ℓ} (setup : Setup K V E P) where
  open setup use {same, deque, zero_value, task_ejected, handler_goexit}

  abbrev pub MapState : Type ℓ
  MapState = Shared deque.Deque K (Result V E P)

  abbrev Step : Type ℓ
  Step = Option (Effect MapState (Pc K V E P))

  abbrev go_on : MapState → Pc K V E P → Step
  go_on sh p = some (record { shared = sh; next = p; spawned = none })

  abbrev go_start : MapState → Pc K V E P → Pc K V E P → Step
  go_start sh p new = some (record { shared = sh; next = p; spawned = some new })

  -- `state` with the lock held.
  abbrev put_state : MapState → WorkState deque.Deque → MapState
  put_state sh st = record sh { state = st }

  -- `close(mustClose)`
  pub close_chan : ℕ → MapState → MapState
  close_chan ch sh = record sh { closed = λ c. if c == ch then true else sh.closed c }

  -- `task := m.tasks[key]`, then completeTask up to the handler's call.
  pub start_task : K → Option ℕ → MapState → Step
  start_task k none sh = none
  start_task k (some id) sh = go_on sh (handling k id new_handle)

  -- The section of tryGetQueuedKey, for a worker or a detaching handler.
  pub try_get : Caller K → MapState → Step
  try_get c sh =
      let (st, next) = try_get_section deque sh.state in go_on (put_state sh st) (settling next c)

  -- The deferred function of completeTask, once the handler has returned or is exiting; `detached`
  -- as `terminate` reports it. A worker that keeps its grant goes on; one that exits by Goexit
  -- passes it to a new worker.
  pub finish : ℕ → Result V E P → Bool → MapState → Step
  finish id r detached sh =
      let done = record sh {
        table = finish_task id r sh.table;
        tasks_handled = sh.tasks_handled + 1;
      } in
      if detached
      then go_on done finished
      else if is_returned r
      then go_on done (work none)
      else go_start done finished (work none)

  -- `Handle.Detach`, by what it does first. A call after the handler's end panics in the goroutine
  -- that makes it and touches nothing of the map: it is no step.
  pub detach_step : K → ℕ → Handle → Entry → MapState → Step
  unfolding try_get
  detach_step k id h outside_lifetime sh = none
  detach_step k id h calls_map sh = try_get (handler k id h) sh
  detach_step k id h no_effect sh = go_on sh (handling k id h)

  -- `Handle.Reattach`, by what it does first.
  pub reattach_step : K → ℕ → Handle → Entry → MapState → Step
  reattach_step k id h outside_lifetime sh = none
  reattach_step k id h calls_map sh =
      let (st, must_receive) = reattach_section deque sh.state in
      if must_receive
      then go_on (put_state sh st) (receiving k id h)
      else go_on (put_state sh st) (handling k id (set_detached false h))
  reattach_step k id h no_effect sh = go_on sh (handling k id h)

  -- What the handler does next, while it runs: Handle.Detach, Handle.Reattach, or an exit. A panic crashes the
  -- program.
  pub handle : K → ℕ → Handle → Choice V E P → MapState → Step
  unfolding detach_step reattach_step finish detach_entry reattach_entry terminate
  handle k id h detaches sh = detach_step k id h (detach_entry h) sh
  handle k id h reattaches sh = reattach_step k id h (reattach_entry h) sh
  handle k id h (exits (returns v e)) sh = finish id (return_result v e) (terminate h).1 sh
  handle k id h (exits goexits) sh = finish id (goexit_result zero_value) (terminate h).1 sh
  handle k id h (exits (panics p)) sh = none

  -- After the section of tryGetQueuedKey. SendGrant is a step of two goroutines (`send_grant_to`).
  pub settle : Next K → Caller K → MapState → Step
  unfolding close_chan
  settle (retire none) c sh = go_on sh (resume c)
  settle (retire (some ch)) c sh = go_on (close_chan ch sh) (resume c)
  settle send_grant c sh = none
  settle (take_key k) worker sh = go_on sh (work (some k))
  settle (take_key k) (handler j id h) sh =
      go_start sh (handling j id (set_detached true h)) (work (some k))

  -- `task.Wait` in the loop of Collect, once the gate is open.
  pub collect_result : Exit V E P → List ℕ → List V → Pc K V E P
  collect_result (returns v none) ids vs = awaiting ids (vs ++ v ∷ [])
  collect_result (returns v (some e)) ids vs = replied (failed e)
  collect_result (panics p) ids vs = replied (panicked p)
  collect_result goexits ids vs = finished

  pub await : Option (Result V E P) → List ℕ → List V → MapState → Step
  unfolding collect_result unwrap
  await none ids vs sh = none
  await (some r) ids vs sh =
      if not (is_returned r)
      then go_on sh (replied (panicked (some handler_goexit)))
      else go_on sh (collect_result (unwrap r) ids vs)

  -- `Inform`, `InformFront`, `Get` and `Collect`: getOrCreateTasks.
  pub inform : Enqueue → List K → Bool → MapState → Step
  unfolding get_or_create
  inform e ks wants sh =
      let (ids, new, table) = get_or_create same ks sh.table in
      go_on (record sh { table = table }) (scheduling e new (if wants then collect ids else stop))

  -- `scheduleNewKeys`
  pub schedule : Enqueue → List K → After → MapState → Step
  schedule e [] after sh = go_on sh (after_grants after)
  schedule e (k ∷ ks) after sh =
      let (st, immediate) = schedule_section deque e (k ∷ ks) sh.state in
      go_on (put_state sh st) (granting immediate 0 after)

  -- `DequeueAll`: both locks are held.
  pub dequeue : Bool → MapState → Step
  unfolding remove_tasks
  dequeue cleanup sh =
      let (st, ks) = dequeue_section deque sh.state in
      let (ids, table) = remove_tasks same ks sh.table in
      go_on (record sh { state = st; table = table }) (ejecting ids cleanup)

  pub eject : List ℕ → Bool → MapState → Step
  eject [] true sh = go_on sh joining
  eject [] false sh = go_on sh finished
  eject (id ∷ ids) cleanup sh =
      go_on
        (record sh {
          table = finish_task id (return_result zero_value (some task_ejected)) sh.table;
        })
        (ejecting ids cleanup)

  -- `if done != nil { <-done }`
  after_wait : Option ℕ → MapState → Step
  after_wait none sh = go_on sh finished
  after_wait (some ch) sh = go_on sh (waiting ch)

  -- `Wait`; a channel that its section may make has a number of its own.
  pub join : MapState → Step
  unfolding after_wait
  join sh =
      let (st, ch) = wait_section deque sh.next_chan sh.state in
      after_wait ch (record sh { state = st; next_chan = sh.next_chan + 1 })

  -- One step of one goroutine.
  unfoldable pub act : Choice V E P → MapState → Pc K V E P → Step
  unfolding lookup start_task try_get handle settle await inform schedule dequeue eject join
  act c sh (work none) = try_get worker sh
  act c sh (work (some k)) = start_task k (lookup same k sh.table.tasks) sh
  act c sh (handling k id h) = handle k id h c sh
  act c sh (settling next caller) = settle next caller sh
  act c sh (receiving k id h) = none
  act c sh (informing e ks wants) = inform e ks wants sh
  act c sh (scheduling e ks after) = schedule e ks after sh
  act c sh (granting (k ∷ ks) t after) = go_start sh (granting ks t after) (work (some k))
  act c sh (granting [] zero after) = go_on sh (after_grants after)
  act c sh (granting [] (suc t) after) = none
  act c sh (awaiting [] vs) = go_on sh (replied (values vs))
  act c sh (awaiting (id ∷ ids) vs) = await (task_result id sh.table) ids vs sh
  act c sh (replied r) = none
  act c sh (limiting limit) =
      let (st, ks, transfers) = limit_section deque limit sh.state in
      go_on (put_state sh st) (granting ks transfers stop)
  act c sh (dequeuing cleanup) = dequeue cleanup sh
  act c sh (ejecting ids cleanup) = eject ids cleanup sh
  act c sh joining = join sh
  act c sh (waiting ch) = if sh.closed ch then go_on sh finished else none
  act c sh finished = none
