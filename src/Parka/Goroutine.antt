-- ===== src/Parka/Goroutine.antt =====
-- The goroutines of internal/parka/map.go: where each may stand between two accesses to shared
-- state, with the local variables that are live there. A critical section is one access.
use magic_mirror.Prelude.{ℕ, suc, Bool, true, false, List, [], Option, none, some}
use magic_mirror.Catch.{Exit}
use magic_mirror.Parka.Int.{ℤ}
use magic_mirror.Parka.Deque.{DequeOps}
use magic_mirror.Parka.WorkState.{WorkState, Next, send_grant, Enqueue}
use magic_mirror.Parka.Handle.{Handle, set_detached}
use magic_mirror.Parka.Tasks.{TaskTable}

-- What the Go program gives to a map: equality of keys, the deque package, the zero value of
-- V, and the values ErrTaskEjected and ErrHandlerGoexit.
pub record Setup {ℓ} (K V E P : Type ℓ) : Type (ℓ + 1) where
  pub same : Discrete K
  pub deque : DequeOps K
  pub zero_value : V
  pub task_ejected : E
  pub handler_goexit : P

-- The fields of `Map`, with the channels that `emptied` has held: the next channel's number, and
-- which are closed.
pub record Shared {ℓ} (Q K R : Type ℓ) : Type ℓ where
  pub state : WorkState Q
  pub table : TaskTable K R
  pub tasks_handled : ℕ
  pub next_chan : ℕ
  pub closed : ℕ → Bool

-- What a call returned to its caller: the values of Collect (one for Get), an error, or the panic
-- of a handler or with ErrHandlerGoexit.
pub data Reply {ℓ} (V E P : Type ℓ) : Type ℓ where
  values : List V → Reply V E P
  failed : E → Reply V E P
  panicked : Option P → Reply V E P

-- Who called tryGetQueuedKey: the loop of `work`, or handleDetach for a handler.
pub data Caller {ℓ} (K : Type ℓ) : Type ℓ where
  worker : Caller K
  handler : K → ℕ → Handle → Caller K

-- What follows the scheduling of new keys: nothing, or waiting for the results of tasks.
pub data After : Type 0 where
  stop : After
  collect : List ℕ → After

pub data Pc {ℓ} (K V E P : Type ℓ) : Type ℓ where
  -- `go m.work(&key)` and `go m.work(nil)`, at the head of the loop
  work : Option K → Pc K V E P
  -- in m.handle for a key and its task
  handling : K → ℕ → Handle → Pc K V E P
  -- after the section of tryGetQueuedKey
  settling : Next K → Caller K → Pc K V E P
  -- in ReceiveGrant
  receiving : K → ℕ → Handle → Pc K V E P
  -- a call of getTasks, before and after getOrCreateTasks; true: the results are collected
  informing : Enqueue → List K → Bool → Pc K V E P
  scheduling : Enqueue → List K → After → Pc K V E P
  -- the loops that start workers and send grants
  granting : List K → ℕ → After → Pc K V E P
  -- in Wait of the first task of a list, with the values so far
  awaiting : List ℕ → List V → Pc K V E P
  replied : Reply V E P → Pc K V E P
  limiting : ℤ → Pc K V E P
  -- DequeueAll, and its loop over the ejected tasks; true: as a part of Cleanup
  dequeuing : Bool → Pc K V E P
  ejecting : List ℕ → Bool → Pc K V E P
  -- Map.Wait, before its section and blocked on a channel
  joining : Pc K V E P
  waiting : ℕ → Pc K V E P
  finished : Pc K V E P

-- What the program around the map decides: a handler's next move.
pub data Choice {ℓ} (V E P : Type ℓ) : Type ℓ where
  detaches reattaches : Choice V E P
  exits : Exit V E P → Choice V E P

-- The effect of one access: the shared state, where the goroutine stands next, and a goroutine that
-- it started.
pub record Effect {ℓ} (S G : Type ℓ) : Type ℓ where
  pub shared : S
  pub next : G
  pub spawned : Option G

module _ {ℓ} {K V E P : Type ℓ} where
  -- Where the caller of tryGetQueuedKey goes on when no key was returned.
  abbrev pub resume : Caller K → Pc K V E P
  resume worker = finished
  resume (handler k id h) = handling k id (set_detached true h)

  abbrev pub after_grants : After → Pc K V E P
  after_grants stop = finished
  after_grants (collect ids) = awaiting ids []

  -- SendGrant meets ReceiveGrant: the goroutine that sends, afterwards.
  abbrev pub send_grant_to : Pc K V E P → Option (Pc K V E P)
  send_grant_to (settling send_grant c) = some (resume c)
  send_grant_to (granting [] (suc t) after) = some (granting [] t after)
  send_grant_to _ = none

  -- The goroutine that receives, afterwards.
  abbrev pub receive_grant : Pc K V E P → Option (Pc K V E P)
  receive_grant (receiving k id h) = some (handling k id (set_detached false h))
  receive_grant _ = none
