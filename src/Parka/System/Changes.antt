-- ===== src/Parka/System/Changes.antt =====
-- What a step of a goroutine does to the task set of a map, and what that leaves to the others.
use magic_mirror.Prelude.{
  ℕ, zero, suc, ◌+◌, ◌≤◌, ◌≡◌, refl, sym, subst, ◌∙◌, ap, Bool, true, false, List, [], ◌∷◌, Option,
  none, some, arith, weigh, length-set, Bool-cases, inl, inr,
}
use magic_mirror.Catch.{returns, panics, goexits, Result, is_returned, return_result, goexit_result}
use magic_mirror.Parka.Deque.{DequeLaws}
use magic_mirror.Parka.WorkState.{
  Next, retire, send_grant, take_key, reattach_section, dequeue_section, wait_section,
}
use magic_mirror.Parka.WorkState.Accounts.{dequeue_section-account}
use magic_mirror.Parka.Tasks.{TaskTable, lookup, finish_task, task_result}
use magic_mirror.Parka.Tasks.Pending.{
  hit, hit_self, IsSound, IsLoose, AllLoose, get_or_create-Creates,
}
use magic_mirror.Parka.Tasks.Removal.{remove_tasks-Removes}
use magic_mirror.Parka.Handle.{
  Handle, Entry, outside_lifetime, calls_map, no_effect, detach_entry, reattach_entry, terminate,
}
use magic_mirror.Parka.Goroutine.{
  Setup, Pc, Choice, Effect, Caller, worker, handler, work, handling, settling, receiving,
  informing, scheduling, granting, awaiting, replied, limiting, dequeuing, ejecting, joining,
  waiting, finished, detaches, reattaches, exits,
}
use magic_mirror.Parka.System.{MapState, act, try_get, handle, settle, finish, await, start_task}
use magic_mirror.Parka.System.Places.{Owns, carries, queued}
use magic_mirror.Parka.Tasks.{get_or_create, remove_tasks}
use magic_mirror.Parka.Tasks.Removal.{fewer-IsLoose}
use magic_mirror.Parka.System.{join, after_wait, detach_step, reattach_step}
use magic_mirror.Parka.Tasks.Pending.{finish-IsSound}

module _ {ℓ} {K V E P : Type ℓ} (setup : Setup K V E P) (laws : DequeLaws setup.deque) where
  open setup use {same}

  -- The task set stays, or gets tasks for new keys, or has a task finished, or loses the queued keys.
  pub data Changes (sh : MapState setup) (t' : TaskTable K (Result V E P)) : Type ℓ where
    stays : t' ≡ sh.table → Changes sh t'
    created : (ks : List K) → t' ≡ (get_or_create same ks sh.table).2 → Changes sh t'
    finishes : (id : ℕ) (r : Result V E P) → t' ≡ finish_task id r sh.table → Changes sh t'
    removes :
        t' ≡ (remove_tasks same (dequeue_section setup.deque sh.state).1 sh.table).1 → Changes sh t'

  abbrev pub ChangesIf : MapState setup → Option (Effect (MapState setup) (Pc K V E P)) → Type ℓ
  ChangesIf sh none = Unit
  ChangesIf sh (some e) = Changes sh e.shared.table

  finish-Changes :
      (id : ℕ) (r : Result V E P) (detached : Bool) (sh : MapState setup)
      → ChangesIf sh (finish setup id r detached sh)
  unfolding finish
  finish-Changes id r true sh = finishes id r refl
  finish-Changes id r false sh = elim (Bool-cases (is_returned r)) [
    | inl e ↦ rw e (finishes id r refl)
    | inr e ↦ rw e (finishes id r refl)
  ]

  detach-Changes :
      (k : K) (id : ℕ) (h : Handle) (entry : Entry) (sh : MapState setup)
      → ChangesIf sh (detach_step setup k id h entry sh)
  unfolding detach_step try_get
  detach-Changes k id h outside_lifetime sh = tt
  detach-Changes k id h calls_map sh = stays refl
  detach-Changes k id h no_effect sh = stays refl

  reattach-Changes :
      (k : K) (id : ℕ) (h : Handle) (entry : Entry) (sh : MapState setup)
      → ChangesIf sh (reattach_step setup k id h entry sh)
  unfolding reattach_step
  reattach-Changes k id h outside_lifetime sh = tt
  reattach-Changes k id h calls_map sh =
      elim (Bool-cases (reattach_section setup.deque sh.state).1) [
        | inl e ↦ rw e (stays refl)
        | inr e ↦ rw e (stays refl)
      ]
  reattach-Changes k id h no_effect sh = stays refl

  handle-Changes :
      (k : K) (id : ℕ) (h : Handle) (c : Choice V E P) (sh : MapState setup)
      → ChangesIf sh (handle setup k id h c sh)
  unfolding handle
  handle-Changes k id h detaches sh = detach-Changes k id h (detach_entry h) sh
  handle-Changes k id h reattaches sh = reattach-Changes k id h (reattach_entry h) sh
  handle-Changes k id h (exits (returns v e)) sh =
      finish-Changes id (return_result v e) (terminate h).1 sh
  handle-Changes k id h (exits goexits) sh =
      finish-Changes id (goexit_result setup.zero_value) (terminate h).1 sh
  handle-Changes k id h (exits (panics p)) sh = tt

  start_task-Changes :
      (k : K) (o : Option ℕ) (sh : MapState setup) → ChangesIf sh (start_task setup k o sh)
  unfolding start_task
  start_task-Changes k none sh = tt
  start_task-Changes k (some id) sh = stays refl

  settle-Changes :
      (next : Next K) (c : Caller K) (sh : MapState setup) → ChangesIf sh (settle setup next c sh)
  unfolding settle
  settle-Changes (retire none) c sh = stays refl
  settle-Changes (retire (some ch)) c sh = stays refl
  settle-Changes send_grant c sh = tt
  settle-Changes (take_key k) worker sh = stays refl
  settle-Changes (take_key k) (handler i id h) sh = stays refl

  await-Changes :
      (r : Option (Result V E P)) (ids : List ℕ) (vs : List V) (sh : MapState setup)
      → ChangesIf sh (await setup r ids vs sh)
  unfolding await
  await-Changes none ids vs sh = tt
  await-Changes (some r) ids vs sh = elim (Bool-cases (is_returned r)) [
    | inl e ↦ rw e (stays refl)
    | inr e ↦ rw e (stays refl)
  ]

  after_wait-Changes :
      (ch : Option ℕ) (sh sh' : MapState setup)
      → sh'.table ≡ sh.table
      → ChangesIf sh (after_wait setup ch sh')
  unfolding after_wait
  after_wait-Changes none sh sh' e = stays e
  after_wait-Changes (some ch) sh sh' e = stays e

  join-Changes : (sh : MapState setup) → ChangesIf sh (join setup sh)
  unfolding join
  join-Changes sh = after_wait-Changes (wait_section setup.deque sh.next_chan sh.state).1 sh _ refl

  pub act-Changes :
      (c : Choice V E P) (sh : MapState setup) (p : Pc K V E P) → ChangesIf sh (act setup c sh p)
  unfolding act
  act-Changes c sh (work none) = stays refl
  act-Changes c sh (work (some k)) = start_task-Changes k (lookup same k sh.table.tasks) sh
  act-Changes c sh (handling k id h) = handle-Changes k id h c sh
  act-Changes c sh (settling next caller) = settle-Changes next caller sh
  act-Changes c sh (receiving k id h) = tt
  act-Changes c sh (informing e ks wants) = created ks refl
  act-Changes c sh (scheduling e [] after) = stays refl
  act-Changes c sh (scheduling e (k ∷ ks) after) = stays refl
  act-Changes c sh (granting (k ∷ ks) t after) = stays refl
  act-Changes c sh (granting [] zero after) = stays refl
  act-Changes c sh (granting [] (suc t) after) = tt
  act-Changes c sh (awaiting [] vs) = stays refl
  act-Changes c sh (awaiting (id ∷ ids) vs) = await-Changes (task_result id sh.table) ids vs sh
  act-Changes c sh (replied reply) = tt
  act-Changes c sh (limiting limit) = stays refl
  act-Changes c sh (dequeuing cleanup) = removes refl
  act-Changes c sh (ejecting [] true) = stays refl
  act-Changes c sh (ejecting [] false) = stays refl
  act-Changes c sh (ejecting (id ∷ ids) cleanup) =
      finishes id (return_result setup.zero_value (some setup.task_ejected)) refl
  act-Changes c sh joining = join-Changes sh
  act-Changes c sh (waiting ch) = elim (Bool-cases (sh.closed ch)) [
    | inl e ↦ rw e (stays refl)
    | inr e ↦ rw e tt
  ]
  act-Changes c sh finished = tt

  -- The task set stays sound.
  pub Changes-IsSound :
      (sh : MapState setup) (t' : TaskTable K (Result V E P))
      → Changes sh t'
      → IsSound same sh.table
      → IsSound same t'
  Changes-IsSound sh t' (stays e) v = subst (IsSound same) (sym e) v
  Changes-IsSound sh t' (created ks e) v =
      subst (IsSound same) (sym e) (get_or_create-Creates same ks sh.table v).sound
  Changes-IsSound sh t' (finishes id r e) v =
      subst (IsSound same) (sym e) (finish-IsSound same id r sh.table v)
  Changes-IsSound sh t' (removes e) v =
      subst (IsSound same) (sym e) (remove_tasks-Removes same _ sh.table v).sound

  -- A key that is not queued keeps its task.
  Changes-lookup :
      (sh : MapState setup) (t' : TaskTable K (Result V E P)) (k : K) (id : ℕ)
      → Changes sh t'
      → IsSound same sh.table
      → queued setup k laws sh ≡ 0
      → lookup same k sh.table.tasks ≡ some id
      → lookup same k t'.tasks ≡ some id
  Changes-lookup sh t' k id (stays e) v q own = ap (λ t. lookup same k t.tasks) e ∙ own
  Changes-lookup sh t' k id (created ks e) v q own =
      ap (λ t. lookup same k t.tasks) e ∙ (get_or_create-Creates same ks sh.table v).kept k id own
  Changes-lookup sh t' k id (finishes i r e) v q own = ap (λ t. lookup same k t.tasks) e ∙ own
  Changes-lookup sh t' k id (removes e) v q own =
      ap (λ t. lookup same k t.tasks) e
      ∙ (remove_tasks-Removes same (dequeue_section setup.deque sh.state).1 sh.table v).kept k
          (ap (weigh (hit same k)) (dequeue_section-account laws sh.state).2 ∙ q)
      ∙ own

  Changes-IsLoose :
      (sh : MapState setup) (t' : TaskTable K (Result V E P)) (j : K) (id : ℕ)
      → Changes sh t'
      → IsSound same sh.table
      → IsLoose same j sh.table id
      → IsLoose same j t' id
  Changes-IsLoose sh t' j id (stays e) v l = subst (λ t. IsLoose same j t id) (sym e) l
  Changes-IsLoose sh t' j id (created ks e) v l =
      subst (λ t. IsLoose same j t id) (sym e)
        ((get_or_create-Creates same ks sh.table v).loose j id l)
  Changes-IsLoose sh t' j id (finishes i r e) v (below, off) =
      subst (λ t. IsLoose same j t id) (sym e)
        (omega (arith, length-set sh.table.heap i (some r)), off)
  Changes-IsLoose sh t' j id (removes e) v l =
      let r = remove_tasks-Removes same (dequeue_section setup.deque sh.state).1 sh.table v in
      subst (λ t. IsLoose same j t id) (sym e)
        (fewer-IsLoose same j id sh.table _ r.heap (r.fewer j) l)

  Changes-AllLoose :
      (sh : MapState setup) (t' : TaskTable K (Result V E P)) (j : K) (ids : List ℕ)
      → Changes sh t'
      → IsSound same sh.table
      → AllLoose same j sh.table ids
      → AllLoose same j t' ids
  Changes-AllLoose sh t' j [] ch v all = tt
  Changes-AllLoose sh t' j (id ∷ ids) ch v (one, all) =
      (Changes-IsLoose sh t' j id ch v one, Changes-AllLoose sh t' j ids ch v all)

  -- A step of another goroutine leaves a goroutine what it owns, if the key that this one has in its
  -- hands is not queued as well.
  pub Changes-Owns :
      (sh : MapState setup) (t' : TaskTable K (Result V E P)) (j : K) (q : Pc K V E P)
      → Changes sh t'
      → IsSound same sh.table
      → ((k : K) → carries setup k q + queued setup k laws sh ≤ 1)
      → Owns setup j sh.table q
      → Owns setup j t' q
  Changes-Owns sh t' j (handling k id h) ch v once own =
      Changes-lookup sh t' k id ch v (omega (arith, once k, hit_self same k)) own
  Changes-Owns sh t' j (receiving k id h) ch v once own =
      Changes-lookup sh t' k id ch v (omega (arith, once k, hit_self same k)) own
  Changes-Owns sh t' j (settling next worker) ch v once own = tt
  Changes-Owns sh t' j (settling next (handler k id h)) ch v once own =
      Changes-lookup sh t' k id ch v (omega (arith, once k, hit_self same k)) own
  Changes-Owns sh t' j (ejecting ids cleanup) ch v once own = Changes-AllLoose sh t' j ids ch v own
  Changes-Owns sh t' j q ch v once own = tt
