-- ===== src/Parka/Examples.antt =====
-- Runs of maps with numbers for keys, and the theorems of this part at them.
use magic_mirror.Prelude.{
  ℕ, ◌≤◌, ◌<◌, ◌≡◌, ◌≢◌, ◌⊎◌, some, get_elem?, refl, true, false, List, [], ◌∷◌, ◌++◌, none, arith,
  weigh, set, length, ℕ_discrete,
}
use magic_mirror.Catch.{returns, return_result}
use magic_mirror.Parka.Int.{pos}
use magic_mirror.Parka.Deque.{list_deque-laws}
use magic_mirror.Parka.WorkState.{
  back, send_grant, try_get_section, limit_section, schedule_section, reattach_section,
}
use magic_mirror.Parka.Tasks.{lookup}
use magic_mirror.Parka.Goroutine.{
  informing, limiting, receiving, detaches, reattaches, exits, settling, worker, finished,
}
use magic_mirror.Parka.System.{act}
use magic_mirror.Parka.System.Runs.{World, Moves}
use magic_mirror.Parka.System.Grants.{IsAccounted, Reach-IsAccounted}
use magic_mirror.Parka.System.Places.{carries, queued}
use magic_mirror.Parka.System.OncePerKey.{
  handles, handler_runs_once, pending_key-known, handled_task-pending,
}
use magic_mirror.Parka.Tasks.Pending.{pending}
use magic_mirror.Parka.System.Progress.{send_grant-progress, idle_map-done}
use magic_mirror.Parka.Schedule.{numbers, Command, go, chosen, call, Run, run, Routine}

-- Limit 1; keys 10 and 11; the handler of 10 detaches, the worker of 11 starts, and 10 waits to
-- reattach. Goroutine 0 calls Limit, 1 calls Inform, 2 works on 10, 3 on 11.
abbrev contended : List Command
contended =
    call (limiting (pos 1))
    ∷ go 0
    ∷ go 0
    ∷ call (informing back (10 ∷ 11 ∷ []) false)
    ∷ go 1
    ∷ go 1
    ∷ go 1
    ∷ go 1
    ∷ go 2
    ∷ chosen 2 detaches
    ∷ go 2
    ∷ chosen 2 reattaches
    ∷ go 3
    ∷ chosen 3 (exits (returns 7 none))
    ∷ go 3
    ∷ []

before_transfer : Run 5
unfolding run act try_get_section limit_section schedule_section reattach_section lookup ℕ_discrete
    return_result
before_transfer = run 5 contended

-- The handler of 11 has returned, and its worker must send its grant to the handler of 10.
before_transfer_routines :
    before_transfer.threads
    ≡ finished
      ∷ finished
      ∷ receiving 10 0 (record { detached = true; terminated = false })
      ∷ settling send_grant worker
      ∷ []
unfolding before_transfer
before_transfer_routines = refl

send_grant-progress_example :
    (j : ℕ) × (q' : Routine) × Moves numbers before_transfer.last
      (record before_transfer.last { threads = set (set before_transfer.threads 3 finished) j q' })
unfolding before_transfer
send_grant-progress_example =
    send_grant-progress numbers list_deque-laws 3 (settling send_grant worker) finished
      (omega arith) before_transfer.reach refl refl

Reach-IsAccounted_example : IsAccounted numbers list_deque-laws before_transfer.last
Reach-IsAccounted_example =
    Reach-IsAccounted numbers list_deque-laws (omega arith) before_transfer.reach

-- Limit 1, and nothing else: the map is idle.
limited : Run 5
unfolding run act limit_section
limited = run 5 (call (limiting (pos 1)) ∷ go 0 ∷ go 0 ∷ [])

idle_map-done_example :
    (length limited.shared.state.keys ≡ 0)
    × (limited.shared.state.reattachers ≡ 0)
    × ¬ (limited.shared.state.emptied ≢ none)
unfolding limited weigh
idle_map-done_example = idle_map-done numbers list_deque-laws (omega arith) limited.reach refl

-- From the idle map with limit 1, one more call.
informed : World numbers
unfolding limited
informed = record limited.last { threads = limited.threads ++ informing back (10 ∷ []) false ∷ [] }

handler_runs_once_example :
    (weigh (handles numbers 10) before_transfer.threads ≤ 1)
    × (pending ℕ_discrete 10 before_transfer.shared.table ≡ 0
        → weigh (handles numbers 10) before_transfer.threads ≡ 0)
    × (0 < queued numbers 10 list_deque-laws before_transfer.shared
        → weigh (handles numbers 10) before_transfer.threads ≡ 0)
handler_runs_once_example =
    handler_runs_once numbers list_deque-laws 10 (omega arith) before_transfer.reach

pending_key-known_example :
    ((queued numbers 10 list_deque-laws before_transfer.shared ≡ 1)
      × (weigh (carries numbers 10) before_transfer.threads ≡ 0))
    ⊎ ((queued numbers 10 list_deque-laws before_transfer.shared ≡ 0)
        × ((i : ℕ) × (p : Routine) × (get_elem? before_transfer.threads i ≡ some p)
            × (carries numbers 10 p ≡ 1)))
unfolding before_transfer
pending_key-known_example =
    pending_key-known numbers list_deque-laws 10 (omega arith) before_transfer.reach refl

-- The same run up to the reattachment of the handler of 10, while 11 is handled.
handling_both : Run 5
unfolding run act try_get_section limit_section schedule_section reattach_section lookup ℕ_discrete
handling_both = run 5 (
    call (limiting (pos 2))
    ∷ go 0
    ∷ go 0
    ∷ call (informing back (10 ∷ 11 ∷ 10 ∷ []) false)
    ∷ go 1
    ∷ go 1
    ∷ go 1
    ∷ go 1
    ∷ go 2
    ∷ [])

handled_task-pending_example :
    (lookup ℕ_discrete 10 before_transfer.shared.table.tasks ≡ some 0)
    × (pending ℕ_discrete 10 before_transfer.shared.table ≡ 1)
unfolding before_transfer
handled_task-pending_example =
    handled_task-pending numbers list_deque-laws 2 10 0 _ (omega arith) before_transfer.reach refl
      refl
