-- ===== src/Parka/WorkState/Examples.antt =====
-- The accounts of the critical sections at a state with a reattacher and queued keys.
use magic_mirror.Prelude.{ℕ, ◌≡◌, refl, List, [], ◌∷◌, none, arith}
use magic_mirror.Parka.Int.{pos, negsuc}
use magic_mirror.Parka.Deque.{list_deque, list_deque-laws}
use magic_mirror.Parka.WorkState.{
  WorkState, front, limit_section, schedule_section, try_get_section,
}
use magic_mirror.Parka.WorkState.Accounts.{
  LimitAccount, ScheduleAccount, TryAccount, limit_section-account, schedule_section-account,
  try_get_section-account,
}

abbrev busy : WorkState (List ℕ)
busy = record {
  grants = 1;
  grant_limit = 1;
  reattachers = 1;
  keys = 10 ∷ 11 ∷ 12 ∷ [];
  emptied = none;
}

limit_section-account_example :
    (let (s', ks, t) = limit_section list_deque (pos 3) busy in
      LimitAccount list_deque-laws (pos 3) busy s' ks t)
limit_section-account_example = limit_section-account list_deque-laws (pos 3) busy

-- A raised limit serves the reattacher first, then the front of the queue.
limit_raised : limit_section list_deque (pos 3) busy ≡ (
  record busy { grants = 3; grant_limit = 3; reattachers = 0; keys = 11 ∷ 12 ∷ [] },
  10 ∷ [],
  1,
)
unfolding limit_section
limit_raised = refl

limit_negative : limit_section list_deque (negsuc 4) busy ≡ (busy, [], 0)
unfolding limit_section
limit_negative = refl

schedule_section-account_example :
    (let (s', now) = schedule_section list_deque front (7 ∷ 8 ∷ []) busy in
      ScheduleAccount list_deque-laws front (7 ∷ 8 ∷ []) busy s' now)
schedule_section-account_example = schedule_section-account list_deque-laws front (7 ∷ 8 ∷ []) busy

schedule_front :
    schedule_section list_deque front (7 ∷ 8 ∷ []) busy
    ≡ (record busy { keys = 7 ∷ 8 ∷ 10 ∷ 11 ∷ 12 ∷ [] }, [])
unfolding schedule_section
schedule_front = refl

try_get_section-account_example :
    (let (s', next) = try_get_section list_deque busy in TryAccount list_deque-laws busy s' next)
try_get_section-account_example = try_get_section-account list_deque-laws busy (omega arith)
