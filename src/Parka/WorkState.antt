-- ===== src/Parka/WorkState.antt =====
-- `workState` of internal/parka/map.go, and what each method of Map does while it holds stateMu.
-- Counters are Go ints. `-` on ℕ stops at 0: where the source writes max(0, a - b) that is the
-- meaning, and `grants - 1` is reached only by the holder of a grant, with grants at least 1.
pub mod Accounts
mod Examples
pub mod Balance
pub mod Queue
use magic_mirror.Prelude.{
  ℕ, zero, suc, ◌+◌, ◌-◌, min, Bool, List, [], ◌∷◌, Option, none, some, take, drop, length, ltb,
  ◌==◌, if◌then◌else◌,
}
use magic_mirror.Parka.Int.{ℤ, max_one}
use magic_mirror.Parka.Deque.{DequeOps}

-- `emptied` is a channel's number, or `none` for nil.
pub record WorkState {ℓ} (Q : Type ℓ) : Type ℓ where
  pub grants : ℕ
  pub grant_limit : ℕ
  pub reattachers : ℕ
  pub keys : Q
  pub emptied : Option ℕ

-- What tryGetQueuedKey has to do once it has released the lock: `retire` with the channel to close,
-- if any, `send_grant` to a reattacher, or hand `take_key` to its caller, who keeps the grant.
pub data Next {ℓ} (K : Type ℓ) : Type ℓ where
  retire : Option ℕ → Next K
  send_grant : Next K
  take_key : K → Next K

-- The two `enqueueFunc`s.
pub data Enqueue : Type 0 where
  back front : Enqueue

module _ {ℓ} {K : Type ℓ} (ops : DequeOps K) where
  open ops use {Deque, len, push_back, push_front, pop_front, at}

  -- `for _, v := range all { d.PushBack(v) }`
  unfoldable pub push_all_back : Deque → List K → Deque
  push_all_back d [] = d
  push_all_back d (v ∷ all) = push_all_back (push_back d v) all

  -- `for _, v := range slices.Backward(all) { d.PushFront(v) }`: the last entry first.
  unfoldable pub push_all_front : Deque → List K → Deque
  push_all_front d [] = d
  push_all_front d (v ∷ all) = push_front (push_all_front d all) v

  unfoldable pub enqueue : Enqueue → Deque → List K → Deque
  unfolding push_all_back push_all_front
  enqueue back d all = push_all_back d all
  enqueue front d all = push_all_front d all

  -- `for i := range keys { keys[i] = m.state.keys.PopFront() }`; a panic ends the loop early.
  unfoldable pub pop_keys : ℕ → Deque → List K × Deque
  pop_keys zero d = ([], d)
  pop_keys (suc n) d = elim (pop_front d) [
    | none ↦ ([], d)
    | some (k, rest) ↦ let (ks, last) = pop_keys n rest in (k ∷ ks, last)
  ]

  -- `for i := range swapped.Len() { keys[i] = swapped.At(i) }`, from index `i` on, `n` rounds.
  unfoldable pub keys_from : Deque → ℕ → ℕ → List K
  keys_from d i zero = []
  keys_from d i (suc n) = elim (at d i) [ none ↦ [] | some k ↦ k ∷ keys_from d (suc i) n ]

  -- The section of `Limit`: the new state, the keys that get a grant, and the number of transfers.
  unfoldable pub limit_section : ℤ → WorkState Deque → WorkState Deque × List K × ℕ
  unfolding pop_keys
  limit_section limit s =
      let grant_limit = max_one limit in
      let issuable = grant_limit - s.grants in
      let transfers = min issuable s.reattachers in
      let workable = min (issuable - transfers) (len s.keys) in
      let (popped, rest) = pop_keys workable s.keys in
      (
        record s {
          grants = s.grants + transfers + workable;
          grant_limit = grant_limit;
          reattachers = s.reattachers - transfers;
          keys = rest;
        },
        popped,
        transfers,
      )

  -- The section of `scheduleNewKeys`: the new state, and the keys to work on at once.
  unfoldable pub schedule_section : Enqueue → List K → WorkState Deque → WorkState Deque × List K
  unfolding enqueue
  schedule_section e ks s =
      let new_grants = min (s.grant_limit - s.grants) (length ks) in
      (
        record s { grants = s.grants + new_grants; keys = enqueue e s.keys (drop new_grants ks) },
        take new_grants ks,
      )

  -- The last two cases of `tryGetQueuedKey`, by the result of PopFront.
  next_key : Option (K × Deque) → WorkState Deque → WorkState Deque × Next K
  next_key none s =
      if s.grants - 1 == 0
      then (record s { grants = s.grants - 1; emptied = none }, retire s.emptied)
      else (record s { grants = s.grants - 1 }, retire none)
  next_key (some (k, rest)) s = (record s { keys = rest }, take_key k)

  -- The section of `tryGetQueuedKey`.
  unfoldable pub try_get_section : WorkState Deque → WorkState Deque × Next K
  unfolding next_key
  try_get_section s =
      if ltb s.grant_limit s.grants
      then (record s { grants = s.grants - 1 }, retire none)
      else if ltb 0 s.reattachers
      then (record s { reattachers = s.reattachers - 1 }, send_grant)
      else if len s.keys == 0
      then next_key none s
      else next_key (pop_front s.keys) s

  -- The section of `handleReattach`: `true` if the caller must receive a grant.
  unfoldable pub reattach_section : WorkState Deque → WorkState Deque × Bool
  reattach_section s =
      if ltb s.grants s.grant_limit
      then (record s { grants = s.grants + 1 }, Bool.false)
      else (record s { reattachers = s.reattachers + 1 }, Bool.true)

  -- The part of the section of `DequeueAll` under stateMu: the queue is swapped for an empty one,
  -- and its keys are listed.
  unfoldable pub dequeue_section : WorkState Deque → WorkState Deque × List K
  unfolding keys_from
  dequeue_section s = (record s { keys = ops.empty }, keys_from s.keys 0 (len s.keys))

  -- The section of `Wait`, with the number of a channel that may be made: the channel to wait on.
  unfoldable pub wait_section : ℕ → WorkState Deque → WorkState Deque × Option ℕ
  wait_section fresh s = if s.grants == 0 then (s, none) else elim s.emptied [
    | none ↦ (record s { emptied = some fresh }, some fresh)
    | some ch ↦ (s, some ch)
  ]
