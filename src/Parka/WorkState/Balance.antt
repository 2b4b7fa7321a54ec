-- ===== src/Parka/WorkState/Balance.antt =====
-- The invariants that map.go states for `workState`, and what each critical section does to them.
use magic_mirror.Prelude.{
  ℕ, ◌+◌, ◌-◌, ◌≤◌, ◌<◌, ◌≡◌, ◌≢◌, inl, inr, List, none, drop, length, length-drop, length-append,
  ap, min, arith,
}
use magic_mirror.Parka.Int.{ℤ, max_one, max_one_pos}
use magic_mirror.Parka.Deque.{DequeOps, DequeLaws}
use magic_mirror.Parka.WorkState.{
  WorkState, Enqueue, back, front, limit_section, schedule_section, try_get_section,
  reattach_section, dequeue_section, wait_section,
}
use magic_mirror.Parka.WorkState.Queue.{enqueued, items-enqueue, pop_keys-items}

length-enqueued {ℓ} :
    {K : Type ℓ} (e : Enqueue) (old new : List K)
    → length (enqueued e old new) ≡ length old + length new
length-enqueued back old new = length-append old new
length-enqueued front old new = omega (arith, length-append new old)

module _ {ℓ} {K : Type ℓ} {ops : DequeOps K} (laws : DequeLaws ops) where
  open ops use {Deque, len, pop_front}
  open laws use {items, pop_front-items, len-items, items-empty}

  -- The limit is at least 1; a grant that the limit allows is issued as soon as there is work for
  -- it; and a channel to close on emptiness exists only while grants are out.
  pub record IsBalanced (s : WorkState Deque) : Type 0 where
    pub limited : 1 ≤ s.grant_limit
    pub idle : s.grants < s.grant_limit → s.reattachers ≡ 0
    pub drained : s.grants < s.grant_limit → length (items s.keys) ≡ 0
    pub awaited : s.emptied ≢ none → 0 < s.grants

  -- The keys that `Limit` takes off the queue.
  abbrev workable : ℤ → WorkState Deque → ℕ
  workable limit s =
      let issuable = max_one limit - s.grants in
      min (issuable - min issuable s.reattachers) (len s.keys)

  pub limit_section-IsBalanced :
      (limit : ℤ) (s : WorkState Deque) → IsBalanced s → IsBalanced (limit_section ops limit s).0
  unfolding limit_section
  limit_section-IsBalanced limit s b = record {
    limited = max_one_pos limit;
    idle = λ h. omega arith;
    drained = λ h. omega (
      arith,
      ap length (pop_keys-items laws (workable limit s) s.keys).1,
      length-drop (workable limit s) (items s.keys),
      len-items s.keys,
    );
    awaited = λ h. omega (arith, b.awaited h);
  }

  pub schedule_section-IsBalanced :
      (e : Enqueue) (ks : List K) (s : WorkState Deque)
      → IsBalanced s
      → IsBalanced (schedule_section ops e ks s).0
  unfolding schedule_section
  schedule_section-IsBalanced e ks s b = record {
    limited = b.limited;
    idle = λ h. b.idle (omega arith);
    drained = λ h. omega (
      arith,
      ap length
          (items-enqueue laws e s.keys (drop (min (s.grant_limit - s.grants) (length ks)) ks)),
      length-enqueued e (items s.keys) (drop (min (s.grant_limit - s.grants) (length ks)) ks),
      length-drop (min (s.grant_limit - s.grants) (length ks)) ks,
      b.drained,
    );
    awaited = λ h. omega (arith, b.awaited h);
  }

  pub try_get_section-IsBalanced :
      (s : WorkState Deque) → IsBalanced s → 0 < s.grants → IsBalanced (try_get_section ops s).0
  unfolding try_get_section
  try_get_section-IsBalanced s b held = elim (pop_front-items s.keys) [
    | inl (e, p) ↦ ground (arith, len-items s.keys)
    | inr (k, rest, e, p) ↦ ground (arith, len-items s.keys)
  ]

  pub reattach_section-IsBalanced :
      (s : WorkState Deque) → IsBalanced s → IsBalanced (reattach_section ops s).0
  unfolding reattach_section
  reattach_section-IsBalanced s b = ground arith

  pub dequeue_section-IsBalanced :
      (s : WorkState Deque) → IsBalanced s → IsBalanced (dequeue_section ops s).0
  unfolding dequeue_section
  dequeue_section-IsBalanced s b = ground (arith, ap length items-empty)

  pub wait_section-IsBalanced :
      (fresh : ℕ) (s : WorkState Deque) → IsBalanced s → IsBalanced (wait_section ops fresh s).0
  unfolding wait_section
  wait_section-IsBalanced fresh s b = ground arith
