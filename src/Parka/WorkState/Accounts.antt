-- ===== src/Parka/WorkState/Accounts.antt =====
-- What each critical section of map.go does to the numbers of grants and of reattachers, and which
-- keys it takes or leaves.
use magic_mirror.Prelude.{
  ℕ, ◌+◌, ◌-◌, ◌≤◌, ◌<◌, ◌≡◌, ◌∙◌, ◌≢◌, refl, inl, inr, List, [], ◌∷◌, ◌++◌, length, length-take,
  take-append-drop, min, arith, Bool, true, false, if◌then◌else◌, ap,
}
use magic_mirror.Parka.Int.{ℤ, max_one}
use magic_mirror.Parka.Deque.{DequeOps, DequeLaws}
use magic_mirror.Parka.WorkState.{
  WorkState, Next, retire, send_grant, take_key, Enqueue, limit_section, schedule_section,
  try_get_section, reattach_section, dequeue_section, wait_section,
}
use magic_mirror.Parka.WorkState.Queue.{enqueued, items-enqueue, pop_keys-items, keys_from-len}

-- The grants that an outcome of tryGetQueuedKey retires, the transfers that it announces, and the
-- keys that it takes.
module _ {ℓ} {K : Type ℓ} where
  abbrev pub retires : Next K → ℕ
  retires (retire ch) = 1
  retires _ = 0

  abbrev pub sends : Next K → ℕ
  sends send_grant = 1
  sends _ = 0

  abbrev pub takes : Next K → List K
  takes (take_key k) = k ∷ []
  takes _ = []

module _ {ℓ} {K : Type ℓ} {ops : DequeOps K} (laws : DequeLaws ops) where
  open ops use {Deque, len, pop_front}
  open laws use {items, pop_front-items, len-items, items-empty}

  -- `Limit` issues a grant for each transfer and for each key that it takes from the front of the
  -- queue, reattachers first, and never above the limit.
  pub record LimitAccount (limit : ℤ) (s s' : WorkState Deque) (ks : List K) (t : ℕ) : Type ℓ where
    pub set_to : s'.grant_limit ≡ max_one limit
    pub issued : s'.grants ≡ s.grants + t + length ks
    pub transferred : s'.reattachers + t ≡ s.reattachers
    pub taken : ks ++ items s'.keys ≡ items s.keys
    pub reattachers_first : 0 < length ks → s'.reattachers ≡ 0
    pub within : s'.grants ≢ s.grants → s'.grants ≤ s'.grant_limit

  -- The section of Limit sets the limit to max(1, limit); issues one grant for each transfer
  -- and each key that it takes; takes the keys from the front of the queue; takes keys only if
  -- every reattacher has got a grant; and issues grants within the limit only.
  pub limit_section-account :
      (limit : ℤ) (s : WorkState Deque)
      → (let (s', ks, t) = limit_section ops limit s in LimitAccount limit s s' ks t)
  unfolding limit_section
  limit_section-account limit s =
      let issuable : ℕ = max_one limit - s.grants in
      let workable : ℕ = min (issuable - min issuable s.reattachers) (len s.keys) in
      let (popped, rest) = pop_keys-items laws workable s.keys in
      let count = ap length popped ∙ length-take workable (items s.keys) in
      record {
        set_to = refl;
        issued = omega (arith, count, len-items s.keys);
        transferred = omega arith;
        taken = rw (popped, rest) (take-append-drop workable (items s.keys));
        reattachers_first = λ some_taken. omega (arith, count, len-items s.keys);
        within = λ h. omega arith;
      }

  -- `scheduleNewKeys` issues a grant for each key that it hands out, and enqueues the others.
  pub record ScheduleAccount (e : Enqueue) (ks : List K) (s s' : WorkState Deque) (now : List K)
      : Type ℓ where
    pub issued : s'.grants ≡ s.grants + length now
    pub reattachers : s'.reattachers ≡ s.reattachers
    pub limit : s'.grant_limit ≡ s.grant_limit
    pub later : List K
    pub split : now ++ later ≡ ks
    pub queue : items s'.keys ≡ enqueued e (items s.keys) later
    pub within : s'.grants ≢ s.grants → s'.grants ≤ s'.grant_limit

  -- The section of scheduleNewKeys splits the keys in order into those to work on now, for
  -- each of which it issues a grant within the limit, and those that it enqueues, at the back
  -- or at the front of the queue and in the order given; the limit and the reattachers stay.
  pub schedule_section-account :
      (e : Enqueue) (ks : List K) (s : WorkState Deque)
      → (let (s', now) = schedule_section ops e ks s in ScheduleAccount e ks s s' now)
  unfolding schedule_section
  schedule_section-account e ks s = record {
    issued = omega (arith, length-take (min (s.grant_limit - s.grants) (length ks)) ks);
    reattachers = refl;
    limit = refl;
    later = _;
    split = take-append-drop _ ks;
    queue = items-enqueue laws e s.keys _;
    within = λ h. omega arith;
  }

  -- tryGetQueuedKey, called with a grant held: the grant is retired, or goes to one reattacher, or
  -- stays with the caller for the first key of the queue.
  pub record TryAccount (s s' : WorkState Deque) (next : Next K) : Type ℓ where
    pub retired : s'.grants + retires next ≡ s.grants
    pub passed : s'.reattachers + sends next ≡ s.reattachers
    pub limit : s'.grant_limit ≡ s.grant_limit
    pub queue : items s.keys ≡ takes next ++ items s'.keys
    pub over_limit : s.grant_limit < s.grants → retires next ≡ 1
    pub reattacher_first : s.grants ≤ s.grant_limit → 0 < s.reattachers → sends next ≡ 1
    pub key_next :
        s.grants ≤ s.grant_limit
        → s.reattachers ≡ 0
        → 0 < length (items s.keys)
        → length (takes next) ≡ 1
    pub idle : s.reattachers ≡ 0 → length (items s.keys) ≡ 0 → retires next ≡ 1

  -- With a grant out, the section of tryGetQueuedKey retires the grant if more are out than the
  -- limit allows; else it passes it to a reattacher, if there is one, and takes one off their count;
  -- else it keeps it for the first key of the queue, if there is one; else it retires it. The grants
  -- drop by those retired, the queue loses just the key that is taken, and the limit stays.
  pub try_get_section-account :
      (s : WorkState Deque)
      → 0 < s.grants
      → (let (s', next) = try_get_section ops s in TryAccount s s' next)
  unfolding try_get_section
  try_get_section-account s held = elim (pop_front-items s.keys) [
    | inl (e, p) ↦ ground (arith, len-items s.keys)
    | inr (k, rest, e, p) ↦ ground (arith, len-items s.keys)
  ]

  -- handleReattach issues a grant if the limit allows one, and otherwise registers a reattacher.
  pub record ReattachAccount (s s' : WorkState Deque) (must_receive : Bool) : Type ℓ where
    pub issued : s'.grants ≡ s.grants + (if must_receive then 0 else 1)
    pub registered : s'.reattachers ≡ s.reattachers + (if must_receive then 1 else 0)
    pub limit : s'.grant_limit ≡ s.grant_limit
    pub queue : s'.keys ≡ s.keys
    pub within : must_receive ≡ false → s'.grants ≤ s'.grant_limit
    pub full : must_receive ≡ true → s.grant_limit ≤ s.grants

  pub reattach_section-account :
      (s : WorkState Deque)
      → (let (s', must_receive) = reattach_section ops s in ReattachAccount s s' must_receive)
  unfolding reattach_section
  reattach_section-account s = ground arith

  pub dequeue_section-account :
      (s : WorkState Deque)
      → (let (s', ks) = dequeue_section ops s in
          (s'.grants ≡ s.grants)
          × (s'.reattachers ≡ s.reattachers)
          × (ks ≡ items s.keys)
          × (items s'.keys ≡ []))
  unfolding dequeue_section
  dequeue_section-account s = (refl, refl, keys_from-len laws s.keys, items-empty)

  -- The section of `Wait` leaves the counters alone.
  pub wait_section-account :
      (fresh : ℕ) (s : WorkState Deque)
      → (let (s', ch) = wait_section ops fresh s in
          (s'.grants ≡ s.grants)
          × (s'.reattachers ≡ s.reattachers)
          × (s'.grant_limit ≡ s.grant_limit))
  unfolding wait_section
  wait_section-account fresh s = ground arith

  pub wait_section-keys :
      (fresh : ℕ) (s : WorkState Deque) → (wait_section ops fresh s).0.keys ≡ s.keys
  unfolding wait_section
  wait_section-keys fresh s = ground arith
