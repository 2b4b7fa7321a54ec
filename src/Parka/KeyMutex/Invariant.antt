-- ===== src/Parka/KeyMutex/Invariant.antt =====
-- What holds of a KeyMutex and the goroutines around it, in every state that they reach.
use magic_mirror.Prelude.{
  ℕ, ◌+◌, ◌<◌, ◌≡◌, ◌≢◌, ◌⊎◌, inl, inr, refl, Bool, true, false, Option, none, some, ℕ_discrete,
  arith, Option-cases, subst, sym, ◌∙◌,
}
use magic_mirror.Parka.KeyMutex.{
  KeyMutex, LockPc, idle, locking, detaching, receiving, reattaching, holding, Lockers, Step, begin,
  enter, detach, retry, reattach, pass, close, Reach, here, next, update, lock_section,
  unlock_section, closed_chan, try_detach, lock_returns, after_section,
}

module _ {K : Type 0} where
  -- the key that a goroutine has locked
  abbrev pub owns : LockPc K → Option K
  owns (reattaching key) = some key
  owns (holding key) = some key
  owns _ = none

  -- the key that it waits for, and the channel that it waits on
  abbrev pub awaits : LockPc K → Option (K × ℕ)
  awaits (detaching key ch handler detached) = some (key, ch)
  awaits (receiving key ch handler detached) = some (key, ch)
  awaits _ = none

  pub record Inv (m : KeyMutex K) (pc : ℕ → LockPc K) : Type 0 where
    pub locked : (i : ℕ) (k : K) → owns (pc i) ≡ some k → m.chans k ≢ none
    pub unique : (i j : ℕ) (k : K) → owns (pc i) ≡ some k → owns (pc j) ≡ some k → i ≡ j
    pub owner : (k : K) (ch : ℕ) → m.chans k ≡ some ch → (i : ℕ) × (owns (pc i) ≡ some k)
    pub open_chan :
        (k : K) (ch : ℕ) → m.chans k ≡ some ch → (m.closed ch ≡ false) × (ch < m.next_chan)
    pub separate : (j k : K) (ch : ℕ) → m.chans j ≡ some ch → m.chans k ≡ some ch → j ≡ k
    pub awaited :
        (i : ℕ) (k : K) (ch : ℕ)
        → awaits (pc i) ≡ some (k, ch)
        → (ch < m.next_chan) × ((m.closed ch ≡ true) ⊎ (m.chans k ≡ some ch))

-- A goroutine moves that owns the same key as before, or none, and waits for nothing stale.
quiet-Inv :
    {K : Type 0} (m : KeyMutex K) (pc : ℕ → LockPc K) (i : ℕ) (p : LockPc K)
    → Inv m pc
    → owns p ≡ owns (pc i)
    → ((k : K) (ch : ℕ)
        → awaits p ≡ some (k, ch)
        → (ch < m.next_chan) × ((m.closed ch ≡ true) ⊎ (m.chans k ≡ some ch)))
    → Inv m (update ℕ_discrete pc i p)
quiet-Inv m pc i p inv e w = record {
  locked = λ j k h. ground (arith, inv.locked j k);
  unique = λ a b k h h'. ground (arith, inv.unique a b k);
  owner = λ k ch h. let (j, own) = inv.owner k ch h in (j, ground arith);
  open_chan = inv.open_chan;
  separate = inv.separate;
  awaited = λ j k ch h. ground (arith, inv.awaited j k ch, w k ch);
}

module _ {K : Type 0} (same : Discrete K) (m : KeyMutex K) where
  abbrev locked_mutex : K → KeyMutex K
  locked_mutex key = record {
    chans = update same m.chans key (some m.next_chan);
    next_chan = m.next_chan + 1;
    closed = update ℕ_discrete m.closed m.next_chan false;
  }

  abbrev unlocked_mutex : K → ℕ → KeyMutex K
  unlocked_mutex key ch = record m {
    chans = update same m.chans key none;
    closed = update ℕ_discrete m.closed ch true;
  }

module _ {K : Type 0} (same : Discrete K) (m : KeyMutex K) (pc : ℕ → LockPc K)
    (inv : Inv m pc) where
  -- Goroutine i locks a free key.
  lock-Inv :
      (i : ℕ) (key : K) (p : LockPc K)
      → m.chans key ≡ none
      → owns (pc i) ≡ none
      → owns p ≡ some key
      → awaits p ≡ none
      → Inv (locked_mutex same m key) (update ℕ_discrete pc i p)
  lock-Inv i key p free before after calm = record {
    locked = λ j k h. ground (arith, inv.locked j k);
    unique = λ a b k h h'. ground (arith, inv.unique a b k, inv.locked a k, inv.locked b k);
    owner = λ k ch h. elim (same key k) [
      | yes e ↦ (i, ground arith)
      | no ne ↦ let (j, own) = inv.owner k ch (ground arith) in (j, ground arith)
    ];
    open_chan = λ k ch h. ground (arith, inv.open_chan k ch);
    separate =
        λ j k ch h h'. ground (arith, inv.separate j k ch, inv.open_chan j ch, inv.open_chan k ch);
    awaited = λ j k ch h. ground (arith, inv.awaited j k ch);
  }

  -- Goroutine i unlocks a key that no goroutine is blocked on.
  close-Inv :
      (i : ℕ) (key : K) (ch : ℕ)
      → pc i ≡ holding key
      → m.chans key ≡ some ch
      → Inv (unlocked_mutex same m key ch) (update ℕ_discrete pc i idle)
  close-Inv i key ch held chan = record {
    locked = λ j k h. ground (arith, inv.locked j k, inv.unique i j key);
    unique = λ a b k h h'. ground (arith, inv.unique a b k);
    owner = λ k c h. elim (same key k) [
      | yes e ↦ absurd (ground arith)
      | no ne ↦ let (j, own) = inv.owner k c (ground arith) in (j, ground arith)
    ];
    open_chan = λ k c h. ground (arith, inv.open_chan k c, inv.separate k key ch);
    separate = λ j k c h h'. ground (arith, inv.separate j k c);
    awaited = λ j k c h. ground (arith, inv.awaited j k c);
  }

  -- Goroutine i passes the lock to goroutine j.
  pass-Inv :
      (i j : ℕ) (key : K) (ch : ℕ) (handler detached : Bool)
      → pc i ≡ holding key
      → m.chans key ≡ some ch
      → pc j ≡ receiving key ch handler detached
      → Inv m (update ℕ_discrete (update ℕ_discrete pc i idle) j (lock_returns key detached))
  pass-Inv i j key ch handler detached held chan waits = record {
    locked = λ a k h. ground (arith, inv.locked a k, inv.locked i key);
    unique = λ a b k h h'. ground (arith, inv.unique a b k, inv.unique i a key, inv.unique i b key);
    owner = λ k c h. elim (same key k) [
      | yes e ↦ (j, ground arith)
      | no ne ↦ let (a, own) = inv.owner k c h in (a, ground arith)
    ];
    open_chan = inv.open_chan;
    separate = inv.separate;
    awaited = λ a k c h. ground (arith, inv.awaited a k c);
  }

module _ {K : Type 0} (same : Discrete K) where
  enter-Inv :
      (m : KeyMutex K) (pc : ℕ → LockPc K) (i : ℕ) (key : K) (handler detached : Bool)
      → Inv m pc
      → pc i ≡ locking key handler detached
      → Inv
          (lock_section same m key).0
          (update ℕ_discrete pc i (after_section key handler detached (lock_section same m key).1))
  unfolding lock_section
  enter-Inv m pc i key handler detached inv at = elim (Option-cases (m.chans key)) [
    | inl free ↦ rw free (
        lock-Inv same m pc inv i key (lock_returns key detached) free (ground arith) (ground arith)
          (ground arith))
    | inr (ch, taken) ↦ rw taken (
        quiet-Inv m pc i (detaching key ch handler detached) inv (ground arith)
          (λ k c h. ground (arith, inv.open_chan key ch)))
  ]

  closed_chan_inj : {m n : KeyMutex K} → closed_chan m ≡ closed_chan n → m ≡ n
  closed_chan_inj e = cc

  unlock_section-close :
      (m : KeyMutex K) (key : K) (ch : ℕ)
      → m.chans key ≡ some ch
      → m.closed ch ≡ false
      → unlock_section same false m key ≡ closed_chan (unlocked_mutex same m key ch)
  unfolding unlock_section
  unlock_section-close m key ch e still_open = rw (e, still_open) refl

  pub Step-Inv : {s t : Lockers K} → Step same s t → Inv s.mutex s.pc → Inv t.mutex t.pc
  unfolding unlock_section
  Step-Inv {s} (begin i key handler at) inv =
      quiet-Inv s.mutex s.pc i (locking key handler false) inv (ground arith) (λ k c h. absurd (cc))
  Step-Inv {s} (enter i key handler detached at) inv =
      enter-Inv s.mutex s.pc i key handler detached inv at
  Step-Inv {s} (detach i key ch handler detached answer at) inv =
      quiet-Inv s.mutex s.pc i (receiving key ch handler (try_detach handler detached answer)) inv
        (ground arith) (λ k c h. inv.awaited i k c (ground arith))
  Step-Inv {s} (retry i key ch handler detached at closed) inv =
      quiet-Inv s.mutex s.pc i (locking key handler detached) inv (ground arith)
        (λ k c h. absurd (cc))
  Step-Inv {s} (reattach i key at) inv =
      quiet-Inv s.mutex s.pc i (holding key) inv (ground arith) (λ k c h. absurd (cc))
  Step-Inv {s} (pass i j key key' ch handler detached held chan waits passed) inv =
      let same_key : key ≡ key' =
        ground (arith, inv.awaited j key' ch, inv.open_chan key ch, inv.separate key key' ch) in
      subst
        (λ w.
          Inv s.mutex
            (update ℕ_discrete (update ℕ_discrete s.pc i idle) j (lock_returns w detached)))
        same_key
        (pass-Inv same s.mutex s.pc inv i j key ch handler detached held chan (rw same_key waits))
  Step-Inv {s} (close i key ch m held chan alone closed) inv =
      subst (λ w. Inv w (update ℕ_discrete s.pc i idle))
        (closed_chan_inj
          (sym (unlock_section-close s.mutex key ch chan (inv.open_chan key ch chan).0) ∙ closed))
        (close-Inv same s.mutex s.pc inv i key ch held chan)

  pub Reach-Inv : {s : Lockers K} → Reach same s → Inv s.mutex s.pc
  Reach-Inv here = record {
    locked = λ i k h. absurd (cc);
    unique = λ i j k h h'. absurd (cc);
    owner = λ k ch h. absurd (cc);
    open_chan = λ k ch h. absurd (cc);
    separate = λ j k ch h h'. absurd (cc);
    awaited = λ i k ch h. absurd (cc);
  }
  Reach-Inv (next r st) = Step-Inv st (Reach-Inv r)
