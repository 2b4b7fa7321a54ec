-- ===== src/Parka/KeyMutex/Safety.antt =====
-- What internal/parka/keymutex.go promises to its callers.
use magic_mirror.Prelude.{
  ℕ, ◌≡◌, ◌≢◌, ◌⊎◌, inl, inr, Bool, true, some, arith, none, ◌↔◌, Option-cases,
}
use magic_mirror.Parka.KeyMutex.{
  receiving, holding, Lockers, Reach, unlock_section, panicked, lock_section,
}
use magic_mirror.Parka.KeyMutex.Invariant.{owns, Reach-Inv}

module _ {K : Type 0} (same : Discrete K) where
  -- In every state that goroutines reach by locking and unlocking, at most one goroutine has a given
  -- key locked: holds it, or is in the deferred reattach of `lock`, which runs with the key locked.
  pub mutual_exclusion :
      {s : Lockers K}
      → Reach same s
      → (i j : ℕ) (key : K) → owns (s.pc i) ≡ some key
      → owns (s.pc j) ≡ some key
      → i ≡ j
  mutual_exclusion r i j key own_i own_j = (Reach-Inv same r).unique i j key own_i own_j

  -- No waiter is lost: in every state that goroutines reach, one that is blocked on a channel for a
  -- key finds the channel closed, and goes round the loop, or the key is locked by a goroutine, and
  -- the channel is the one that its Unlock sends to or closes.
  pub waiter_woken :
      {s : Lockers K}
      → Reach same s
      → (i : ℕ) (key : K) (ch : ℕ) (handler detached : Bool)
      → s.pc i ≡ receiving key ch handler detached
      → (s.mutex.closed ch ≡ true)
        ⊎ ((s.mutex.chans key ≡ some ch) × (j : ℕ) × (owns (s.pc j) ≡ some key))
  waiter_woken r i key ch handler detached at =
      elim ((Reach-Inv same r).awaited i key ch (ground arith)).1 [
        | inl closed ↦ inl closed
        | inr taken ↦ let (j, own) = (Reach-Inv same r).owner key ch taken in inr (taken, j, own)
      ]

  -- In every state that goroutines reach, Unlock by a goroutine that holds the key does not panic,
  -- whether a waiter is ready or not: the key is locked, and the channel that it sends to or closes
  -- is not closed.
  pub unlock_section-no_panic :
      {s : Lockers K}
      → Reach same s
      → (i : ℕ) (key : K) (receiver : Bool) → s.pc i ≡ holding key
      → unlock_section same receiver s.mutex key ≢ panicked
  unfolding unlock_section
  unlock_section-no_panic {s} r i key receiver at =
      let inv = Reach-Inv same r in
      let locked = inv.locked i key (ground arith) in
      elim (Option-cases (s.mutex.chans key)) [
        | inl free ↦ absurd (locked free)
        | inr (ch, taken) ↦ let still_open = (inv.open_chan key ch taken).0 in ground arith
      ]

  -- In every state that goroutines reach, the section of `lock` takes the key at once if and only if
  -- no goroutine has it locked.
  pub lock_section_free :
      {s : Lockers K}
      → Reach same s
      → (key : K)
      → ((lock_section same s.mutex key).1 ≡ none) ↔ ((j : ℕ) → owns (s.pc j) ≢ some key)
  unfolding lock_section
  lock_section_free {s} r key = elim (Option-cases (s.mutex.chans key)) [
    | inl free ↦ (λ e j own. (Reach-Inv same r).locked j key own free, λ h. rw free)
    | inr (ch, taken) ↦ (
      (λ e j own. absurd (ground arith)),
      λ h. let (j, own) = (Reach-Inv same r).owner key ch taken in absurd (h j own),
    )
  ]
