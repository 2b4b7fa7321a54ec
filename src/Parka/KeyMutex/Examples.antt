-- ===== src/Parka/KeyMutex/Examples.antt =====
-- Two goroutines that lock one key, and the theorems applied to them.
use magic_mirror.Prelude.{ℕ, ◌≡◌, ◌≢◌, ◌⊎◌, refl, true, false, some, ℕ_discrete}
use magic_mirror.Parka.KeyMutex.{
  locking, detaching, receiving, holding, Lockers, Reach, here, next, begin, enter, detach, move,
  start, lock_section, unlock_section, panicked, KeyMutex, empty_mutex,
}
use magic_mirror.Parka.KeyMutex.Invariant.{owns}
use magic_mirror.Parka.KeyMutex.Safety.{mutual_exclusion, waiter_woken, unlock_section-no_panic}

abbrev key : ℕ
key = 7

abbrev m : KeyMutex ℕ
m = (lock_section ℕ_discrete empty_mutex key).0

abbrev s1 : Lockers ℕ
s1 = move start empty_mutex 0 (locking key false false)

abbrev s2 : Lockers ℕ
s2 = move s1 m 0 (holding key)

abbrev s3 : Lockers ℕ
s3 = move s2 m 1 (locking key true false)

abbrev s4 : Lockers ℕ
s4 = move s3 m 1 (detaching key 0 true false)

-- Goroutine 0 holds the key, and goroutine 1, a handler that detached, is blocked on its channel.
abbrev contended : Lockers ℕ
contended = move s4 m 1 (receiving key 0 true true)

contended-Reach : Reach ℕ_discrete contended
unfolding lock_section ℕ_discrete
contended-Reach =
    next
      (next
        (next (next (next here (begin 0 key false refl)) (enter 0 key false false refl))
          (begin 1 key true refl))
        (enter 1 key true false refl))
      (detach 1 key 0 true false true refl)

mutual_exclusion_example : ◌≡◌ {A = ℕ} 0 0
unfolding lock_section ℕ_discrete
mutual_exclusion_example = mutual_exclusion ℕ_discrete contended-Reach 0 0 key refl refl

waiter_woken_example :
    (contended.mutex.closed 0 ≡ true)
    ⊎ ((contended.mutex.chans key ≡ some 0) × (j : ℕ) × (owns (contended.pc j) ≡ some key))
unfolding lock_section ℕ_discrete
waiter_woken_example = waiter_woken ℕ_discrete contended-Reach 1 key 0 true true refl

unlock_section-no_panic_example : unlock_section ℕ_discrete true contended.mutex key ≢ panicked
unfolding lock_section ℕ_discrete
unlock_section-no_panic_example = unlock_section-no_panic ℕ_discrete contended-Reach 0 key true refl
