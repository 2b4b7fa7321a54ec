-- ===== src/Parka/KeyMutex.antt =====
-- internal/parka/keymutex.go: a mutex for each key. A goroutine stands between two accesses to
-- shared state: the sections under chansMu, and the operations on channels.
pub mod Invariant
pub mod Safety
mod Examples
use magic_mirror.Prelude.{
  ℕ, ◌+◌, ◌≡◌, ◌≢◌, Bool, true, false, Option, none, some, ite, if◌then◌else◌, ℕ_discrete, ltb,
}

-- A map or an array, written at one place.
module _ {I A : Type 0} (same : Discrete I) where
  abbrev pub update : (I → A) → I → A → I → A
  update f i a j = ite (same i j) a (f j)

-- The map `chans`, and the channels that were made: the number of the next, and which are closed.
pub record KeyMutex (K : Type 0) : Type 0 where
  pub chans : K → Option ℕ
  pub next_chan : ℕ
  pub closed : ℕ → Bool

abbrev pub empty_mutex : {K : Type 0} → KeyMutex K
empty_mutex = record { chans = λ k. none; next_chan = 0; closed = λ c. false }

-- What the section of Unlock did.
pub data Unlocked (K : Type 0) : Type 0 where
  panicked : Unlocked K
  passed_to_waiter : Unlocked K
  closed_chan : KeyMutex K → Unlocked K

-- Where a goroutine stands. `handler` tells LockDetached from Lock, and `detached` is the local
-- variable of `lock`.
pub data LockPc (K : Type 0) : Type 0 where
  idle : LockPc K
  -- at the head of the loop of `lock`
  locking : K → Bool → Bool → LockPc K
  -- with the channel of another holder, before tryDetach
  detaching : K → ℕ → Bool → Bool → LockPc K
  -- at `<-ch`
  receiving : K → ℕ → Bool → Bool → LockPc K
  -- in the deferred reattach
  reattaching : K → LockPc K
  holding : K → LockPc K

module _ {K : Type 0} (same : Discrete K) where
  lock_chan : KeyMutex K → K → Option ℕ → KeyMutex K × Option ℕ
  lock_chan km key (some ch) = (km, some ch)
  lock_chan km key none = (
    record {
      chans = update same km.chans key (some km.next_chan);
      next_chan = km.next_chan + 1;
      closed = update ℕ_discrete km.closed km.next_chan false;
    },
    none,
  )

  -- The section of `lock`: the channel to wait on, or none where the lock was free.
  unfoldable pub lock_section : KeyMutex K → K → KeyMutex K × Option ℕ
  unfolding lock_chan
  lock_section km key = lock_chan km key (km.chans key)

  unlock_chan : Bool → KeyMutex K → K → Option ℕ → Unlocked K
  unlock_chan receiver km key none = panicked
  unlock_chan receiver km key (some ch) =
      if km.closed ch
      then panicked
      else if receiver
      then passed_to_waiter
      else closed_chan (record km {
        chans = update same km.chans key none;
        closed = update ℕ_discrete km.closed ch true;
      })

  -- The section of Unlock: it panics if the key is not locked, and the runtime panics on a send to a
  -- closed channel and on closing one. `receiver`: a goroutine is blocked in a receive from the key's channel.
  unfoldable pub unlock_section : Bool → KeyMutex K → K → Unlocked K
  unfolding unlock_chan
  unlock_section receiver km key = unlock_chan receiver km key (km.chans key)

-- Leaving `lock` with the key held: the deferred function runs first.
abbrev pub lock_returns : {K : Type 0} → K → Bool → LockPc K
lock_returns key detached = if detached then reattaching key else holding key

abbrev pub after_section : {K : Type 0} → K → Bool → Bool → Option ℕ → LockPc K
after_section key handler detached none = lock_returns key detached
after_section key handler detached (some ch) = detaching key ch handler detached

-- tryDetach: `detach` is called unless it succeeded before; noopDetach of Lock returns false.
abbrev pub try_detach : Bool → Bool → Bool → Bool
try_detach handler detached answer = if detached then true else (if handler then answer else false)

pub record Lockers (K : Type 0) : Type 0 where
  pub mutex : KeyMutex K
  pub pc : ℕ → LockPc K

module _ {K : Type 0} where
  -- the channel that a goroutine is blocked on
  abbrev pub receives : LockPc K → Option ℕ
  receives (receiving key ch handler detached) = some ch
  receives _ = none

  abbrev pub move : Lockers K → KeyMutex K → ℕ → LockPc K → Lockers K
  move s m i p = record { mutex = m; pc = update ℕ_discrete s.pc i p }

  abbrev pub start : Lockers K
  start = record { mutex = empty_mutex; pc = λ i. idle }

module _ {K : Type 0} (same : Discrete K) where
  -- One access of goroutine i. A goroutine unlocks only what it holds.
  pub data Step (s : Lockers K) : Lockers K → Type 0 where
    begin :
        (i : ℕ) (key : K) (handler : Bool)
        → s.pc i ≡ idle
        → Step s (move s s.mutex i (locking key handler false))
    enter :
        (i : ℕ) (key : K) (handler detached : Bool)
        → s.pc i ≡ locking key handler detached
        → Step s (
            move s
              (lock_section same s.mutex key).0
              i
              (after_section key handler detached (lock_section same s.mutex key).1))
    detach :
        (i : ℕ) (key : K) (ch : ℕ) (handler detached answer : Bool)
        → s.pc i ≡ detaching key ch handler detached
        → Step s (move s s.mutex i (receiving key ch handler (try_detach handler detached answer)))
    retry :
        (i : ℕ) (key : K) (ch : ℕ) (handler detached : Bool)
        → s.pc i ≡ receiving key ch handler detached
        → s.mutex.closed ch ≡ true
        → Step s (move s s.mutex i (locking key handler detached))
    reattach :
        (i : ℕ) (key : K) → s.pc i ≡ reattaching key → Step s (move s s.mutex i (holding key))
    -- the send of Unlock meets the receive of goroutine j
    pass :
        (i j : ℕ) (key key' : K) (ch : ℕ) (handler detached : Bool)
        → s.pc i ≡ holding key
        → s.mutex.chans key ≡ some ch
        → s.pc j ≡ receiving key' ch handler detached
        → unlock_section same true s.mutex key ≡ passed_to_waiter
        → Step s (record {
          mutex = s.mutex;
          pc = update ℕ_discrete (update ℕ_discrete s.pc i idle) j (lock_returns key' detached);
        })
    close :
        (i : ℕ) (key : K) (ch : ℕ) (m : KeyMutex K)
        → s.pc i ≡ holding key
        → s.mutex.chans key ≡ some ch
        → ((j : ℕ) → receives (s.pc j) ≢ some ch)
        → unlock_section same false s.mutex key ≡ closed_chan m
        → Step s (move s m i idle)

  pub data Reach : Lockers K → Type 0 where
    here : Reach start
    next : {s t : Lockers K} → Reach s → Step s t → Reach t
