-- ===== src/Parka/System/OncePerKey.antt =====
-- A map runs the handler of a key once, and loses no key.
use magic_mirror.Prelude.{
  ℕ, ◌≤◌, ◌<◌, ◌≡◌, ◌⊎◌, inl, inr, List, [], ◌∷◌, Option, none, some, arith, get_elem?, weigh,
  weigh_pos, weigh-get_elem?, dec_lt,
}
use magic_mirror.Parka.Deque.{DequeLaws}
use magic_mirror.Parka.Tasks.{TaskTable, lookup}
use magic_mirror.Parka.Tasks.Pending.{hit, hit_self, pending, pending-le}
use magic_mirror.Parka.Goroutine.{Setup, Pc, handling, receiving, settling, handler}
use magic_mirror.Catch.{Result}
use magic_mirror.Parka.System.Runs.{World, Reach}
use magic_mirror.Parka.System.Places.{carries, queued, Owns}
use magic_mirror.Parka.System.Keys.{Reach-IsKeyed}

module _ {ℓ} {K V E P : Type ℓ} (setup : Setup K V E P) where
  open setup use {same}

  -- Whether a goroutine is in the handler for a key, also while that is in Detach or blocked in
  -- Reattach.
  abbrev pub handles : K → Pc K V E P → ℕ
  handles j (handling k id h) = hit same j k
  handles j (receiving k id h) = hit same j k
  handles j (settling next (handler k id h)) = hit same j k
  handles j _ = 0

  -- The key and the task of the handler that a goroutine is in.
  abbrev pub handled_task : Pc K V E P → Option (K × ℕ)
  handled_task (handling k id h) = some (k, id)
  handled_task (receiving k id h) = some (k, id)
  handled_task (settling next (handler k id h)) = some (k, id)
  handled_task _ = none

  handled_task-carries :
      (k : K) (id : ℕ) (p : Pc K V E P) → handled_task p ≡ some (k, id) → 1 ≤ carries setup k p
  handled_task-carries k id (handling j i h) e =
      let same_key : j ≡ k = cc in ground (arith, hit_self same k)
  handled_task-carries k id (receiving j i h) e =
      let same_key : j ≡ k = cc in ground (arith, hit_self same k)
  handled_task-carries k id (settling next (handler j i h)) e =
      let same_key : j ≡ k = cc in ground (arith, hit_self same k)
  handled_task-carries k id p e = absurd cc

  handled_task-lookup :
      (j k : K) (id : ℕ) (t : TaskTable K (Result V E P)) (p : Pc K V E P)
      → handled_task p ≡ some (k, id)
      → Owns setup j t p
      → lookup same k t.tasks ≡ some id
  handled_task-lookup j k id t (handling k' id' h) e own = cc
  handled_task-lookup j k id t (receiving k' id' h) e own = cc
  handled_task-lookup j k id t (settling next (handler k' id' h)) e own = cc
  handled_task-lookup j k id t p e own = absurd cc

  handles-le : (j : K) (p : Pc K V E P) → handles j p ≤ carries setup j p
  handles-le j (handling k id h) = omega arith
  handles-le j (receiving k id h) = omega arith
  handles-le j (settling next (handler k id h)) = omega arith
  handles-le j p = omega arith

  weigh-handles-le :
      (j : K) (ps : List (Pc K V E P)) → weigh (handles j) ps ≤ weigh (carries setup j) ps
  unfolding weigh
  weigh-handles-le j [] = omega arith
  weigh-handles-le j (p ∷ ps) = omega (arith, handles-le j p, weigh-handles-le j ps)

  module _ (laws : DequeLaws setup.deque) {max_int : ℕ} {w : World setup} where
    -- In every state that a map can reach, at most one goroutine is in the handler for a key, also
    -- while that is in Detach or blocked in Reattach; and none is if the key has no task, or has one
    -- with its result cached, or is still queued.
    pub handler_runs_once :
        (k : K)
        → 1 ≤ max_int
        → Reach setup max_int w
        → (weigh (handles k) w.threads ≤ 1)
          × (pending same k w.shared.table ≡ 0 → weigh (handles k) w.threads ≡ 0)
          × (0 < queued setup k laws w.shared → weigh (handles k) w.threads ≡ 0)
    handler_runs_once k big r =
        let v = Reach-IsKeyed setup laws big r in
        let located = v.located k in
        let handled = weigh-handles-le k w.threads in
        let once = pending-le same k w.shared.table in
        (omega arith, λ h. omega arith, λ h. omega arith)

    -- In every state that a map can reach, a key whose task is not finished is in the key queue, once,
    -- or in the hands of a goroutine, but not both: it can become known to a worker.
    pub pending_key-known :
        (k : K)
        → 1 ≤ max_int
        → Reach setup max_int w
        → pending same k w.shared.table ≡ 1
        → ((queued setup k laws w.shared ≡ 1) × (weigh (carries setup k) w.threads ≡ 0))
          ⊎ ((queued setup k laws w.shared ≡ 0)
              × ((i : ℕ) × (p : Pc K V E P) × (get_elem? w.threads i ≡ some p)
                  × (carries setup k p ≡ 1)))
    pending_key-known k big r open_gate =
        let v = Reach-IsKeyed setup laws big r in
        let located = v.located k in
        elim (dec_lt 0 (weigh (carries setup k) w.threads)) [
          | no empty ↦ inl (omega arith, omega arith)
          | yes some_hand ↦
              let (i, p, at, pos) = weigh_pos (carries setup k) w.threads some_hand in
              inr (
                omega arith,
                (i, p, at, omega (arith, weigh-get_elem? (carries setup k) w.threads i p at)),
              )
        ]

    -- In every state that a map can reach, a goroutine in the handler for a key, also while that is
    -- in Detach or blocked in Reattach, has the task that the set has for that key, and that task is
    -- not finished.
    pub handled_task-pending :
        (i : ℕ) (k : K) (id : ℕ) (p : Pc K V E P)
        → 1 ≤ max_int
        → Reach setup max_int w
        → get_elem? w.threads i ≡ some p
        → handled_task p ≡ some (k, id)
        → (lookup same k w.shared.table.tasks ≡ some id) × (pending same k w.shared.table ≡ 1)
    handled_task-pending i k id p big r at e =
        let v = Reach-IsKeyed setup laws big r in
        (
          handled_task-lookup k k id w.shared.table p e (v.owned k i p at),
          omega (
            arith,
            v.located k,
            handled_task-carries k id p e,
            pending-le same k w.shared.table,
            weigh-get_elem? (carries setup k) w.threads i p at,
          ),
        )
