-- ===== src/Parka/System/Weights.antt =====
-- What a goroutine of map.go stands for in the counters of `workState`.
use magic_mirror.Prelude.{ℕ, ◌+◌, Option, none, some, length, if◌then◌else◌}
use magic_mirror.Parka.WorkState.{retire, send_grant, take_key}
use magic_mirror.Parka.Handle.{Handle, has_grant}
use magic_mirror.Parka.Goroutine.{Pc, work, handling, settling, receiving, granting, handler}

module _ {ℓ} {K V E P : Type ℓ} where
  -- the work grants that it holds
  abbrev pub holds : Pc K V E P → ℕ
  holds (work k) = 1
  holds (handling k id h) = if has_grant h then 1 else 0
  holds (settling (retire ch) c) = 0
  holds (settling send_grant c) = 1
  holds (settling (take_key k) c) = 1
  holds (granting ks t after) = length ks + t
  holds _ = 0

  -- the grants that it has promised to reattachers
  abbrev pub promises : Pc K V E P → ℕ
  promises (settling send_grant c) = 1
  promises (granting ks t after) = t
  promises _ = 0

  -- whether it is a reattacher blocked in ReceiveGrant
  abbrev pub blocks : Pc K V E P → ℕ
  blocks (receiving k id h) = 1
  blocks _ = 0

-- whether it has a handle that is terminated, which no goroutine may still use
abbrev expired : Handle → ℕ
expired h = if h.terminated then 1 else 0

module _ {ℓ} {K V E P : Type ℓ} where
  abbrev pub stale : Pc K V E P → ℕ
  stale (handling k id h) = expired h
  stale (receiving k id h) = expired h
  stale (settling next (handler k id h)) = expired h
  stale _ = 0

abbrev pub weight_of {ℓ} : {A : Type ℓ} → (A → ℕ) → Option A → ℕ
weight_of w none = 0
weight_of w (some a) = w a
