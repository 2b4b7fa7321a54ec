-- ===== src/Parka/System/Limit.antt =====
-- The concurrency limit of a map over a run.
use magic_mirror.Prelude.{ℕ, ◌≤◌, if◌then◌else◌}
use magic_mirror.Parka.Handle.{has_grant}
use magic_mirror.Parka.Goroutine.{Setup, Pc, handling}
use magic_mirror.Parka.System.Runs.{World, Moves}

-- whether a goroutine runs a handler that is attached
abbrev pub runs_attached {ℓ} : {K V E P : Type ℓ} → Pc K V E P → ℕ
runs_attached (handling k id h) = if has_grant h then 1 else 0
runs_attached _ = 0

module _ {ℓ} {K V E P : Type ℓ} (setup : Setup K V E P) where
  -- A run in which the limit is never above `bound`.
  pub data RunsBelow (bound : ℕ) (w : World setup) : World setup → Type ℓ where
    here : w.shared.state.grant_limit ≤ bound → RunsBelow bound w w
    more :
        {v v' : World setup}
        → RunsBelow bound w v
        → Moves setup v v'
        → v'.shared.state.grant_limit ≤ bound
        → RunsBelow bound w v'
