-- ===== src/Parka/System/Progress.antt =====
-- No goroutine of a map waits in vain for the other side of a grant's transfer, and no work waits
-- while the limit allows a grant for it.
use magic_mirror.Prelude.{
  ℕ, suc, ◌≤◌, ◌<◌, ◌≡◌, ◌≢◌, refl, [], none, some, arith, set, get_elem?, weigh, weigh-get_elem?,
  weigh_pos, length,
}
use magic_mirror.Parka.Deque.{DequeLaws}
use magic_mirror.Parka.WorkState.{send_grant}
use magic_mirror.Parka.Goroutine.{
  Setup, Pc, settling, granting, receiving, send_grant_to, receive_grant,
}
use magic_mirror.Parka.System.Runs.{World, Moves, transfers, Reach}
use magic_mirror.Parka.System.Weights.{holds, promises, blocks}
use magic_mirror.Parka.System.Grants.{Reach-IsSteady}

module _ {ℓ} {K V E P : Type ℓ} (setup : Setup K V E P) where
  sender-promises : (p p' : Pc K V E P) → send_grant_to p ≡ some p' → 0 < promises p
  sender-promises (settling send_grant c) p' e = omega arith
  sender-promises (granting [] (suc t) after) p' e = omega arith
  sender-promises p p' e = absurd (cc)

  blocked-receives :
      (q : Pc K V E P) → 0 < blocks q → (q' : Pc K V E P) × (receive_grant q ≡ some q')
  blocked-receives (receiving k id h) pos = (_, refl)
  blocked-receives q pos = absurd (omega arith)

  module _ (laws : DequeLaws setup.deque) where
    -- In every state that a map can reach, a goroutine that stands in SendGrant finds a handler
    -- blocked in ReceiveGrant: the transfer can be made at once, so Limit and tryGetQueuedKey never
    -- block for good.
    pub send_grant-progress :
        {max_int : ℕ} {w : World setup} (i : ℕ) (p p' : Pc K V E P)
        → 1 ≤ max_int
        → Reach setup max_int w
        → get_elem? w.threads i ≡ some p
        → send_grant_to p ≡ some p'
        → (j : ℕ) × (q' : Pc K V E P) × Moves setup w
            (record w { threads = set (set w.threads i p') j q' })
    send_grant-progress {w} i p p' big r at sends =
        let a = Reach-IsSteady setup laws big r in
        let (j, q, at_j, pos) = weigh_pos blocks w.threads (
          omega (
            arith,
            a.paired,
            weigh-get_elem? promises w.threads i p at,
            sender-promises p p' sends,
          )) in
        let (q', got) = blocked-receives q pos in (j, q', transfers i j p p' q q' at sends at_j got)

    -- When no goroutine holds a grant, which is when `Wait` returns at once, no key is queued, no
    -- handler waits to reattach, and no channel is left to close.
    pub idle_map-done :
        {max_int : ℕ} {w : World setup}
        → 1 ≤ max_int
        → Reach setup max_int w
        → weigh holds w.threads ≡ 0
        → (length (laws.items w.shared.state.keys) ≡ 0)
          × (w.shared.state.reattachers ≡ 0)
          × ¬ (w.shared.state.emptied ≢ none)
    idle_map-done {w} big r quiet =
        let a = Reach-IsSteady setup laws big r in
        (
          a.balanced.drained (omega (arith, a.counted, a.balanced.limited)),
          a.balanced.idle (omega (arith, a.counted, a.balanced.limited)),
          λ e. absurd (omega (arith, a.counted, a.balanced.awaited e)),
        )
