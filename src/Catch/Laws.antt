-- ===== src/Catch/Laws.antt =====
-- What `Do`, `DoOrExit` and `Unwrap` of catch.go promise of a captured exit.
use magic_mirror.Prelude.{Option, Bool, true, false, ◌&&◌, ◌||◌, none, some, ◌≡◌, refl, arith}
use magic_mirror.Catch.{
  Exit, returns, panics, goexits, Result, zero_result, goexit_result, panic_result, return_result,
  do_or_exit, do_isolated, is_goexited, is_panicked, is_returned, unwrap,
}

-- The result that the synthetic constructors build for an exit.
abbrev pub synthetic {ℓ} : {V E P : Type ℓ} → V → Exit V E P → Result V E P
synthetic z (returns v e) = return_result v e
synthetic z (panics p) = panic_result z p
synthetic z goexits = goexit_result z

-- Exactly one of the three Booleans is true.
abbrev pub ExactlyOne : Bool → Bool → Bool → Type 0
ExactlyOne a b c =
    ((a || b || c) ≡ true) × ((a && b) ≡ false) × ((a && c) ≡ false) × ((b && c) ≡ false)

-- What DoOrExit hands to its caller; `none` where it exits itself.
abbrev pub captured {ℓ} : {V E P : Type ℓ} → V → Exit V E P → Option (Result V E P)
captured z (returns v e) = some (return_result v e)
captured z (panics p) = some (panic_result z p)
captured z goexits = none

module _ {ℓ} {V E P : Type ℓ} where
  -- Whatever way a function leaves, `Do` captures the very result that the synthetic constructor
  -- for that exit builds, and unwrapping it leaves the caller in the same way, with the same value,
  -- error and panic value.
  pub unwrap-do_isolated :
      (z : V) (fn : Exit V E P)
      → (do_isolated z fn ≡ synthetic z fn) × (unwrap (do_isolated z fn) ≡ fn)
  unfolding do_isolated unwrap return_result panic_result
  unwrap-do_isolated z (returns v e) = (refl, refl)
  unwrap-do_isolated z (panics p) = (refl, refl)
  unwrap-do_isolated z goexits = (refl, refl)

  -- A captured result is in exactly one of the states Goexited, Panicked and Returned; the zero
  -- result is, too.
  pub do_isolated-ExactlyOne :
      (z : V) (fn : Exit V E P)
      → (let r = do_isolated z fn in ExactlyOne (is_goexited r) (is_panicked r) (is_returned r))
        × (let r : Result V E P = zero_result z in
            ExactlyOne (is_goexited r) (is_panicked r) (is_returned r))
  unfolding do_isolated zero_result
  do_isolated-ExactlyOne z (returns v e) = ground arith
  do_isolated-ExactlyOne z (panics p) = ground arith
  do_isolated-ExactlyOne z goexits = ground arith

  -- DoOrExit returns, for a return of its function, the result that Return builds, and for a panic
  -- the one that Panic builds; for a Goexit it does not return.
  pub do_or_exit-captured : (z : V) (fn : Exit V E P) → do_or_exit z fn ≡ captured z fn
  unfolding do_or_exit return_result panic_result
  do_or_exit-captured z (returns v e) = refl
  do_or_exit-captured z (panics p) = refl
  do_or_exit-captured z goexits = refl
