-- ===== src/Catch/Examples.antt =====
-- The theorems on captured exits at concrete exits: values, errors and panic values are numbers.
use magic_mirror.Prelude.{ℕ, ◌≡◌, refl, true, false, none, some}
use magic_mirror.Catch.{
  Exit, returns, panics, goexits, Result, zero_result, do_or_exit, do_isolated, is_goexited,
  is_panicked, is_returned, unwrap,
}
use magic_mirror.Catch.Laws.{
  synthetic, ExactlyOne, captured, unwrap-do_isolated, do_isolated-ExactlyOne, do_or_exit-captured,
}

abbrev failing : Exit ℕ ℕ ℕ
failing = returns 7 (some 3)

abbrev exiting : Exit ℕ ℕ ℕ
exiting = goexits

unwrap-do_isolated_example :
    (do_isolated 0 failing ≡ synthetic 0 failing) × (unwrap (do_isolated 0 failing) ≡ failing)
unwrap-do_isolated_example = unwrap-do_isolated 0 failing

do_isolated-ExactlyOne_example :
    (let r = do_isolated 0 exiting in ExactlyOne (is_goexited r) (is_panicked r) (is_returned r))
    × (let r : Result ℕ ℕ ℕ = zero_result 0 in
        ExactlyOne (is_goexited r) (is_panicked r) (is_returned r))
do_isolated-ExactlyOne_example = do_isolated-ExactlyOne 0 exiting

abbrev panicking : Result ℕ ℕ ℕ
panicking = record {
  started = true;
  returned = false;
  recovered = true;
  value = 0;
  err = none;
  panicval = some 9;
}

abbrev crash : Exit ℕ ℕ ℕ
crash = panics (some 9)

do_or_exit-captured_example : do_or_exit 0 crash ≡ captured 0 crash
do_or_exit-captured_example = do_or_exit-captured 0 crash

captured_panic : do_isolated 0 crash ≡ panicking
unfolding do_isolated
captured_panic = refl
