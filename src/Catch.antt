-- ===== src/Catch.antt =====
-- internal/parka/catch/catch.go: captured exits of a function, as a `Result`.
-- A Go function leaves in one of three ways (`Exit`). The zero value of `T` is an argument; a nil
-- error and a nil panic value are `none`.
pub mod Laws
mod Examples
use magic_mirror.Prelude.{Bool, true, false, not, ◌&&◌, ◌||◌, Option, none, some, if◌then◌else◌}

pub data Exit {ℓ} (V E P : Type ℓ) : Type ℓ where
  returns : V → Option E → Exit V E P
  panics : Option P → Exit V E P
  goexits : Exit V E P

pub record Result {ℓ} (V E P : Type ℓ) : Type ℓ where
  pub started : Bool
  pub returned : Bool
  pub recovered : Bool
  pub value : V
  pub err : Option E
  pub panicval : Option P

module _ {ℓ} {V E P : Type ℓ} where
  -- `var r Result[T]`
  unfoldable pub zero_result : V → Result V E P
  zero_result zero_value = record {
    started = false;
    returned = false;
    recovered = false;
    value = zero_value;
    err = none;
    panicval = none;
  }

  -- `Goexit`
  unfoldable pub goexit_result : V → Result V E P
  unfolding zero_result
  goexit_result zero_value = record (zero_result zero_value) {
    started = true;
    returned = false;
    recovered = false;
  }

  -- `Panic`
  unfoldable pub panic_result : V → Option P → Result V E P
  unfolding zero_result
  panic_result zero_value panicval = record (zero_result zero_value) {
    started = true;
    returned = false;
    recovered = true;
    panicval = panicval;
  }

  -- `Return`
  unfoldable pub return_result : V → Option E → Result V E P
  return_result value err = record {
    started = true;
    returned = true;
    recovered = true;
    value = value;
    err = err;
    panicval = none;
  }

  -- The closure of `DoOrExit`: the assignments that are made before `fn` unwinds, and the value
  -- that the deferred `recover` yields. `none`: the goroutine goes on exiting.
  run_recovering : Exit V E P → Result V E P → Option (Result V E P)
  run_recovering (returns v e) r =
      some (record r { value = v; err = e; returned = true; panicval = none })
  run_recovering (panics p) r = some (record r { panicval = p })
  run_recovering goexits r = none

  set_recovered : Option (Result V E P) → Option (Result V E P)
  set_recovered none = none
  set_recovered (some r) = some (record r { recovered = true })

  -- `DoOrExit`, for a function that leaves by the given exit; `none` propagates the Goexit.
  unfoldable pub do_or_exit : V → Exit V E P → Option (Result V E P)
  unfolding run_recovering set_recovered zero_result
  do_or_exit zero_value fn =
      set_recovered (run_recovering fn (record (zero_result zero_value) { started = true }))

  -- The goroutine of `Do` assigns `r` only if `DoOrExit` returns.
  assign_if_returned : Result V E P → Option (Result V E P) → Result V E P
  assign_if_returned r none = r
  assign_if_returned r (some new) = new

  unfoldable pub do_isolated : V → Exit V E P → Result V E P
  unfolding assign_if_returned goexit_result do_or_exit
  do_isolated zero_value fn =
      assign_if_returned (goexit_result zero_value) (do_or_exit zero_value fn)

  abbrev pub is_goexited : Result V E P → Bool
  is_goexited r = r.started && not r.recovered

  abbrev pub is_panicked : Result V E P → Bool
  is_panicked r = r.recovered && not r.returned

  abbrev pub is_returned : Result V E P → Bool
  is_returned r = r.returned || not r.started

  abbrev pub recovered_value : Result V E P → Option P
  recovered_value r = r.panicval

  -- `Unwrap`, as the exit of the calling function.
  unfoldable pub unwrap : Result V E P → Exit V E P
  unwrap r =
      if is_returned r
      then returns r.value r.err
      else if is_panicked r
      then panics r.panicval
      else goexits
