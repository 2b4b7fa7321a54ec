-- ===== src/Registry/Outcome.antt =====
-- Go code that reads and changes a shared store, and returns a value or an error, or panics.
use magic_mirror.Prelude.{ℕ, Bytes}

-- The errors that the copier's functions return; those of other packages without their text.
pub data Fault : Type 0 where
  no_client : Fault
  bad_request : Fault
  not_sent : Fault
  unexpected_status : ℕ → Fault
  bad_answer : Fault
  wrong_digest : Fault
  unknown_type : Bytes → Fault
  bad_json : Fault
  invalid_digest : Fault
  not_a_manifest : Fault
  no_platforms : Fault

pub data Outcome (A : Type 0) : Type 0 where
  done : A → Outcome A
  failed : Fault → Outcome A
  panics : Outcome A

-- The store comes back after an error too: what was written stays written.
abbrev pub Run : Type 0 → Type 0 → Type 0
Run S A = S → Outcome A × S

module _ {S A : Type 0} where
  abbrev pub return : A → Run S A
  return a s = (done a, s)

  abbrev pub fail : Fault → Run S A
  fail e s = (failed e, s)

  abbrev pub crash : Run S A
  crash s = (panics, s)

module _ {S A B : Type 0} where
  abbrev pub continue : Outcome A → (A → Run S B) → Run S B
  continue (done a) f s = f a s
  continue (failed e) f s = (failed e, s)
  continue panics f s = (panics, s)

  infixl 5 ◌>>=◌ ◌>>◌
  abbrev pub ◌>>=◌ : Run S A → (A → Run S B) → Run S B
  ◌>>=◌ m f s = let (r, s') = m s in continue r f s'

  abbrev pub ◌>>◌ : Run S A → Run S B → Run S B
  m >> k = m >>= λ _. k

-- How a call ended: Q where it returned a value, R otherwise.
module _ {S : Type 0} (R : S → Type 0) where
  abbrev pub Ends : {A : Type 0} → (A → S → Type 0) → Outcome A × S → Type 0
  Ends Q (done a, s) = Q a s
  Ends Q (failed e, s) = R s
  Ends Q (panics, s) = R s

  Ends-continue :
      {A B : Type 0} (P : A → S → Type 0) (Q : B → S → Type 0) (r : Outcome A) (f : A → Run S B)
      (s : S)
      → Ends P (r, s)
      → ((a : A) (s' : S) → P a s' → Ends Q (f a s'))
      → Ends Q (continue r f s)
  Ends-continue P Q (done a) f s h k = k a s h
  Ends-continue P Q (failed e) f s h k = h
  Ends-continue P Q panics f s h k = h

  pub Ends-bind :
      {A B : Type 0} (P : A → S → Type 0) (Q : B → S → Type 0) (m : Run S A) (f : A → Run S B)
      (s : S)
      → Ends P (m s)
      → ((a : A) (s' : S) → P a s' → Ends Q (f a s'))
      → Ends Q ((m >>= f) s)
  Ends-bind P Q m f s h k = let (r, s') = m s in Ends-continue P Q r f s' h k

  pub Ends-imp :
      {A : Type 0} (P Q : A → S → Type 0)
      → ((a : A) (s : S) → P a s → Q a s)
      → (r : Outcome A × S) → Ends P r
      → Ends Q r
  Ends-imp P Q f (done a, s) h = f a s h
  Ends-imp P Q f (failed e, s) h = h
  Ends-imp P Q f (panics, s) h = h

pub Ends-both :
    {S A : Type 0} (R R' : S → Type 0) (Q Q' : A → S → Type 0) (r : Outcome A × S)
    → Ends R Q r
    → Ends R' Q' r
    → Ends (λ s. R s × R' s) (λ a s. Q a s × Q' a s) r
Ends-both R R' Q Q' (done a, s) h h' = (h, h')
Ends-both R R' Q Q' (failed e, s) h h' = (h, h')
Ends-both R R' Q Q' (panics, s) h h' = (h, h')
