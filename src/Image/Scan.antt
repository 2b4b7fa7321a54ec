-- ===== src/Image/Scan.antt =====
-- Scanning to the end of a class of bytes, as the parts of imageRegexp do.
use magic_mirror.Prelude.{
  ℕ, ◌≡◌, refl, Bool, true, false, [], ◌∷◌, ◌++◌, Bytes, All, Bool-cases, inl, inr, arith, ap,
}
use magic_mirror.StringKeyed.Encoding.{contains}
use magic_mirror.Image.Parse.{take_until, drop_until, is_slash}

module _ (stop : ℕ → Bool) where
  abbrev pub Passes : Bytes → Type 0
  Passes = All (λ c. stop c ≡ false)

  -- Empty, or opening with a byte that stops the scan.
  abbrev pub Stops : Bytes → Type 0
  Stops [] = Unit
  Stops (c ∷ s) = stop c ≡ true

  pub take_until-append : (x s : Bytes) → Passes x → Stops s → take_until stop (x ++ s) ≡ x
  unfolding take_until
  take_until-append [] [] h k = refl
  take_until-append [] (c ∷ s) h k = rw k refl
  take_until-append (c ∷ x) s (h, hs) k = rw h (ap (λ r. c ∷ r) (take_until-append x s hs k))

  pub drop_until-append : (x s : Bytes) → Passes x → Stops s → drop_until stop (x ++ s) ≡ s
  unfolding drop_until
  drop_until-append [] [] h k = refl
  drop_until-append [] (c ∷ s) h k = rw k refl
  drop_until-append (c ∷ x) s (h, hs) k = rw h (drop_until-append x s hs k)

  pub take_until-Passes : (s : Bytes) → Passes (take_until stop s)
  unfolding take_until
  take_until-Passes [] = tt
  take_until-Passes (c ∷ s) = elim (Bool-cases (stop c)) [
    | inl stopped ↦ rw stopped tt
    | inr passed ↦ rw passed (passed, take_until-Passes s)
  ]

pub no_slash : (x : Bytes) → contains x b'/' ≡ false → Passes is_slash x
unfolding contains is_slash
no_slash [] h = tt
no_slash (c ∷ x) h = (ground arith, no_slash x (ground arith))
