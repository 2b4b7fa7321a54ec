-- ===== src/Prelude/Lists.antt =====
-- Lists measured and indexed by native numbers, under the library's names, and weighted sums.
use Prim.Native.Nat.{ℕ, zero, suc, ◌+◌, ◌-◌, ◌≤◌, ◌<◌, min}
use mathlib.Core.Path.{◌≡◌, refl, ap, ◌∙◌, subst}
use mathlib.Core.Logic.{◌≢◌, ◌⊎◌, inl, inr}
use mathlib.Core.List.{List, [], ◌∷◌, ◌++◌}
use mathlib.Core.Option.{Option, none, some, some-injective}
use native.Mathlib.Decide.{dec_le}
use native.Mathlib.Omega.{arith}

module _ {ℓ} {A : Type ℓ} where
  abbrev pub length : List A → ℕ
  length [] = 0
  length (x ∷ xs) = suc (length xs)

  abbrev pub get_elem? : List A → ℕ → Option A
  get_elem? [] i = none
  get_elem? (x ∷ xs) zero = some x
  get_elem? (x ∷ xs) (suc i) = get_elem? xs i

  -- A write out of bounds changes nothing.
  abbrev pub set : List A → ℕ → A → List A
  set [] i v = []
  set (x ∷ xs) zero v = v ∷ xs
  set (x ∷ xs) (suc i) v = x ∷ set xs i v

  abbrev pub take : ℕ → List A → List A
  take zero xs = []
  take (suc n) [] = []
  take (suc n) (x ∷ xs) = x ∷ take n xs

  abbrev pub drop : ℕ → List A → List A
  drop zero xs = xs
  drop (suc n) [] = []
  drop (suc n) (x ∷ xs) = drop n xs

  pub length-append : (xs ys : List A) → length (xs ++ ys) ≡ length xs + length ys
  length-append [] ys = omega arith
  length-append (x ∷ xs) ys = omega (arith, length-append xs ys)

  pub length-take : (n : ℕ) (xs : List A) → length (take n xs) ≡ min n (length xs)
  length-take zero xs = omega arith
  length-take (suc n) [] = omega arith
  length-take (suc n) (x ∷ xs) = omega (arith, length-take n xs)

  pub length-drop : (n : ℕ) (xs : List A) → length (drop n xs) ≡ length xs - n
  length-drop zero xs = omega arith
  length-drop (suc n) [] = omega arith
  length-drop (suc n) (x ∷ xs) = omega (arith, length-drop n xs)

  pub length-set : (xs : List A) (i : ℕ) (v : A) → length (set xs i v) ≡ length xs
  length-set [] i v = refl
  length-set (x ∷ xs) zero v = refl
  length-set (x ∷ xs) (suc i) v = ap suc (length-set xs i v)

  pub take-append-drop : (n : ℕ) (xs : List A) → take n xs ++ drop n xs ≡ xs
  take-append-drop zero xs = refl
  take-append-drop (suc n) [] = refl
  take-append-drop (suc n) (x ∷ xs) = rw (take-append-drop n xs)

  pub eq_nil_of_length : (xs : List A) → length xs ≡ 0 → xs ≡ []
  eq_nil_of_length [] h = refl
  eq_nil_of_length (x ∷ xs) h = absurd (omega arith)

  -- The sum of a weight over a list.
  unfoldable pub weigh : (A → ℕ) → List A → ℕ
  weigh w [] = 0
  weigh w (x ∷ xs) = w x + weigh w xs

  pub weigh-append : (w : A → ℕ) (xs ys : List A) → weigh w (xs ++ ys) ≡ weigh w xs + weigh w ys
  unfolding weigh
  weigh-append w [] ys = omega arith
  weigh-append w (x ∷ xs) ys = omega (arith, weigh-append w xs ys)

  pub weigh-snoc : (w : A → ℕ) (xs : List A) (y : A) → weigh w (xs ++ y ∷ []) ≡ weigh w xs + w y
  unfolding weigh
  weigh-snoc w xs y = omega (arith, weigh-append w xs (y ∷ []))

  -- To replace one entry exchanges its weight.
  pub weigh-set :
      (w : A → ℕ) (xs : List A) (i : ℕ) (x y : A)
      → get_elem? xs i ≡ some x
      → weigh w (set xs i y) + w x ≡ weigh w xs + w y
  unfolding weigh
  weigh-set w [] i x y e = absurd (cc)
  weigh-set w (z ∷ xs) zero x y e = ground arith
  weigh-set w (z ∷ xs) (suc i) x y e = omega (arith, weigh-set w xs i x y e)

  pub weigh-get_elem? :
      (w : A → ℕ) (xs : List A) (i : ℕ) (x : A) → get_elem? xs i ≡ some x → w x ≤ weigh w xs
  unfolding weigh
  weigh-get_elem? w [] i x e = absurd (cc)
  weigh-get_elem? w (z ∷ xs) zero x e = ground arith
  weigh-get_elem? w (z ∷ xs) (suc i) x e = omega (arith, weigh-get_elem? w xs i x e)

  -- A positive sum has a positive entry.
  pub weigh_pos :
      (w : A → ℕ) (xs : List A)
      → 0 < weigh w xs
      → (i : ℕ) × (x : A) × (get_elem? xs i ≡ some x) × (0 < w x)
  unfolding weigh
  weigh_pos w [] h = absurd (omega arith)
  weigh_pos w (x ∷ xs) h = elim (dec_le (w x) 0) [
    | yes none_here ↦
        let (i, y, found, pos) = weigh_pos w xs (omega arith) in (suc i, y, found, pos)
    | no here ↦ (zero, x, refl, omega arith)
  ]

module _ {ℓ} {A : Type ℓ} where
  -- What stands at a position opens the list from there on.
  pub drop-get_elem? :
      (xs : List A) (i : ℕ)
      → ((get_elem? xs i ≡ none) × (drop i xs ≡ []))
        ⊎ ((x : A) × (get_elem? xs i ≡ some x) × (drop i xs ≡ x ∷ drop (suc i) xs))
  drop-get_elem? [] zero = inl (refl, refl)
  drop-get_elem? [] (suc i) = inl (refl, refl)
  drop-get_elem? (x ∷ xs) zero = inr (x, refl, refl)
  drop-get_elem? (x ∷ xs) (suc i) = drop-get_elem? xs i

  pub drop_all : (xs : List A) (i : ℕ) → length xs ≤ i → drop i xs ≡ []
  drop_all xs i h = eq_nil_of_length (drop i xs) (omega (arith, length-drop i xs))

  pub get_elem?_below : (xs : List A) (i : ℕ) → i < length xs → get_elem? xs i ≢ none
  get_elem?_below [] i h = absurd (omega arith)
  get_elem?_below (x ∷ xs) zero h = ground arith
  get_elem?_below (x ∷ xs) (suc i) h = get_elem?_below xs i (omega arith)

  pub get_elem?-append :
      (xs ys : List A) (i : ℕ) (x : A) → get_elem? xs i ≡ some x → get_elem? (xs ++ ys) i ≡ some x
  get_elem?-append [] ys i x e = absurd (cc)
  get_elem?-append (z ∷ xs) ys zero x e = e
  get_elem?-append (z ∷ xs) ys (suc i) x e = get_elem?-append xs ys i x e

  pub get_elem?-lt : (xs : List A) (i : ℕ) (x : A) → get_elem? xs i ≡ some x → i < length xs
  get_elem?-lt [] i x e = absurd (cc)
  get_elem?-lt (z ∷ xs) zero x e = omega arith
  get_elem?-lt (z ∷ xs) (suc i) x e = omega (arith, get_elem?-lt xs i x e)

module _ {ℓ} {A : Type ℓ} where
  pub get_elem?-set_ne :
      (xs : List A) (i j : ℕ) (v : A) → i ≢ j → get_elem? (set xs i v) j ≡ get_elem? xs j
  get_elem?-set_ne [] i j v h = refl
  get_elem?-set_ne (x ∷ xs) zero zero v h = absurd (h refl)
  get_elem?-set_ne (x ∷ xs) zero (suc j) v h = refl
  get_elem?-set_ne (x ∷ xs) (suc i) zero v h = refl
  get_elem?-set_ne (x ∷ xs) (suc i) (suc j) v h = get_elem?-set_ne xs i j v (λ e. h (ap suc e))

  -- To replace two entries exchanges their weights.
  pub weigh-set_two :
      (w : A → ℕ) (xs : List A) (i j : ℕ) (x x' y y' : A)
      → i ≢ j
      → get_elem? xs i ≡ some x
      → get_elem? xs j ≡ some y
      → weigh w (set (set xs i x') j y') + w x + w y ≡ weigh w xs + w x' + w y'
  weigh-set_two w xs i j x x' y y' apart at_i at_j = omega (
    arith,
    weigh-set w xs i x x' at_i,
    weigh-set w (set xs i x') j y y' (get_elem?-set_ne xs i j x' apart ∙ at_j),
  )

  pub get_elem?-append_lt :
      (xs ys : List A) (i : ℕ) → i < length xs → get_elem? (xs ++ ys) i ≡ get_elem? xs i
  get_elem?-append_lt [] ys i h = absurd (omega arith)
  get_elem?-append_lt (x ∷ xs) ys zero h = refl
  get_elem?-append_lt (x ∷ xs) ys (suc i) h = get_elem?-append_lt xs ys i (omega arith)

  pub get_elem?-snoc : (xs : List A) (y : A) → get_elem? (xs ++ y ∷ []) (length xs) ≡ some y
  get_elem?-snoc [] y = refl
  get_elem?-snoc (x ∷ xs) y = get_elem?-snoc xs y

  pub get_elem?-set_self :
      (xs : List A) (i : ℕ) (v : A) → i < length xs → get_elem? (set xs i v) i ≡ some v
  get_elem?-set_self [] i v h = absurd (omega arith)
  get_elem?-set_self (x ∷ xs) zero v h = refl
  get_elem?-set_self (x ∷ xs) (suc i) v h = get_elem?-set_self xs i v (omega arith)

-- What holds of the entries of two lists holds of those of their concatenation, and so for `set`.
module _ {ℓ κ} {A : Type ℓ} (Q : A → Type κ) where
  pub get_elem?-append_elim :
      (xs ys : List A) (i : ℕ) (a : A)
      → ((m : ℕ) (b : A) → get_elem? xs m ≡ some b → Q b)
      → ((m : ℕ) (b : A) → get_elem? ys m ≡ some b → Q b)
      → get_elem? (xs ++ ys) i ≡ some a
      → Q a
  get_elem?-append_elim [] ys i a hx hy e = hy i a e
  get_elem?-append_elim (x ∷ xs) ys zero a hx hy e = hx zero a e
  get_elem?-append_elim (x ∷ xs) ys (suc i) a hx hy e =
      get_elem?-append_elim xs ys i a (λ m. hx (suc m)) hy e

  pub get_elem?-set_elim :
      (xs : List A) (n i : ℕ) (v a : A)
      → ((m : ℕ) (b : A) → get_elem? xs m ≡ some b → Q b)
      → Q v
      → get_elem? (set xs n v) i ≡ some a
      → Q a
  get_elem?-set_elim [] n i v a hx hv e = absurd (cc)
  get_elem?-set_elim (x ∷ xs) zero zero v a hx hv e = subst Q (some-injective v a e) hv
  get_elem?-set_elim (x ∷ xs) zero (suc i) v a hx hv e = hx (suc i) a e
  get_elem?-set_elim (x ∷ xs) (suc n) zero v a hx hv e = hx zero a e
  get_elem?-set_elim (x ∷ xs) (suc n) (suc i) v a hx hv e =
      get_elem?-set_elim xs n i v a (λ m. hx (suc m)) hv e
