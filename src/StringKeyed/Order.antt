-- ===== src/StringKeyed/Order.antt =====
-- slices.Sort and slices.Compact on strings: what they compute, and lists in strict order, which
-- their members determine.
use magic_mirror.Prelude.{
  ◌≡◌, ◌≢◌, refl, sym, ap, ◌∙◌, subst, Bool, true, false, ◌||◌, List, [], ◌∷◌, ◌++◌, arith,
  if◌then◌else◌, Bytes, All, Bool-cases, inl, inr, bytes_eq, bytes_eq_refl, bytes_eq_sound,
  bytes_lt, bytes_lt_irrefl, bytes_lt_trans, bytes_lt_total,
}

insert : Bytes → List Bytes → List Bytes
insert x [] = x ∷ []
insert x (y ∷ ys) = let rest = insert x ys in if bytes_lt y x then y ∷ rest else x ∷ y ∷ ys

-- `slices.Sort`
unfoldable pub sort : List Bytes → List Bytes
unfolding insert
sort [] = []
sort (x ∷ xs) = insert x (sort xs)

drop_repeats : Bytes → List Bytes → List Bytes
drop_repeats last [] = []
drop_repeats last (y ∷ ys) =
    let rest = drop_repeats y ys in if bytes_eq y last then rest else y ∷ rest

-- `slices.Compact`: one element of each run of equal ones
unfoldable pub compact : List Bytes → List Bytes
unfolding drop_repeats
compact [] = []
compact (x ∷ xs) = x ∷ drop_repeats x xs

-- membership
unfoldable pub elem? : Bytes → List Bytes → Bool
elem? z [] = false
elem? z (x ∷ xs) = bytes_eq z x || elem? z xs

abbrev pub IsSorted : List Bytes → Type 0
IsSorted [] = Unit
IsSorted (x ∷ xs) = All (λ y. bytes_lt y x ≡ false) xs × IsSorted xs

-- In strict order: no element stands twice.
abbrev pub IsStrict : List Bytes → Type 0
IsStrict [] = Unit
IsStrict (x ∷ xs) = All (λ y. bytes_lt x y ≡ true) xs × IsStrict xs

pub or_right : (a b : Bool) → a ≡ false → (a || b) ≡ true → b ≡ true
or_right true b h e = absurd (cc)
or_right false b h e = e

pub lt_asym : (x y : Bytes) → bytes_lt x y ≡ true → bytes_lt y x ≡ false
lt_asym x y h = ground (arith, bytes_lt_trans x y x, bytes_lt_irrefl x)

All-imp :
    {P Q : Bytes → Type 0} → ((x : Bytes) → P x → Q x) → (xs : List Bytes) → All P xs → All Q xs
All-imp f [] h = tt
All-imp f (x ∷ xs) (h, hs) = (f x h, All-imp f xs hs)

module _ (P : Bytes → Type 0) where
  pub All-elem? : (xs : List Bytes) → All P xs → (z : Bytes) → elem? z xs ≡ true → P z
  unfolding elem?
  All-elem? [] h z e = absurd (cc)
  All-elem? (x ∷ xs) (h, hs) z e = elim (Bool-cases (bytes_eq z x)) [
    | inl same ↦ subst P (sym (bytes_eq_sound z x same)) h
    | inr other ↦ All-elem? xs hs z (or_right (bytes_eq z x) (elem? z xs) other e)
  ]

  All-insert : (x : Bytes) (xs : List Bytes) → P x → All P xs → All P (insert x xs)
  unfolding insert
  All-insert x [] h hs = (h, tt)
  All-insert x (y ∷ ys) h (hy, hs) = elim (Bool-cases (bytes_lt y x)) [
    | inl less ↦ rw less (hy, All-insert x ys h hs)
    | inr not_less ↦ rw not_less (h, (hy, hs))
  ]

  pub All-sort : (xs : List Bytes) → All P xs → All P (sort xs)
  unfolding sort
  All-sort [] h = tt
  All-sort (x ∷ xs) (h, hs) = All-insert x (sort xs) h (All-sort xs hs)

  All-drop_repeats : (last : Bytes) (xs : List Bytes) → All P xs → All P (drop_repeats last xs)
  unfolding drop_repeats
  All-drop_repeats last [] h = tt
  All-drop_repeats last (y ∷ ys) (h, hs) = elim (Bool-cases (bytes_eq y last)) [
    | inl same ↦ rw same (All-drop_repeats y ys hs)
    | inr other ↦ rw other (h, All-drop_repeats y ys hs)
  ]

  pub All-compact : (xs : List Bytes) → All P xs → All P (compact xs)
  unfolding compact
  All-compact [] h = tt
  All-compact (x ∷ xs) (h, hs) = (h, All-drop_repeats x xs hs)

pub true_not_false : true ≢ false
true_not_false e = cc

-- z is at least y, and y is at least x.
not_less_trans :
    (x y z : Bytes) → bytes_lt y x ≡ false → bytes_lt z y ≡ false → bytes_lt z x ≡ false
not_less_trans x y z h k = elim (Bool-cases (bytes_lt z x)) [
  | inl less ↦ elim (Bool-cases (bytes_lt y z)) [
    | inl below ↦ absurd (true_not_false (sym (bytes_lt_trans y z x below less) ∙ h))
    | inr same ↦ absurd (
        true_not_false (sym less ∙ subst (λ w. bytes_lt w x ≡ false) (bytes_lt_total y z same k) h))
  ]
  | inr not_less ↦ not_less
]

insert-IsSorted : (x : Bytes) (xs : List Bytes) → IsSorted xs → IsSorted (insert x xs)
unfolding insert
insert-IsSorted x [] h = (tt, tt)
insert-IsSorted x (y ∷ ys) (h, hs) = elim (Bool-cases (bytes_lt y x)) [
  | inl less ↦
      rw less
        (All-insert (λ z. bytes_lt z y ≡ false) x ys (lt_asym y x less) h, insert-IsSorted x ys hs)
  | inr not_less ↦
      rw not_less ((not_less, All-imp (λ z. not_less_trans x y z not_less) ys h), (h, hs))
]

pub sort-IsSorted : (xs : List Bytes) → IsSorted (sort xs)
unfolding sort
sort-IsSorted [] = tt
sort-IsSorted (x ∷ xs) = insert-IsSorted x (sort xs) (sort-IsSorted xs)

not_less_next : (x y : Bytes) → bytes_lt y x ≡ false → bytes_eq y x ≡ false → bytes_lt x y ≡ true
not_less_next x y h k = elim (Bool-cases (bytes_lt x y)) [
  | inl less ↦ less
  | inr not_less ↦ absurd (
      true_not_false (
        sym (bytes_eq_refl y)
        ∙ (subst (λ w. bytes_eq y w ≡ false) (bytes_lt_total x y not_less h) k)))
]

drop_repeats-IsStrict :
    (x : Bytes) (xs : List Bytes)
    → All (λ y. bytes_lt y x ≡ false) xs
    → IsSorted xs
    → All (λ y. bytes_lt x y ≡ true) (drop_repeats x xs) × IsStrict (drop_repeats x xs)
unfolding drop_repeats
drop_repeats-IsStrict x [] h hs = (tt, tt)
drop_repeats-IsStrict x (y ∷ ys) (h, hx) (hy, hs) =
    let (above, strict) = drop_repeats-IsStrict y ys hy hs in
    elim (Bool-cases (bytes_eq y x)) [
      | inl same ↦ rw same (
        subst (λ w. All (λ z. bytes_lt w z ≡ true) (drop_repeats y ys)) (bytes_eq_sound y x same)
            above,
        strict,
      )
      | inr other ↦
          let less = not_less_next x y h other in
          rw other (
            (less, All-imp (λ z. bytes_lt_trans x y z less) (drop_repeats y ys) above),
            (above, strict),
          )
    ]

-- Sorting, then compacting, leaves a list in strict order.
pub compact-IsStrict : (xs : List Bytes) → IsSorted xs → IsStrict (compact xs)
unfolding compact
compact-IsStrict [] h = tt
compact-IsStrict (x ∷ xs) (h, hs) = drop_repeats-IsStrict x xs h hs

or_swap : (a b c : Bool) → (a || (b || c)) ≡ (b || (a || c))
or_swap true true c = refl
or_swap true false c = refl
or_swap false b c = refl

elem?-insert :
    (z x : Bytes) (xs : List Bytes) → elem? z (insert x xs) ≡ (bytes_eq z x || elem? z xs)
unfolding elem? insert
elem?-insert z x [] = refl
elem?-insert z x (y ∷ ys) = elim (Bool-cases (bytes_lt y x)) [
  | inl less ↦ rw (less, elem?-insert z x ys) (or_swap (bytes_eq z y) (bytes_eq z x) (elem? z ys))
  | inr not_less ↦ rw not_less refl
]

elem?-sort : (z : Bytes) (xs : List Bytes) → elem? z (sort xs) ≡ elem? z xs
unfolding elem? sort
elem?-sort z [] = refl
elem?-sort z (x ∷ xs) = elem?-insert z x (sort xs) ∙ ap (λ b. bytes_eq z x || b) (elem?-sort z xs)

or_twice : (a b : Bool) → (a || (a || b)) ≡ (a || b)
or_twice true b = refl
or_twice false b = refl

elem?-drop_repeats :
    (z x : Bytes) (xs : List Bytes)
    → (bytes_eq z x || elem? z (drop_repeats x xs)) ≡ (bytes_eq z x || elem? z xs)
unfolding elem? drop_repeats
elem?-drop_repeats z x [] = refl
elem?-drop_repeats z x (y ∷ ys) = elim (Bool-cases (bytes_eq y x)) [
  | inl same ↦
      rw (same, sym (bytes_eq_sound y x same))
        (elem?-drop_repeats z y ys ∙ sym (or_twice (bytes_eq z y) (elem? z ys)))
  | inr other ↦ rw other (ap (λ b. bytes_eq z x || b) (elem?-drop_repeats z y ys))
]

elem?-compact : (z : Bytes) (xs : List Bytes) → elem? z (compact xs) ≡ elem? z xs
unfolding elem? compact
elem?-compact z [] = refl
elem?-compact z (x ∷ xs) = elem?-drop_repeats z x xs

pub elem?-compact-sort : (z : Bytes) (xs : List Bytes) → elem? z (compact (sort xs)) ≡ elem? z xs
elem?-compact-sort z xs = elem?-compact z (sort xs) ∙ elem?-sort z xs

or_assoc : (a b c : Bool) → (a || (b || c)) ≡ ((a || b) || c)
or_assoc true b c = refl
or_assoc false b c = refl

pub elem?-append :
    (z : Bytes) (xs ys : List Bytes) → elem? z (xs ++ ys) ≡ (elem? z xs || elem? z ys)
unfolding elem?
elem?-append z [] ys = refl
elem?-append z (x ∷ xs) ys =
    rw (elem?-append z xs ys) (or_assoc (bytes_eq z x) (elem? z xs) (elem? z ys))
