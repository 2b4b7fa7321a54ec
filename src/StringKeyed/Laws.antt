-- ===== src/StringKeyed/Laws.antt =====
-- What the operations of internal/stringkeyed/set.go do to the set of strings they stand for.
use magic_mirror.Prelude.{
  ℕ, suc, ◌≡◌, ◌≢◌, ◌↔◌, All-append, refl, sym, ap, ◌∙◌, subst, true, false, ◌||◌, length, List, [],
  ◌∷◌, ◌++◌, map, some, arith, ltb, Bytes, All, IsBytes, Bool-cases, inl, inr, bytes_eq,
  bytes_eq_sound, bytes_lt,
}
use magic_mirror.StringKeyed.Encoding.{
  encode, join, split, contains, unit_separator, decode-encode, encode-no_separator, split-join,
  length-split,
}
use magic_mirror.StringKeyed.Order.{
  sort, compact, elem?, IsStrict, true_not_false, All-sort, All-compact, sort-IsSorted,
  compact-IsStrict, elem?-compact-sort, elem?-append,
}
use magic_mirror.StringKeyed.Canonical.{strict_ext}
use magic_mirror.StringKeyed.Operations.{
  Set, all, add, decode_all, cardinality, represent, is_only_empty, set_of, to_slice,
}

-- The elements of a set: strings in strict order, which the representation is made from.
abbrev pub Represents : Set → List Bytes → Type 0
Represents s xs = (s ≡ represent xs) × IsStrict xs × All IsBytes xs

no_separators :
    (xs : List Bytes)
    → All IsBytes xs
    → All (λ y. contains y unit_separator ≡ false) (map encode xs)
no_separators [] h = tt
no_separators (x ∷ xs) (h, hs) = (encode-no_separator x h, no_separators xs hs)

decode_all-encode : (xs : List Bytes) → All IsBytes xs → decode_all (map encode xs) ≡ some xs
unfolding decode_all
decode_all-encode [] h = refl
decode_all-encode (x ∷ xs) (h, hs) = rw (decode-encode x h, decode_all-encode xs hs) refl

encode-empty : (x : Bytes) → encode x ≡ [] → x ≡ []
unfolding encode
encode-empty [] e = refl
encode-empty (c ∷ s) e = ground arith

-- The special form stands for the empty string alone.
represent_special : (xs : List Bytes) → is_only_empty xs ≡ true → xs ≡ [] ∷ []
unfolding is_only_empty
represent_special [] e = absurd (cc)
represent_special (x ∷ []) e = rw (bytes_eq_sound x [] e)
represent_special (x ∷ y ∷ r) e = absurd (cc)

no_less : (x : Bytes) → bytes_lt x [] ≢ true
unfolding bytes_lt
no_less [] e = cc
no_less (c ∷ x) e = cc

length-map : (xs : List Bytes) → length (map encode xs) ≡ length xs
length-map [] = refl
length-map (x ∷ xs) = ap suc (length-map xs)

one_part :
    (x : Bytes) (xs : List Bytes)
    → encode x ∷ map encode xs ≡ [] ∷ []
    → is_only_empty (x ∷ xs) ≡ true
unfolding is_only_empty bytes_eq
one_part x [] e = rw (encode-empty x (cc)) refl
one_part x (y ∷ r) e = absurd (cc)

two_parts :
    (x : Bytes) (xs : List Bytes) → IsStrict (x ∷ xs) → encode x ∷ map encode xs ≢ [] ∷ [] ∷ []
two_parts x [] strict e = absurd (cc)
two_parts x (y ∷ z ∷ r) strict e = absurd (cc)
two_parts x (y ∷ []) ((less, above), rest) e =
    no_less x (subst (λ w. bytes_lt x w ≡ true) (encode-empty y (cc)) less)

join_nonempty :
    (x : Bytes) (xs : List Bytes)
    → All IsBytes (x ∷ xs)
    → is_only_empty (x ∷ xs) ≡ false
    → join (map encode (x ∷ xs)) ≢ []
unfolding split
join_nonempty x xs h e joined =
    let parts =
      sym (split-join (encode x) (map encode xs) (no_separators (x ∷ xs) h)) ∙ ap split joined in
    true_not_false (sym (one_part x xs parts) ∙ e)

join_no_separator :
    (x : Bytes) (xs : List Bytes)
    → IsStrict (x ∷ xs)
    → All IsBytes (x ∷ xs)
    → join (map encode (x ∷ xs)) ≢ unit_separator ∷ []
unfolding split
join_no_separator x xs strict h joined =
    let parts =
      sym (split-join (encode x) (map encode xs) (no_separators (x ∷ xs) h)) ∙ ap split joined in
    two_parts x xs strict parts

bytes_differ : (x y : Bytes) → x ≢ y → bytes_eq x y ≡ false
bytes_differ x y h = elim (Bool-cases (bytes_eq x y)) [
  | inl same ↦ absurd (h (bytes_eq_sound x y same))
  | inr other ↦ other
]

all_empty : all (record { joined = [] }) ≡ some []
unfolding all bytes_eq
all_empty = refl

all_only : all (record { joined = unit_separator ∷ [] }) ≡ some ([] ∷ [])
unfolding all bytes_eq
all_only = refl

cardinality_empty : cardinality (record { joined = [] }) ≡ 0
unfolding cardinality bytes_eq
cardinality_empty = refl

cardinality_only : cardinality (record { joined = unit_separator ∷ [] }) ≡ 1
unfolding cardinality bytes_eq
cardinality_only = refl

-- What a list of elements in strict order is represented by reads back as that list.
pub all-represent : (xs : List Bytes) → IsStrict xs → All IsBytes xs → all (represent xs) ≡ some xs
unfolding all represent join
all-represent [] strict h = all_empty
all-represent (x ∷ xs) strict h = elim (Bool-cases (is_only_empty (x ∷ xs))) [
  | inl special ↦ rw special (all_only ∙ ap some (sym (represent_special (x ∷ xs) special)))
  | inr general ↦
      rw
        (
          general,
          bytes_differ (join (map encode (x ∷ xs))) [] (join_nonempty x xs h general),
          bytes_differ (join (map encode (x ∷ xs))) (unit_separator ∷ [])
              (join_no_separator x xs strict h),
          split-join (encode x) (map encode xs) (no_separators (x ∷ xs) h),
        )
        (decode_all-encode (x ∷ xs) h)
]

pub cardinality-represent :
    (xs : List Bytes) → IsStrict xs → All IsBytes xs → cardinality (represent xs) ≡ length xs
unfolding cardinality represent join
cardinality-represent [] strict h = cardinality_empty
cardinality-represent (x ∷ xs) strict h = elim (Bool-cases (is_only_empty (x ∷ xs))) [
  | inl special ↦
      rw special (cardinality_only ∙ ap length (sym (represent_special (x ∷ xs) special)))
  | inr general ↦
      rw
        (
          general,
          bytes_differ (join (map encode (x ∷ xs))) [] (join_nonempty x xs h general),
          bytes_differ (join (map encode (x ∷ xs))) (unit_separator ∷ [])
              (join_no_separator x xs strict h),
        )
        (omega (
          arith,
          length-split (join (map encode (x ∷ xs))),
          ap length (split-join (encode x) (map encode xs) (no_separators (x ∷ xs) h)),
          length-map (x ∷ xs),
        ))
]

-- Adding elements to a set that stands for xs gives one that stands for the sorted union.
add-represent :
    (xs es : List Bytes)
    → IsStrict xs
    → All IsBytes xs
    → add (represent xs) es ≡ some (represent (compact (sort (xs ++ es))))
unfolding add
add-represent xs es strict h = rw (all-represent xs strict h) refl

pub union-Represents :
    (xs es : List Bytes)
    → All IsBytes xs
    → All IsBytes es
    → Represents (represent (compact (sort (xs ++ es)))) (compact (sort (xs ++ es)))
union-Represents xs es h k = (
  refl,
  compact-IsStrict (sort (xs ++ es)) (sort-IsSorted (xs ++ es)),
  All-compact IsBytes (sort (xs ++ es))
      (All-sort IsBytes (xs ++ es) (All-append IsBytes xs es h k)),
)

-- If a set stands for the strings xs, in strict order, then Add of more strings does not
-- panic, and gives a set that stands for a list in strict order whose members are those of xs
-- and the strings added.
pub add_union :
    (s : Set) (xs es : List Bytes)
    → Represents s xs
    → All IsBytes es
    → (t : Set) × (ys : List Bytes) × (add s es ≡ some t)
      × Represents t ys
      × ((z : Bytes) → elem? z ys ≡ (elem? z xs || elem? z es))
add_union s xs es (made, strict, h) k = (
  represent (compact (sort (xs ++ es))),
  compact (sort (xs ++ es)),
  rw made (add-represent xs es strict h),
  union-Represents xs es h k,
  λ z. elem?-compact-sort z (xs ++ es) ∙ elem?-append z xs es,
)

positive : (n : ℕ) → ltb 0 (suc n) ≡ true
positive n = ground arith

pub set_of_lem : (es : List Bytes) → set_of es ≡ some (represent (compact (sort es)))
unfolding set_of join
set_of_lem es = add-represent [] es tt tt

some_inj : {A : Type 0} {a b : A} → some a ≡ some b → a ≡ b
some_inj e = cc

represent-injective :
    (xs ys : List Bytes)
    → IsStrict xs
    → IsStrict ys
    → All IsBytes xs
    → All IsBytes ys
    → represent xs ≡ represent ys
    → xs ≡ ys
represent-injective xs ys hx hy bx by e =
    some_inj (sym (all-represent xs hx bx) ∙ ap all e ∙ all-represent ys hy by)

-- For lists of strings, SetOf gives equal sets (== on the Go struct) if and only if the two
-- lists have the same members.
pub set_of_same :
    (es fs : List Bytes)
    → All IsBytes es
    → All IsBytes fs
    → (set_of es ≡ set_of fs) ↔ ((z : Bytes) → elem? z es ≡ elem? z fs)
set_of_same es fs he hf =
    let (re, strict_e, be) = union-Represents [] es tt he in
    let (rf, strict_f, bf) = union-Represents [] fs tt hf in
    (
      (λ e z.
          sym (elem?-compact-sort z es)
          ∙ ap (elem? z) (
              represent-injective (compact (sort es)) (compact (sort fs)) strict_e strict_f be bf
                (some_inj (sym (set_of_lem es) ∙ e ∙ set_of_lem fs)))
          ∙ elem?-compact-sort z fs),
      λ same.
          set_of_lem es
          ∙ ap (λ xs. some (represent xs))
              (strict_ext (compact (sort es)) (compact (sort fs)) strict_e strict_f
                (λ z. elem?-compact-sort z es ∙ same z ∙ sym (elem?-compact-sort z fs)))
          ∙ sym (set_of_lem fs),
    )

to_slice-represent :
    (xs : List Bytes) → IsStrict xs → All IsBytes xs → to_slice (represent xs) ≡ some xs
unfolding to_slice
to_slice-represent [] strict h = rw (cardinality-represent [] strict h) refl
to_slice-represent (x ∷ xs) strict h =
    rw (cardinality-represent (x ∷ xs) strict h, positive (length xs))
      (all-represent (x ∷ xs) strict h)

-- If a set stands for the strings xs, in strict order, then All and ToSlice give xs without a
-- panic, and Cardinality is the length of xs.
pub to_slice-cardinality :
    (s : Set) (xs : List Bytes)
    → Represents s xs
    → (all s ≡ some xs) × (to_slice s ≡ some xs) × (cardinality s ≡ length xs)
to_slice-cardinality s xs (made, strict, h) = (
  rw made (all-represent xs strict h),
  rw made (to_slice-represent xs strict h),
  rw made (cardinality-represent xs strict h),
)
