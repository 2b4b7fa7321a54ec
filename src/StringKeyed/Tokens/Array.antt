-- ===== src/StringKeyed/Tokens/Array.antt =====
-- internal/stringkeyed/set_jsonv2.go: what UnmarshalJSONFrom makes of an array of strings.
use magic_mirror.Prelude.{
  ◌≡◌, inl, inr, refl, sym, ap, ◌∙◌, ℕ, suc, Bool, true, false, ◌||◌, List, [], ◌∷◌, ◌++◌, map,
  length, Bytes, if◌then◌else◌, ◌==◌, Bool-cases, arith, All, IsBytes, bytes_eq_sound,
  bytes_eq_refl,
}
use magic_mirror.StringKeyed.Order.{elem?, All-elem?}
use magic_mirror.StringKeyed.Operations.{set_of}
use magic_mirror.StringKeyed.Laws.{set_of_same}
use magic_mirror.StringKeyed.Tokens.{
  Token, begin_array, end_array, string_token, refused, accepted, duplicate_elements, store_key,
  token_loop, set_of_elements, unmarshal_from,
}

abbrev pub array_of : List Bytes → List Token → List Token
array_of elems rest = begin_array ∷ (map string_token elems ++ (end_array ∷ rest))

-- Whether an element stands twice in the list.
unfoldable pub has_duplicates : List Bytes → Bool
has_duplicates [] = false
has_duplicates (x ∷ xs) = elem? x xs || has_duplicates xs

-- Whether the loop meets a key that it has.
collides : List Bytes → List Bytes → Bool
collides keys [] = false
collides keys (x ∷ xs) = elem? x keys || collides (x ∷ keys) xs

push : List Bytes → List Bytes → List Bytes
push keys [] = keys
push keys (x ∷ xs) = push (x ∷ keys) xs

meets : List Bytes → List Bytes → Bool
meets keys [] = false
meets keys (x ∷ xs) = elem? x keys || meets keys xs

meets_cons :
    (y : Bytes) (keys xs : List Bytes) → meets (y ∷ keys) xs ≡ (elem? y xs || meets keys xs)
unfolding meets elem?
meets_cons y keys [] = refl
meets_cons y keys (x ∷ xs) =
    ground (arith, meets_cons y keys xs, bytes_eq_sound x y, bytes_eq_sound y x, bytes_eq_refl x)

collides-meets : (keys xs : List Bytes) → collides keys xs ≡ (meets keys xs || has_duplicates xs)
unfolding collides meets has_duplicates
collides-meets keys [] = refl
collides-meets keys (x ∷ xs) = ground (arith, collides-meets (x ∷ keys) xs, meets_cons x keys xs)

meets_none : (xs : List Bytes) → meets [] xs ≡ false
unfolding meets elem?
meets_none [] = refl
meets_none (x ∷ xs) = meets_none xs

elem?-push :
    (z : Bytes) (keys xs : List Bytes) → elem? z (push keys xs) ≡ (elem? z xs || elem? z keys)
unfolding push elem?
elem?-push z keys [] = refl
elem?-push z keys (x ∷ xs) = ground (arith, elem?-push z (x ∷ keys) xs)

self_eq : (n : ℕ) → (n == n) ≡ true
self_eq n = ground arith

suc_neq : (n : ℕ) → (suc n == n) ≡ false
suc_neq n = ground arith

or_none : (b : Bool) → (b || false) ≡ b
or_none true = refl
or_none false = refl

token_loop-strings :
    (keys elems : List Bytes) (rest : List Token)
    → token_loop keys (map string_token elems ++ (end_array ∷ rest))
      ≡ (if collides keys elems then refused duplicate_elements else accepted (push keys elems))
unfolding token_loop collides push store_key
token_loop-strings keys [] rest = refl
token_loop-strings keys (x ∷ xs) rest = elim (Bool-cases (elem? x keys)) [
  | inl known ↦ rw (known, self_eq (length keys)) refl
  | inr new ↦ rw (new, suc_neq (length keys)) (token_loop-strings (x ∷ keys) xs rest)
]

All-IsBytes : (xs : List Bytes) → ((z : Bytes) → elem? z xs ≡ true → IsBytes z) → All IsBytes xs
unfolding elem?
All-IsBytes [] h = tt
All-IsBytes (x ∷ xs) h =
    (h x (ground (arith, bytes_eq_refl x)), All-IsBytes xs (λ z e. h z (ground arith)))

-- The keys of the map, in any order, give the set of the elements.
set_of-keys :
    (keys : List Bytes → List Bytes) (elems : List Bytes)
    → All IsBytes elems
    → ((elements : List Bytes) (z : Bytes) → elem? z (keys elements) ≡ elem? z elements)
    → set_of (keys (push [] elems)) ≡ set_of elems
unfolding elem?
set_of-keys keys elems bytes any_order =
    let same : (z : Bytes) → elem? z (keys (push [] elems)) ≡ elem? z elems =
      λ z. any_order (push [] elems) z ∙ elem?-push z [] elems ∙ or_none (elem? z elems) in
    (set_of_same (keys (push [] elems)) elems
        (All-IsBytes (keys (push [] elems))
          (λ z e. All-elem? IsBytes elems bytes z (sym (same z) ∙ e)))
        bytes).1
      same

-- Where the keys of a map come in any order: UnmarshalJSONFrom refuses an array of strings as
-- having duplicates if and only if an element stands twice in it; else it makes the set that SetOf
-- makes of the elements in the order of the array.
pub unmarshal_from-array_of :
    (keys : List Bytes → List Bytes) (elems : List Bytes) (rest : List Token)
    → All IsBytes elems
    → ((elements : List Bytes) (z : Bytes) → elem? z (keys elements) ≡ elem? z elements)
    → unmarshal_from keys (array_of elems rest)
      ≡ (if has_duplicates elems then refused duplicate_elements else accepted (set_of elems))
unfolding unmarshal_from set_of_elements
unmarshal_from-array_of keys elems rest bytes any_order =
    let dup : collides [] elems ≡ has_duplicates elems =
      collides-meets [] elems ∙ ap (λ b. b || has_duplicates elems) (meets_none elems) in
    let loop = token_loop-strings [] elems rest in
    elim (Bool-cases (has_duplicates elems)) [
      | inl twice ↦ rw (loop, dup, twice) refl
      | inr once ↦ rw (loop, dup, once) (ap accepted (set_of-keys keys elems bytes any_order))
    ]
