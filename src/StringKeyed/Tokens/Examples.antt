-- ===== src/StringKeyed/Tokens/Examples.antt =====
-- internal/stringkeyed/set_jsonv2.go on an array of two strings, with the keys in another order.
use magic_mirror.Prelude.{
  ◌≡◌, refl, if◌then◌else◌, List, [], ◌∷◌, ◌++◌, Bytes, codes, All, IsBytes, arith,
}
use magic_mirror.StringKeyed.Order.{elem?}
use magic_mirror.StringKeyed.Operations.{set_of}
use magic_mirror.StringKeyed.Tokens.{refused, accepted, duplicate_elements, unmarshal_from}
use magic_mirror.StringKeyed.Tokens.Array.{array_of, has_duplicates, unmarshal_from-array_of}

backwards : List Bytes → List Bytes
backwards [] = []
backwards (x ∷ xs) = backwards xs ++ (x ∷ [])

elem?-snoc : (z x : Bytes) (xs : List Bytes) → elem? z (xs ++ (x ∷ [])) ≡ elem? z (x ∷ xs)
unfolding elem?
elem?-snoc z x [] = refl
elem?-snoc z x (y ∷ ys) = ground (arith, elem?-snoc z x ys)

elem?-backwards : (xs : List Bytes) (z : Bytes) → elem? z (backwards xs) ≡ elem? z xs
unfolding elem? backwards
elem?-backwards [] z = refl
elem?-backwards (x ∷ xs) z = ground (arith, elem?-snoc z x (backwards xs), elem?-backwards xs z)

abbrev elems : List Bytes
elems = codes "a" ∷ codes "b" ∷ []

elems-IsBytes : All IsBytes elems
elems-IsBytes = ((omega arith, tt), ((omega arith, tt), tt))

unmarshal_from-array_of_example :
    unmarshal_from backwards (array_of elems [])
    ≡ (if has_duplicates elems then refused duplicate_elements else accepted (set_of elems))
unmarshal_from-array_of_example =
    unmarshal_from-array_of backwards elems [] elems-IsBytes (λ es z. elem?-backwards es z)
