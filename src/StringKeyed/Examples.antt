-- ===== src/StringKeyed/Examples.antt =====
-- Runs of internal/stringkeyed/set.go on small sets, and the theorems applied to them.
use magic_mirror.Prelude.{
  ◌≡◌, refl, ◌||◌, List, [], ◌∷◌, none, some, arith, Bytes, All, IsBytes, bytes_lt, bytes_eq, codes,
  ◌↔◌,
}
use magic_mirror.StringKeyed.Encoding.{encode, count, decode, decode-encode, join}
use magic_mirror.StringKeyed.Base64.{encode64}
use magic_mirror.StringKeyed.Order.{elem?, IsStrict, sort, compact}
use magic_mirror.StringKeyed.Operations.{
  Set, all, add, cardinality, represent, set_of, to_slice, unmarshal,
}
use magic_mirror.StringKeyed.Laws.{Represents, add_union, set_of_same, to_slice-cardinality}

abbrev separated : Bytes
separated = 97 ∷ 31 ∷ []

abbrev two_elements : List Bytes
two_elements = [] ∷ separated ∷ []

-- The second element is written in base64 after the marker.
run_encode : encode separated ≡ codes "\u{e}YR8="
unfolding encode encode64
run_encode = refl

run_set_of : set_of (separated ∷ [] ∷ separated ∷ []) ≡ some (represent two_elements)
unfolding set_of bytes_eq compact sort bytes_lt
run_set_of = refl

run_unmarshal : unmarshal (separated ∷ separated ∷ []) ≡ some none
unfolding unmarshal bytes_eq compact sort bytes_lt join encode count encode64
run_unmarshal = refl

separated-IsBytes : IsBytes separated
separated-IsBytes = (omega arith, (omega arith, tt))

two_elements-IsBytes : All IsBytes two_elements
two_elements-IsBytes = (tt, (separated-IsBytes, tt))

two_elements-IsStrict : IsStrict two_elements
unfolding bytes_lt
two_elements-IsStrict = ((refl, tt), (tt, tt))

two_elements-Represents : Represents (represent two_elements) two_elements
two_elements-Represents = (refl, two_elements-IsStrict, two_elements-IsBytes)

decode-encode_example : decode (encode separated) ≡ some separated
decode-encode_example = decode-encode separated separated-IsBytes

add_union_example :
    (t : Set) × (ys : List Bytes) × (add (represent two_elements) (separated ∷ []) ≡ some t)
    × Represents t ys
    × ((z : Bytes) → elem? z ys ≡ (elem? z two_elements || elem? z (separated ∷ [])))
add_union_example =
    add_union (represent two_elements) two_elements (separated ∷ []) two_elements-Represents
      (separated-IsBytes, tt)

set_of_same_example :
    (set_of two_elements ≡ set_of (separated ∷ []))
    ↔ ((z : Bytes) → elem? z two_elements ≡ elem? z (separated ∷ []))
set_of_same_example =
    set_of_same two_elements (separated ∷ []) two_elements-IsBytes (separated-IsBytes, tt)

to_slice-cardinality_example :
    (all (represent two_elements) ≡ some two_elements)
    × (to_slice (represent two_elements) ≡ some two_elements)
    × (cardinality (represent two_elements) ≡ 2)
to_slice-cardinality_example =
    to_slice-cardinality (represent two_elements) two_elements two_elements-Represents
