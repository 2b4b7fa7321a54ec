-- ===== src/StringKeyed/Operations.antt =====
-- internal/stringkeyed/set.go: the operations of a set. A panic is `none`.
use magic_mirror.Prelude.{
  ◌>>=◌, ℕ, ◌+◌, Bool, false, length, List, [], ◌∷◌, ◌++◌, map, Option, none, some, ltb,
  if◌then◌else◌, Bytes, bytes_eq,
}
use magic_mirror.StringKeyed.Encoding.{encode, decode, join, split, count, unit_separator}
use magic_mirror.StringKeyed.Order.{sort, compact}

pub record Set : Type 0 where
  pub joined : Bytes

abbrev pub empty_set : Set
empty_set = record { joined = [] }

-- Decoding stops at the first element that panics.
unfoldable pub decode_all : List Bytes → Option (List Bytes)
decode_all [] = some []
decode_all (x ∷ xs) = do y ← decode x; ys ← decode_all xs; some (y ∷ ys)

-- `All`, run to its end
unfoldable pub all : Set → Option (List Bytes)
unfolding decode_all
all s =
    if bytes_eq s.joined []
    then some []
    else if bytes_eq s.joined (unit_separator ∷ [])
    then some ([] ∷ [])
    else decode_all (split s.joined)

unfoldable pub cardinality : Set → ℕ
cardinality s =
    if bytes_eq s.joined []
    then 0
    else if bytes_eq s.joined (unit_separator ∷ [])
    then 1
    else 1 + count s.joined

-- `len(all) == 1 && all[0] == ""`
unfoldable pub is_only_empty : List Bytes → Bool
is_only_empty [] = false
is_only_empty (x ∷ []) = bytes_eq x []
is_only_empty (x ∷ y ∷ r) = false

-- The end of `Add`, from the sorted and compacted elements on.
unfoldable pub represent : List Bytes → Set
unfolding is_only_empty
represent xs =
    if is_only_empty xs
    then record { joined = unit_separator ∷ [] }
    else record { joined = join (map encode xs) }

unfoldable pub add : Set → List Bytes → Option Set
unfolding all represent
add s elems = do held ← all s; some (represent (compact (sort (held ++ elems))))

unfoldable pub set_of : List Bytes → Option Set
unfolding add
set_of elems = add empty_set elems

-- An empty list stands for the nil slice too.
unfoldable pub to_slice : Set → Option (List Bytes)
unfolding all cardinality
to_slice s = if ltb 0 (cardinality s) then all s else some []

-- What `UnmarshalJSON` does with the elements it is given: a set, or `none` where it reports
-- duplicates. The outer `none` is a panic.
unfoldable pub unmarshal : List Bytes → Option (Option Set)
unfolding set_of cardinality
unmarshal elems = do
  newset ← set_of elems
  (if ltb (cardinality newset) (length elems) then some none else some (some newset))
