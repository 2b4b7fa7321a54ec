-- ===== src/StringKeyed/Encoding.antt =====
-- The element encoding of internal/stringkeyed/set.go, and strings.Join and strings.SplitSeq at its
-- separator.
use magic_mirror.Prelude.{
  ℕ, suc, ◌<◌, ◌≡◌, ◌≢◌, refl, ap, ◌∙◌, Bool, false, ◌||◌, length, List, [], ◌∷◌, ◌++◌, Option,
  some, arith, ◌==◌, if◌then◌else◌, Bytes, All, IsBytes, Bool-cases, inl, inr,
}
use magic_mirror.StringKeyed.Base64.{encode64, decode64, decode64-encode64, encode64_printable}

abbrev pub shift_out : ℕ
shift_out = 14

abbrev pub unit_separator : ℕ
unit_separator = 31

-- `strings.Contains` of one byte
unfoldable pub contains : Bytes → ℕ → Bool
contains [] b = false
contains (c ∷ s) b = c == b || contains s b

-- `strings.HasPrefix` of one byte
unfoldable pub has_prefix : Bytes → ℕ → Bool
has_prefix [] b = false
has_prefix (c ∷ s) b = c == b

unfoldable pub encode_base64_element : Bytes → Bytes
encode_base64_element elem = shift_out ∷ encode64 elem

unfoldable pub encode : Bytes → Bytes
unfolding contains has_prefix encode_base64_element
encode elem =
    if contains elem unit_separator || has_prefix elem shift_out
    then encode_base64_element elem
    else elem

-- `elem[1:]`
unfoldable pub strip_first : Bytes → Bytes
strip_first [] = []
strip_first (c ∷ s) = s

unfoldable pub decode_base64_element : Bytes → Option Bytes
unfolding strip_first
decode_base64_element elem = decode64 (strip_first elem)

-- `none` is a panic.
unfoldable pub decode : Bytes → Option Bytes
unfolding has_prefix decode_base64_element
decode elem = if has_prefix elem shift_out then decode_base64_element elem else some elem

-- `strings.Join(elems, unitSeparator)`
unfoldable pub join : List Bytes → Bytes
join [] = []
join (x ∷ []) = x
join (x ∷ y ∷ r) = x ++ unit_separator ∷ join (y ∷ r)

push_first : ℕ → List Bytes → List Bytes
push_first c [] = (c ∷ []) ∷ []
push_first c (x ∷ xs) = (c ∷ x) ∷ xs

-- `strings.SplitSeq(s, unitSeparator)`
unfoldable pub split : Bytes → List Bytes
unfolding push_first
split [] = [] ∷ []
split (c ∷ s) = let rest = split s in if c == unit_separator then [] ∷ rest else push_first c rest

-- `strings.Count(s, unitSeparator)`
unfoldable pub count : Bytes → ℕ
count [] = 0
count (c ∷ s) = let rest = count s in if c == unit_separator then suc rest else rest

printable-no_separator : (s : Bytes) → All (λ c. 32 < c) s → contains s unit_separator ≡ false
unfolding contains
printable-no_separator [] h = refl
printable-no_separator (c ∷ s) h = ground (arith, printable-no_separator s)

pub encode-no_separator : (x : Bytes) → IsBytes x → contains (encode x) unit_separator ≡ false
unfolding encode
encode-no_separator x h = elim (Bool-cases (contains x unit_separator)) [
  | inl found ↦ rw (found, printable-no_separator (encode64 x) (encode64_printable x h))
  | inr clear ↦ elim (Bool-cases (has_prefix x shift_out)) [
    | inl marked ↦ rw (marked, clear, printable-no_separator (encode64 x) (encode64_printable x h))
    | inr plain ↦ rw (plain, clear, clear)
  ]
]

-- For every string, decode of what encode gives does not panic and gives the string.
pub decode-encode : (x : Bytes) → IsBytes x → decode (encode x) ≡ some x
unfolding encode decode
decode-encode x h = elim (Bool-cases (contains x unit_separator)) [
  | inl found ↦ rw found (decode64-encode64 x h)
  | inr clear ↦ elim (Bool-cases (has_prefix x shift_out)) [
    | inl marked ↦ rw (clear, marked) (decode64-encode64 x h)
    | inr plain ↦ rw (clear, plain, plain)
  ]
]

split_one : (x : Bytes) → contains x unit_separator ≡ false → split x ≡ x ∷ []
unfolding split contains push_first
split_one [] h = refl
split_one (c ∷ x) h = ground (arith, split_one x)

split-append :
    (x s : Bytes)
    → contains x unit_separator ≡ false
    → split (x ++ unit_separator ∷ s) ≡ x ∷ split s
unfolding split contains push_first
split-append [] s h = refl
split-append (c ∷ x) s h = ground (arith, split-append x s)

pub split-join :
    (x : Bytes) (xs : List Bytes)
    → All (λ y. contains y unit_separator ≡ false) (x ∷ xs)
    → split (join (x ∷ xs)) ≡ x ∷ xs
unfolding join
split-join x [] (h, hs) = split_one x h
split-join x (y ∷ xs) (h, hs) =
    split-append x (join (y ∷ xs)) h ∙ ap (λ r. x ∷ r) (split-join y xs hs)

length-push_first : (c : ℕ) (xs : List Bytes) → xs ≢ [] → length (push_first c xs) ≡ length xs
unfolding push_first
length-push_first c [] h = absurd (h refl)
length-push_first c (x ∷ xs) h = refl

push_first-nonempty : (c : ℕ) (xs : List Bytes) → push_first c xs ≢ []
unfolding push_first
push_first-nonempty c [] e = cc
push_first-nonempty c (x ∷ xs) e = cc

split-nonempty : (s : Bytes) → split s ≢ []
unfolding split
split-nonempty [] e = cc
split-nonempty (c ∷ s) e = elim (Bool-cases (c == unit_separator)) [
  | inl separator ↦ ground arith
  | inr other ↦ ground (arith, push_first-nonempty c (split s))
]

pub length-split : (s : Bytes) → length (split s) ≡ suc (count s)
unfolding split count push_first
length-split [] = refl
length-split (c ∷ s) = elim (Bool-cases (c == unit_separator)) [
  | inl separator ↦ rw separator (ap suc (length-split s))
  | inr other ↦ rw other (length-push_first c (split s) (split-nonempty s) ∙ length-split s)
]
