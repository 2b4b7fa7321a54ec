-- ===== src/StringKeyed/Base64.antt =====
-- base64.StdEncoding of Go's standard library, as set.go uses it.
use magic_mirror.Prelude.{
  ◌>>=◌, ℕ, ◌+◌, ◌-◌, ◌*◌, ◌/◌, ◌%◌, ◌<◌, ◌≡◌, refl, ◌∙◌, false, ◌&&◌, ◌||◌, [], ◌∷◌, Option, none,
  some, arith, ltb, leb, ◌==◌, if◌then◌else◌, Bytes, All, IsBytes,
}

-- the character of a six-bit value
unfoldable pub alphabet : ℕ → ℕ
alphabet n =
    if ltb n 26
    then n + 65
    else if ltb n 52
    then n + 71
    else if ltb n 62
    then n - 52 + 48
    else if n == 62
    then b'+'
    else b'/'

unfoldable pub sextet : ℕ → Option ℕ
sextet c =
    if leb 65 c && leb c 90
    then some (c - 65)
    else if leb 97 c && leb c 122
    then some (c - 71)
    else if leb 48 c && leb c 57
    then some (c - 48 + 52)
    else if c == b'+'
    then some 62
    else if c == b'/'
    then some 63
    else none

abbrev pub pad : ℕ
pad = b'='

unfoldable pub encode64 : Bytes → Bytes
unfolding alphabet
encode64 [] = []
encode64 (a ∷ []) = alphabet (a / 4) ∷ alphabet (a % 4 * 16) ∷ pad ∷ pad ∷ []
encode64 (a ∷ b ∷ []) =
    alphabet (a / 4) ∷ alphabet (a % 4 * 16 + b / 16) ∷ alphabet (b % 16 * 4) ∷ pad ∷ []
encode64 (a ∷ b ∷ c ∷ r) =
    alphabet (a / 4)
    ∷ alphabet (a % 4 * 16 + b / 16)
    ∷ alphabet (b % 16 * 4 + c / 64)
    ∷ alphabet (c % 64)
    ∷ encode64 r

-- The last group of four, with its padding.
two_bytes : ℕ → ℕ → ℕ → Option Bytes
two_bytes i j y = do k ← sextet y; some ((i * 4 + j / 16) ∷ (j % 16 * 16 + k / 4) ∷ [])

last_quad : ℕ → ℕ → ℕ → Option Bytes
unfolding two_bytes
last_quad w x y = do
  i ← sextet w
  j ← sextet x
  (if y == pad then some ((i * 4 + j / 16) ∷ []) else two_bytes i j y)

full_quad : ℕ → ℕ → ℕ → ℕ → Option Bytes → Option Bytes
full_quad w x y z rest = do
  i ← sextet w
  j ← sextet x
  k ← sextet y
  l ← sextet z
  r ← rest
  some ((i * 4 + j / 16) ∷ (j % 16 * 16 + k / 4) ∷ (k % 4 * 64 + l) ∷ r)

-- Groups of four; padding stands in the last one only.
unfoldable pub decode_quads : Bytes → Option Bytes
unfolding last_quad full_quad sextet
decode_quads [] = some []
decode_quads (w ∷ []) = none
decode_quads (w ∷ x ∷ []) = none
decode_quads (w ∷ x ∷ y ∷ []) = none
decode_quads (w ∷ x ∷ y ∷ z ∷ []) =
    if z == pad then last_quad w x y else full_quad w x y z (some [])
decode_quads (w ∷ x ∷ y ∷ z ∷ v ∷ r) = full_quad w x y z (decode_quads (v ∷ r))

-- The decoder skips line breaks.
unfoldable pub drop_breaks : Bytes → Bytes
drop_breaks [] = []
drop_breaks (c ∷ s) = let rest = drop_breaks s in if c == 10 || c == 13 then rest else c ∷ rest

-- `DecodeString`; `none` is an error.
unfoldable pub decode64 : Bytes → Option Bytes
unfolding decode_quads drop_breaks
decode64 s = decode_quads (drop_breaks s)

mod_small : (b : ℕ) → b < 256 → b % 256 ≡ b
mod_small b h = omega arith

sextet-alphabet : (n : ℕ) → n < 64 → sextet (alphabet n) ≡ some n
unfolding sextet alphabet
sextet-alphabet n h = ground arith

alphabet_printable : (n : ℕ) → n < 64 → 32 < alphabet n
unfolding alphabet
alphabet_printable n h = ground arith

alphabet-no_pad : (n : ℕ) → n < 64 → (alphabet n == pad) ≡ false
unfolding alphabet
alphabet-no_pad n h = ground arith

-- Encoded text holds printable characters only.
pub encode64_printable : (s : Bytes) → IsBytes s → All (λ c. 32 < c) (encode64 s)
unfolding encode64
encode64_printable [] h = tt
encode64_printable (a ∷ []) (ha, h) = (
  alphabet_printable (a / 4) (omega arith),
  (alphabet_printable (a % 4 * 16) (omega arith), (omega arith, (omega arith, tt))),
)
encode64_printable (a ∷ b ∷ []) (ha, (hb, h)) = (
  alphabet_printable (a / 4) (omega arith),
  (
    alphabet_printable (a % 4 * 16 + b / 16) (omega arith),
    (alphabet_printable (b % 16 * 4) (omega arith), (omega arith, tt)),
  ),
)
encode64_printable (a ∷ b ∷ c ∷ r) (ha, (hb, (hc, h))) = (
  alphabet_printable (a / 4) (omega arith),
  (
    alphabet_printable (a % 4 * 16 + b / 16) (omega arith),
    (
      alphabet_printable (b % 16 * 4 + c / 64) (omega arith),
      (alphabet_printable (c % 64) (omega arith), encode64_printable r h),
    ),
  ),
)

-- The three shifts of a group put the bytes together again.
join_first : (a b : ℕ) → b < 256 → a / 4 * 4 + (a % 4 * 16 + b / 16) / 16 ≡ a
join_first a b hb = omega arith

join_second :
    (a b c : ℕ) → c < 256 → (a % 4 * 16 + b / 16) % 16 * 16 + (b % 16 * 4 + c / 64) / 4 ≡ b % 256
join_second a b c hc = omega arith

join_third : (b c : ℕ) → (b % 16 * 4 + c / 64) % 4 * 64 + c % 64 ≡ c % 256
join_third b c = omega arith

join_one : (a : ℕ) → a / 4 * 4 + a % 4 * 16 / 16 ≡ a
join_one a = omega arith

join_two : (a b : ℕ) → b < 256 → (a % 4 * 16 + b / 16) % 16 * 16 + b % 16 * 4 / 4 ≡ b
join_two a b hb = omega arith

full_quad-encode64 :
    (a b c : ℕ) (rest : Option Bytes) (r : Bytes)
    → a < 256
    → b < 256
    → c < 256
    → rest ≡ some r
    → full_quad
        (alphabet (a / 4))
        (alphabet (a % 4 * 16 + b / 16))
        (alphabet (b % 16 * 4 + c / 64))
        (alphabet (c % 64))
        rest
      ≡ some (a ∷ b ∷ c ∷ r)
unfolding full_quad
full_quad-encode64 a b c rest r ha hb hc e =
    rw
      (
        sextet-alphabet (a / 4) (omega arith),
        sextet-alphabet (a % 4 * 16 + b / 16) (omega arith),
        sextet-alphabet (b % 16 * 4 + c / 64) (omega arith),
        sextet-alphabet (c % 64) (omega arith),
        e,
      )
      (rw (join_first a b hb, join_second a b c hc, join_third b c, mod_small b hb, mod_small c hc))

last_quad_one :
    (a : ℕ) → a < 256 → last_quad (alphabet (a / 4)) (alphabet (a % 4 * 16)) pad ≡ some (a ∷ [])
unfolding last_quad
last_quad_one a ha =
    rw (
      sextet-alphabet (a / 4) (omega arith),
      sextet-alphabet (a % 4 * 16) (omega arith),
      join_one a,
    )

last_quad_two :
    (a b : ℕ)
    → a < 256
    → b < 256
    → last_quad (alphabet (a / 4)) (alphabet (a % 4 * 16 + b / 16)) (alphabet (b % 16 * 4))
      ≡ some (a ∷ b ∷ [])
unfolding last_quad two_bytes
last_quad_two a b ha hb =
    rw
      (
        sextet-alphabet (a / 4) (omega arith),
        sextet-alphabet (a % 4 * 16 + b / 16) (omega arith),
        alphabet-no_pad (b % 16 * 4) (omega arith),
        sextet-alphabet (b % 16 * 4) (omega arith),
      )
      (rw (join_first a b hb, join_two a b hb))

-- A group whose last character is no padding is decoded before the rest.
decode_quads_step :
    (w x y z : ℕ) (s : Bytes)
    → (z == pad) ≡ false
    → decode_quads (w ∷ x ∷ y ∷ z ∷ s) ≡ full_quad w x y z (decode_quads s)
unfolding decode_quads
decode_quads_step w x y z [] h = rw h
decode_quads_step w x y z (v ∷ s) h = refl

pub decode_quads-encode64 : (s : Bytes) → IsBytes s → decode_quads (encode64 s) ≡ some s
unfolding encode64 decode_quads
decode_quads-encode64 [] h = refl
decode_quads-encode64 (a ∷ []) (ha, h) = last_quad_one a ha
decode_quads-encode64 (a ∷ b ∷ []) (ha, (hb, h)) = last_quad_two a b ha hb
decode_quads-encode64 (a ∷ b ∷ c ∷ r) (ha, (hb, (hc, h))) =
    decode_quads_step (alphabet (a / 4)) (alphabet (a % 4 * 16 + b / 16))
      (alphabet (b % 16 * 4 + c / 64)) (alphabet (c % 64)) (encode64 r)
      (alphabet-no_pad (c % 64) (omega arith))
    ∙ full_quad-encode64 a b c (decode_quads (encode64 r)) r ha hb hc (decode_quads-encode64 r h)

drop_breaks_printable : (s : Bytes) → All (λ c. 32 < c) s → drop_breaks s ≡ s
unfolding drop_breaks
drop_breaks_printable [] h = refl
drop_breaks_printable (c ∷ s) h = ground (arith, drop_breaks_printable s)

pub decode64-encode64 : (s : Bytes) → IsBytes s → decode64 (encode64 s) ≡ some s
unfolding decode64
decode64-encode64 s h =
    rw (drop_breaks_printable (encode64 s) (encode64_printable s h)) (decode_quads-encode64 s h)
