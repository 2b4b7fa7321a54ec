-- ===== src/StringKeyed/Tokens.antt =====
-- internal/stringkeyed/set_jsonv2.go: sets read from the tokens of a JSON decoder.
pub mod Array
mod Examples
use magic_mirror.Prelude.{
  ℕ, Bool, true, false, List, [], ◌∷◌, length, Option, none, some, Bytes, if◌then◌else◌, ◌==◌,
}
use magic_mirror.StringKeyed.Order.{elem?}
use magic_mirror.StringKeyed.Operations.{Set, set_of}

-- The kinds of a token that the code tells apart.
pub data Token : Type 0 where
  begin_array end_array : Token
  string_token : Bytes → Token
  other_token : Token

pub data Refusal : Type 0 where
  read_failed : Refusal
  array_required : Refusal
  duplicate_elements : Refusal
  not_a_string : Refusal

pub data Unmarshaled (A : Type 0) : Type 0 where
  refused : Refusal → Unmarshaled A
  accepted : A → Unmarshaled A

-- `elements[t] = struct{}{}`, by the keys of the map
unfoldable pub store_key : Bytes → List Bytes → List Bytes
store_key t elements = if elem? t elements then elements else t ∷ elements

-- `tokenLoop`; the decoder fails after its last token.
unfoldable pub token_loop : List Bytes → List Token → Unmarshaled (List Bytes)
unfolding store_key
token_loop elements [] = refused read_failed
token_loop elements (end_array ∷ tokens) = accepted elements
token_loop elements (string_token t ∷ tokens) =
    let stored = store_key t elements in
    let later = token_loop stored tokens in
    if length stored == length elements then refused duplicate_elements else later
token_loop elements (begin_array ∷ tokens) = refused not_a_string
token_loop elements (other_token ∷ tokens) = refused not_a_string

-- `maps.Keys` gives the keys of a map in any order. `none` is a panic of SetOf.
module _ (keys : List Bytes → List Bytes) where
  unfoldable pub set_of_elements : Unmarshaled (List Bytes) → Unmarshaled (Option Set)
  set_of_elements (refused r) = refused r
  set_of_elements (accepted elements) = accepted (set_of (keys elements))

  unfoldable pub unmarshal_from : List Token → Unmarshaled (Option Set)
  unfolding set_of_elements token_loop
  unmarshal_from [] = refused read_failed
  unmarshal_from (begin_array ∷ tokens) = set_of_elements (token_loop [] tokens)
  unmarshal_from (end_array ∷ tokens) = refused array_required
  unmarshal_from (string_token t ∷ tokens) = refused array_required
  unmarshal_from (other_token ∷ tokens) = refused array_required
