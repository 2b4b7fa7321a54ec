-- ===== src/Command.antt =====
-- main.go: reading the requests for copies from a stream of JSON values.
pub mod Stream
mod Examples
use magic_mirror.Prelude.{ℕ, zero, suc, Bool, List, [], ◌∷◌, ◌++◌, if◌then◌else◌}
use magic_mirror.Copy.Spec.{Spec}

-- What `decoder.Decode` gives: an error, or a raw value, with the decoder after it.
pub data Decoded (D V E : Type 0) : Type 0 where
  decode_error : E → Decoded D V E
  decoded : V → D → Decoded D V E

pub data Parsed (A E : Type 0) : Type 0 where
  parse_error : E → Parsed A E
  parsed : A → Parsed A E

-- The JSON package, and the tests for its errors: `errors.Is(err, io.EOF)`, and `errors.As` for an
-- UnmarshalTypeError.
pub record Json (D V E : Type 0) : Type 0 where
  pub decode : D → Decoded D V E
  pub unmarshal_slice : V → Parsed (List Spec) E
  pub unmarshal_spec : V → Parsed Spec E
  pub is_eof : E → Bool
  pub is_type_error : E → Bool

-- A result, and the decoder after it.
pub data Read (D E : Type 0) : Type 0 where
  read_error : E → Read D E
  read : List Spec → D → Read D E

module _ {D V E : Type 0} (json : Json D V E) where
  unfoldable pub value_or_error : E → Parsed Spec E → Parsed (List Spec) E
  value_or_error slice_err (parsed spec) = parsed (spec ∷ [])
  value_or_error slice_err (parse_error value_err) =
      if json.is_type_error slice_err then parse_error value_err else parse_error slice_err

  unfoldable pub slice_or_value : V → Parsed (List Spec) E → Parsed (List Spec) E
  unfolding value_or_error
  slice_or_value next (parsed specs) = parsed specs
  slice_or_value next (parse_error slice_err) = value_or_error slice_err (json.unmarshal_spec next)

  -- From the two calls of json.Unmarshal on.
  unfoldable pub specs_of_value : V → Parsed (List Spec) E
  unfolding slice_or_value
  specs_of_value next = slice_or_value next (json.unmarshal_slice next)

  unfoldable pub with_decoder : Parsed (List Spec) E → D → Read D E
  with_decoder (parse_error e) d = read_error e
  with_decoder (parsed specs) d = read specs d

  unfoldable pub read_decoded : Decoded D V E → Read D E
  unfolding specs_of_value with_decoder
  read_decoded (decode_error e) = read_error e
  read_decoded (decoded next d) = with_decoder (specs_of_value next) d

  unfoldable pub read_next_copy_specs : D → Read D E
  unfolding read_decoded
  read_next_copy_specs d = read_decoded (json.decode d)

  unfoldable pub end_or_error : List Spec → E → Parsed (List Spec) E
  end_or_error all_specs e = if json.is_eof e then parsed all_specs else parse_error e

-- The loop of readAllCopySpecs: one unit of fuel for each value, and one for the end. `none`: out of
-- fuel.
pub data Loop (E : Type 0) : Type 0 where
  out_of_fuel : Loop E
  ends : Parsed (List Spec) E → Loop E

module _ {D V E : Type 0} (json : Json D V E) where
  unfoldable pub after_read : List Spec → (List Spec → D → Loop E) → Read D E → Loop E
  unfolding end_or_error
  after_read all_specs go_on (read_error e) = ends (end_or_error json all_specs e)
  after_read all_specs go_on (read specs d) = go_on (all_specs ++ specs) d

  unfoldable pub read_loop : ℕ → List Spec → D → Loop E
  unfolding read_next_copy_specs after_read
  read_loop zero all_specs d = out_of_fuel
  read_loop (suc fuel) all_specs d =
      after_read all_specs (λ specs d'. read_loop fuel specs d') (read_next_copy_specs json d)

  unfoldable pub read_all_copy_specs : ℕ → D → Loop E
  unfolding read_loop
  read_all_copy_specs fuel d = read_loop fuel [] d
