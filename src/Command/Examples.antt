-- ===== src/Command/Examples.antt =====
-- main.go on a stream of a list of two requests, and one request.
use magic_mirror.Prelude.{◌≡◌, refl, arith, true, false, Bool, List, [], ◌∷◌, codes, Bytes}
use magic_mirror.StringKeyed.Operations.{empty_set}
use magic_mirror.Image.Types.{Image}
use magic_mirror.Copy.Spec.{Spec}
use magic_mirror.Command.{
  Decoded, decode_error, decoded, Parsed, parse_error, parsed, Json, specs_of_value, Loop, ends,
  read_all_copy_specs,
}
use magic_mirror.Command.Stream.{
  NoEof, Streams, at_end, next_value, all_specs_of, requests_in, read_all_copy_specs-Streams,
}

data Value : Type 0 where
  slice : List Spec → Value
  object : Spec → Value

data Error : Type 0 where
  eof type_error : Error

decode : List Value → Decoded (List Value) Value Error
decode [] = decode_error eof
decode (v ∷ vs) = decoded v vs

unmarshal_slice : Value → Parsed (List Spec) Error
unmarshal_slice (slice specs) = parsed specs
unmarshal_slice (object spec) = parse_error type_error

unmarshal_spec : Value → Parsed Spec Error
unmarshal_spec (slice specs) = parse_error type_error
unmarshal_spec (object spec) = parsed spec

is_eof : Error → Bool
is_eof eof = true
is_eof type_error = false

abbrev json : Json (List Value) Value Error
json = record {
  decode = decode;
  unmarshal_slice = unmarshal_slice;
  unmarshal_spec = unmarshal_spec;
  is_eof = is_eof;
  is_type_error = λ e. true;
}

image : Bytes → Image
image name = record {
  repository = record { registry = codes "r"; namespace = name };
  tag = codes "t";
  digest = [];
}

spec : Bytes → Spec
spec name = record {
  src = image name;
  dst = image (codes "d");
  transform = record { limit_platforms = empty_set };
}

abbrev values : List Value
values = slice (spec (codes "a") ∷ spec (codes "b") ∷ []) ∷ object (spec (codes "c")) ∷ []

streams : Streams json eof values values
unfolding decode
streams = next_value _ _ refl (next_value _ _ refl (at_end refl))

parsed_error : {err : Error} {specs : List Spec} → parsed specs ≡ parse_error err → ⊥
parsed_error e = cc

no_eof : NoEof json
unfolding requests_in unmarshal_slice unmarshal_spec
no_eof (slice specs) err e = absurd (parsed_error e)
no_eof (object spec) err e = absurd (parsed_error e)

all_read :
    all_specs_of json eof values
    ≡ parsed (spec (codes "a") ∷ spec (codes "b") ∷ spec (codes "c") ∷ [])
unfolding all_specs_of requests_in unmarshal_slice unmarshal_spec is_eof
    magic_mirror.Command.end_or_error
all_read = refl

read_all_copy_specs-Streams_example :
    read_all_copy_specs json 3 values ≡ ends (all_specs_of json eof values)
read_all_copy_specs-Streams_example =
    read_all_copy_specs-Streams json eof values values 3 no_eof streams (omega arith)
