-- ===== src/Command/Stream.antt =====
-- main.go: what readAllCopySpecs makes of a stream that ends.
use magic_mirror.Prelude.{
  if◌then◌else◌, ◌≡◌, inl, inr, Bool-cases, refl, ap, ◌∙◌, ℕ, zero, suc, ◌<◌, false, List, [], ◌∷◌,
  ◌++◌, length, append-nil, append_assoc, arith,
}
use magic_mirror.Copy.Spec.{Spec}
use magic_mirror.Command.{
  slice_or_value, value_or_error, decode_error, decoded, Parsed, parse_error, parsed, Json,
  specs_of_value, with_decoder, read_decoded, read_next_copy_specs, end_or_error, Loop, ends,
  after_read, read_loop, read_all_copy_specs,
}

module _ {D V E : Type 0} (json : Json D V E) where
  -- From the decoder d, the stream is these values, and then the error e of Decode.
  pub data Streams (e : E) : D → List V → Type 0 where
    at_end : {d : D} → json.decode d ≡ decode_error e → Streams e d []
    next_value :
        {d : D} (next : V) (d' : D) {rest : List V}
        → json.decode d ≡ decoded next d'
        → Streams e d' rest
        → Streams e d (next ∷ rest)

  unfoldable pub join_parsed : Parsed (List Spec) E → Parsed (List Spec) E → Parsed (List Spec) E
  join_parsed (parse_error e) other = parse_error e
  join_parsed (parsed specs) (parse_error e) = parse_error e
  join_parsed (parsed specs) (parsed others) = parsed (specs ++ others)

  -- What a value means, by what it is as a list of requests and as a request: the list; else the one
  -- request; else an error, that of the list unless it is one of type.
  unfoldable pub requests_in : Parsed (List Spec) E → Parsed Spec E → Parsed (List Spec) E
  requests_in (parsed specs) as_spec = parsed specs
  requests_in (parse_error slice_err) (parsed spec) = parsed (spec ∷ [])
  requests_in (parse_error slice_err) (parse_error value_err) =
      parse_error (if json.is_type_error slice_err then value_err else slice_err)

  abbrev pub requests_of : V → Parsed (List Spec) E
  requests_of next = requests_in (json.unmarshal_slice next) (json.unmarshal_spec next)

  slice_or_value-requests_in :
      (next : V) (as_slice : Parsed (List Spec) E) (as_spec : Parsed Spec E)
      → json.unmarshal_spec next ≡ as_spec
      → slice_or_value json next as_slice ≡ requests_in as_slice as_spec
  unfolding slice_or_value requests_in value_or_error
  slice_or_value-requests_in next (parsed specs) as_spec e = refl
  slice_or_value-requests_in next (parse_error err) (parsed spec) e = rw e refl
  slice_or_value-requests_in next (parse_error err) (parse_error err') e =
      elim (Bool-cases (json.is_type_error err)) [
        | inl type ↦ rw (e, type) refl
        | inr other ↦ rw (e, other) refl
      ]

  specs_of_value-requests_of : (next : V) → specs_of_value json next ≡ requests_of next
  unfolding specs_of_value
  specs_of_value-requests_of next =
      slice_or_value-requests_in next (json.unmarshal_slice next) (json.unmarshal_spec next) refl

  -- The requests of all values, in order; or the first error, where e is an error if it is not EOF.
  unfoldable pub all_specs_of : E → List V → Parsed (List Spec) E
  unfolding join_parsed
  all_specs_of e [] = if json.is_eof e then parsed [] else parse_error e
  all_specs_of e (next ∷ rest) = join_parsed (requests_of next) (all_specs_of e rest)

  -- No error of the JSON package for a value is EOF.
  abbrev pub NoEof : Type 0
  NoEof = (next : V) (err : E) → requests_of next ≡ parse_error err → json.is_eof err ≡ false

  join-end :
      (all_specs : List Spec) (e : E)
      → end_or_error json all_specs e
        ≡ join_parsed (parsed all_specs) (if json.is_eof e then parsed [] else parse_error e)
  unfolding end_or_error join_parsed
  join-end all_specs e = elim (Bool-cases (json.is_eof e)) [
    | inl eof ↦ rw (eof, append-nil all_specs) refl
    | inr other ↦ rw other refl
  ]

  join_twice :
      (all_specs specs : List Spec) (r : Parsed (List Spec) E)
      → join_parsed (parsed (all_specs ++ specs)) r
        ≡ join_parsed (parsed all_specs) (join_parsed (parsed specs) r)
  unfolding join_parsed
  join_twice all_specs specs (parse_error e) = refl
  join_twice all_specs specs (parsed others) = ap parsed (append_assoc all_specs specs others)

  -- If the loop goes on rightly after the requests of a value, then it is right for the value.
  after_value :
      (next : V) (rest : Parsed (List Spec) E) (d' : D) (all_specs : List Spec)
      (go_on : List Spec → D → Loop E) (r : Parsed (List Spec) E)
      → NoEof
      → requests_of next ≡ r
      → ((specs : List Spec) → go_on specs d' ≡ ends (join_parsed (parsed specs) rest))
      → after_read json all_specs go_on (with_decoder json r d')
        ≡ ends (join_parsed (parsed all_specs) (join_parsed r rest))
  unfolding after_read with_decoder join_parsed end_or_error
  after_value next rest d' all_specs go_on (parse_error err) no_eof e h =
      rw (no_eof next err e) refl
  after_value next rest d' all_specs go_on (parsed specs) no_eof e h =
      h (all_specs ++ specs) ∙ ap ends (join_twice all_specs specs rest)

  read_loop-Streams :
      (e : E) (fuel : ℕ) (d : D) (values : List V) (all_specs : List Spec)
      → Streams e d values
      → NoEof
      → length values < fuel
      → read_loop json fuel all_specs d
        ≡ ends (join_parsed (parsed all_specs) (all_specs_of e values))
  unfolding read_loop read_next_copy_specs read_decoded all_specs_of after_read
  read_loop-Streams e zero d values all_specs stream no_eof enough = absurd (omega arith)
  read_loop-Streams e (suc fuel) d values all_specs (at_end ended) no_eof enough =
      rw ended (ap ends (join-end all_specs e))
  read_loop-Streams e (suc fuel) d values all_specs (next_value next d' {rest = rest} found stream)
        no_eof enough =
      rw (found, specs_of_value-requests_of next)
        (after_value next (all_specs_of e rest) d' all_specs
          (λ specs d''. read_loop json fuel specs d'') (requests_of next) no_eof refl
          λ specs. read_loop-Streams e fuel d' rest specs stream no_eof (omega arith))

  join_none : (r : Parsed (List Spec) E) → join_parsed (parsed []) r ≡ r
  unfolding join_parsed
  join_none (parse_error e) = refl
  join_none (parsed specs) = refl

  -- Where the JSON package reports no EOF for a value that it has decoded: on a stream of values
  -- that ends in an error of Decode, readAllCopySpecs ends, within one round more than there are
  -- values. It returns the requests of all values in order if the last error is EOF, those of a
  -- list and that of a single request; else, or if a value is neither, it returns the first error
  -- and no request.
  pub read_all_copy_specs-Streams :
      (e : E) (d : D) (values : List V) (fuel : ℕ)
      → NoEof
      → Streams e d values
      → length values < fuel
      → read_all_copy_specs json fuel d ≡ ends (all_specs_of e values)
  unfolding read_all_copy_specs
  read_all_copy_specs-Streams e d values fuel no_eof stream enough =
      read_loop-Streams e fuel d values [] stream no_eof enough
      ∙ ap ends (join_none (all_specs_of e values))
