-- ===== src/String/MultiByte/Sequences.antt =====
-- multi_byte.cpp: the loops over sequences of code points.
use eagine_core.Common.{
  ℕ, zero, suc, ◌+◌, ◌≤◌, ◌<◌, true, some, List, [], ◌∷◌, ◌++◌, length, drop, length-append,
  length-drop, drop-add, ◌≡◌, refl, sym, ap, ◌∙◌, arith,
}
use mathlib.Core.Option.{some-injective}
use mathlib.Core.List.{append_assoc}
use eagine_core.String.MultiByte.Masks.{required_sequence_length}
use eagine_core.String.MultiByte.Spans.{
  encoding_bytes_required, encoding_bytes_required_from, decoding_code_points_required,
  decoding_code_points_required_from, encode_code_points, encode_code_points_from,
  decode_code_points, decode_code_points_from,
}
use eagine_core.String.MultiByte.Bytes.{encoding}
use eagine_core.String.MultiByte.RoundTrip.{required-Fits, length-encoding, length-append-encoding}
use eagine_core.String.MultiByte.Single.{drop-append}
use eagine_core.String.MultiByte.Steps.{
  AllValid, encoded, length-encoded, required_length_ok, decode_step, encode_step, counted_step,
}

required_from_lem :
    (cps : List ℕ) (r : ℕ)
    → AllValid cps
    → encoding_bytes_required_from cps r ≡ some (r + length (encoded cps))
unfolding encoding_bytes_required_from encoded
required_from_lem [] r v = ap some (omega arith)
required_from_lem (cp ∷ cps) r v =
    let l = required_sequence_length cp in
    rw (required_length_ok cp v.0, required_from_lem cps (r + l) v.1)
      (ap some (omega (arith, length-encoded cp cps v.0)))

decode_from_lem :
    (cps pre rest : List ℕ) (i : ℕ)
    → AllValid cps
    → length pre ≡ i
    → decode_code_points_from (length cps) i (pre ++ (encoded cps ++ rest)) ≡ (cps, true)
unfolding decode_code_points_from encoded
decode_from_lem [] pre rest i v e = refl
decode_from_lem (cp ∷ cps) pre rest i v e =
    let l = required_sequence_length cp in
    let enc = encoding l cp in
    let f = required-Fits cp v.0 in
    let more = encoded cps ++ rest in
    let bytes : pre ++ (enc ++ more) ≡ (pre ++ enc) ++ more = sym (append_assoc pre enc more) in
    let longer : length (pre ++ enc) ≡ i + l =
      omega (arith, length-append pre enc, length-encoding l cp f) in
    let step =
      decode_step cp (length cps) i (pre ++ (enc ++ more)) more v.0
        (omega (arith, length-append pre (enc ++ more), length-append-encoding l cp f more, f.lo))
        (drop-append pre (enc ++ more) i e) in
    rw
      (
        append_assoc enc (encoded cps) rest,
        step,
        bytes,
        decode_from_lem cps (pre ++ enc) rest (i + l) v.1 longer,
      )
      refl

encode_from_lem :
    (cps pre dest : List ℕ) (i : ℕ)
    → AllValid cps
    → length pre ≡ i
    → length (encoded cps) ≤ length dest
    → encode_code_points_from cps i (pre ++ dest)
      ≡ (pre ++ (encoded cps ++ drop (length (encoded cps)) dest), true)
unfolding encode_code_points_from encoded
encode_from_lem [] pre dest i v e room = refl
encode_from_lem (cp ∷ cps) pre dest i v e room =
    let l = required_sequence_length cp in
    let enc = encoding l cp in
    let f = required-Fits cp v.0 in
    let more = drop l dest in
    let longer : length (pre ++ enc) ≡ i + l =
      omega (arith, length-append pre enc, length-encoding l cp f) in
    let total = length-encoded cp cps v.0 in
    encode_step cp i cps pre dest v.0 e (omega (arith, total))
    ∙ ap (encode_code_points_from cps (i + l)) (sym (append_assoc pre enc more))
    ∙ encode_from_lem cps (pre ++ enc) more (i + l) v.1 longer
        (omega (arith, total, length-drop l dest))
    ∙ ap (λ (x : List ℕ). (x, true))
        (rw
          (
            drop-add l (length (encoded cps)) dest,
            append_assoc pre enc,
            append_assoc enc (encoded cps),
            sym total,
          )
          refl)

counted_from_lem :
    (cps : List ℕ) (fuel r : ℕ)
    → AllValid cps
    → length (encoded cps) < fuel
    → decoding_code_points_required_from fuel (encoded cps) r ≡ some (r + length cps)
unfolding decoding_code_points_required_from encoded
counted_from_lem [] zero r v h = absurd (omega arith)
counted_from_lem [] (suc fuel) r v h = ap some (omega arith)
counted_from_lem (cp ∷ cps) zero r v h = absurd (omega arith)
counted_from_lem (cp ∷ cps) (suc fuel) r v h =
    counted_step cp fuel r (encoded cps) v.0
    ∙ counted_from_lem cps fuel (r + 1) v.1
        (omega (arith, length-encoded cp cps v.0, (required-Fits cp v.0).lo))
    ∙ ap some (omega arith)

-- For valid code points and a span at least as long as encoding_bytes_required says,
-- encode_code_points succeeds, decode_code_points reads the same code points back, and the bytes of
-- the span past those required are kept.
pub decode-encode_code_points :
    (cps dest : List ℕ) (n : ℕ)
    → AllValid cps
    → encoding_bytes_required cps ≡ some n
    → n ≤ length dest
    → let (dest', done) = encode_code_points cps dest in
      (done ≡ true)
      × (decode_code_points dest' (length cps) ≡ (cps, true))
      × (drop n dest' ≡ drop n dest)
unfolding encode_code_points decode_code_points encoding_bytes_required
decode-encode_code_points cps dest n v e room =
    let q : length (encoded cps) ≡ n =
      omega (arith, some-injective _ _ (sym (required_from_lem cps 0 v) ∙ e)) in
    rw (encode_from_lem cps [] dest 0 v refl (omega arith), q)
      (
        refl,
        decode_from_lem cps [] (drop n dest) 0 v refl,
        drop-append (encoded cps) (drop n dest) n q,
      )

-- For valid code points encoding_bytes_required is the number of bytes of their encodings, and
-- decoding_code_points_required of those bytes ends and is the number of code points.
counts_lem :
    (cps : List ℕ)
    → AllValid cps
    → (encoding_bytes_required cps ≡ some (length (encoded cps)))
      × (decoding_code_points_required (encoded cps) ≡ some (length cps))
unfolding encoding_bytes_required decoding_code_points_required
counts_lem cps v = (
  required_from_lem cps 0 v ∙ ap some (omega arith),
  counted_from_lem cps (length (encoded cps) + 1) 0 v (omega arith) ∙ ap some (omega arith),
)
