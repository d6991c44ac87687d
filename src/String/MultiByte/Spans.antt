-- ===== src/String/MultiByte/Spans.antt =====
-- multi_byte.cpp: sequences of code points.
use eagine_core.Common.{
  ℕ, zero, suc, ◌+◌, Bool, true, false, not, Option, none, some, List, [], ◌∷◌, ◌++◌, leb,
  if◌then◌else◌, length, take, drop,
}
use eagine_core.String.MultiByte.Masks.{
  valid_code_point, is_sequence_length, required_sequence_length, do_decode_sequence_length,
}
use eagine_core.String.MultiByte.Code.{
  decode_sequence_length, do_decode_code_point, encode_code_point,
}

-- `none` is the result that is not valid.
unfoldable pub encoding_bytes_required_from : List ℕ → ℕ → Option ℕ
encoding_bytes_required_from [] result = some result
encoding_bytes_required_from (cp ∷ cps) result =
    let l = required_sequence_length cp in
    let rest = encoding_bytes_required_from cps (result + l) in
    if is_sequence_length l then rest else none

unfoldable pub encoding_bytes_required : List ℕ → Option ℕ
encoding_bytes_required cps = encoding_bytes_required_from cps 0

-- The loop of `decoding_code_points_required`, on fuel; each round passes a byte at least. An iterator
-- that would pass the end fails the assertion: the model stops at the end.
unfoldable pub decoding_code_points_required_from : ℕ → List ℕ → ℕ → Option ℕ
decoding_code_points_required_from zero bytes result = none
decoding_code_points_required_from (suc fuel) [] result = some result
decoding_code_points_required_from (suc fuel) (b ∷ bytes) result =
    let l = do_decode_sequence_length b in
    let rest = decoding_code_points_required_from fuel (drop l (b ∷ bytes)) (result + 1) in
    if is_sequence_length l then rest else none

unfoldable pub decoding_code_points_required : List ℕ → Option ℕ
decoding_code_points_required bytes = decoding_code_points_required_from (length bytes + 1) bytes 0

-- The loop of `encode_code_points` from byte `i` on: the whole span, and whether all was written.
unfoldable pub encode_code_points_from : List ℕ → ℕ → List ℕ → List ℕ × Bool
encode_code_points_from [] i bytes = (bytes, true)
encode_code_points_from (cp ∷ cps) i bytes =
    let (sub, l) = encode_code_point cp (drop i bytes) in
    let bytes' = take i bytes ++ sub in
    let rest = encode_code_points_from cps (i + l) bytes' in
    if not (valid_code_point cp)
    then (bytes, false)
    else if leb (length bytes) i
    then (bytes, false)
    else if not (is_sequence_length l)
    then (bytes', false)
    else rest

unfoldable pub encode_code_points : List ℕ → List ℕ → List ℕ × Bool
encode_code_points cps bytes = encode_code_points_from cps 0 bytes

-- The loop of `decode_code_points`: `n` more code points, from byte `i` on. The result holds what was
-- written into `cps`, and whether all were.
unfoldable pub decode_code_points_from : ℕ → ℕ → List ℕ → List ℕ × Bool
decode_code_points_from zero i bytes = ([], true)
decode_code_points_from (suc n) i bytes =
    let sub = drop i bytes in
    let l = decode_sequence_length sub in
    let cp = do_decode_code_point sub l in
    let (rest, done) = decode_code_points_from n (i + l) bytes in
    if leb (length bytes) i
    then ([], false)
    else if not (is_sequence_length l)
    then ([], false)
    else if valid_code_point cp
    then (cp ∷ rest, done)
    else ([], false)

unfoldable pub decode_code_points : List ℕ → ℕ → List ℕ × Bool
decode_code_points bytes n = decode_code_points_from n 0 bytes
