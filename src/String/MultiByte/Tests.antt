-- ===== src/String/MultiByte/Tests.antt =====
-- multi_byte.cpp: runs and witnesses.
use eagine_core.Common.{
  ℕ, ◌≤◌, true, List, [], ◌∷◌, length, drop, replicate, some, ◌≡◌, refl, arith,
}
use eagine_core.String.MultiByte.Masks.{
  valid_code_point, is_sequence_length, required_sequence_length,
}
use eagine_core.String.MultiByte.Code.{
  encode_code_point, decode_sequence_length, decode_code_point, do_decode_code_point,
}
use eagine_core.String.MultiByte.Spans.{
  encoding_bytes_required, encoding_bytes_required_from, encode_code_points, decode_code_points,
  encode_code_points_from, decode_code_points_from,
}
use eagine_core.String.MultiByte.RoundTrip.{Fits}
use eagine_core.String.MultiByte.Single.{decode-encode_code_point}
use eagine_core.String.MultiByte.Steps.{AllValid}
use eagine_core.String.MultiByte.Sequences.{decode-encode_code_points}

-- The bytes 0xE2 0x82 0xAC stand for the code point 0x20AC.
abbrev room : List ℕ
room = 0 ∷ 0 ∷ 0 ∷ 7 ∷ []

euro-encoded : encode_code_point 0x20AC room ≡ (0xE2 ∷ 0x82 ∷ 0xAC ∷ 7 ∷ [], 3)
unfolding encode_code_point
euro-encoded = refl

spans-encoded :
    encode_code_points (0x41 ∷ 0x20AC ∷ []) room ≡ (0x41 ∷ 0xE2 ∷ 0x82 ∷ 0xAC ∷ [], true)
unfolding encode_code_points encode_code_points_from valid_code_point is_sequence_length
    encode_code_point
spans-encoded = refl

spans-decoded : decode_code_points (0x41 ∷ 0xE2 ∷ 0x82 ∷ 0xAC ∷ []) 2 ≡ (0x41 ∷ 0x20AC ∷ [], true)
unfolding decode_code_points decode_code_points_from is_sequence_length decode_sequence_length
    valid_code_point do_decode_code_point
spans-decoded = refl

euro-Fits : Fits 3 0x20AC
euro-Fits = record { lo = omega arith; hi = omega arith; top = omega arith }

three : required_sequence_length 0x20AC ≤ length room
unfolding required_sequence_length
three = omega arith

decode-encode_code_point_example :
    let (dest', l) = encode_code_point 0x20AC room in
    (decode_code_point dest' ≡ 0x20AC)
    × (l ≡ required_sequence_length 0x20AC)
    × (decode_sequence_length dest' ≡ l)
    × (drop l dest' ≡ drop l room)
decode-encode_code_point_example = decode-encode_code_point 0x20AC room (omega arith) three

abbrev two_points : List ℕ
two_points = 0x41 ∷ 0x20AC ∷ []

two_points-AllValid : AllValid two_points
two_points-AllValid = (omega arith, (omega arith, tt))

two_points-required : encoding_bytes_required two_points ≡ some 4
unfolding encoding_bytes_required encoding_bytes_required_from is_sequence_length
    required_sequence_length
two_points-required = refl

decode-encode_code_points_example :
    let (dest', done) = encode_code_points two_points (replicate 5 9) in
    (done ≡ true)
    × (decode_code_points dest' (length two_points) ≡ (two_points, true))
    × (drop 4 dest' ≡ drop 4 (replicate 5 9))
decode-encode_code_points_example =
    decode-encode_code_points two_points (replicate 5 9) 4 two_points-AllValid two_points-required
      (omega arith)
