-- ===== src/String/Base64/Tests.antt =====
-- Runs of base64.cpp.
use eagine_core.Common.{ℕ, ◌≡◌, refl, ◌^◌, none, some, List, [], ◌∷◌, ◌++◌, arith, ◌>>=◌}
use eagine_core.Memory.BitDensity.Code.{
  byte_bits, dissolved_bits_length, make_span_getter, make_span_putter, push, dissolve_rest,
  dissolve_loop, do_dissolve_bits,
}
use eagine_core.Memory.BitDensity.Chunks.{AllBelow}
use eagine_core.String.Base64.Code.{
  base64_encode_char, enter_codes, decode_table, base64_decode_char, base64_encoded_length,
  encode_within, base64_encode_into, base64_decode_into,
}
use eagine_core.String.Base64.RoundTrip.{
  base64_decode_into-base64_encode_into, base64_decode_into-stops,
}

-- "Man" and "Ma"
abbrev man : List ℕ
man = 77 ∷ 97 ∷ 110 ∷ []

man_below : AllBelow (2 ^ 8) man
man_below = (omega arith, (omega arith, (omega arith, tt)))

-- "TWFu"
abbrev man_text : List ℕ
man_text = 84 ∷ 87 ∷ 70 ∷ 117 ∷ []

encoded : base64_encode_into 16 man ≡ some man_text
unfolding base64_encode_into encode_within base64_encoded_length dissolved_bits_length byte_bits
    make_span_getter make_span_putter do_dissolve_bits dissolve_loop dissolve_rest push
    base64_encode_char
encoded = refl

-- No padding is written.
short_encoded : base64_encode_into 16 (77 ∷ 97 ∷ []) ≡ some (84 ∷ 87 ∷ 69 ∷ [])
unfolding base64_encode_into encode_within base64_encoded_length dissolved_bits_length byte_bits
    make_span_getter make_span_putter do_dissolve_bits dissolve_loop dissolve_rest push
    base64_encode_char
short_encoded = refl

base64_decode_into-base64_encode_into_example :
    (base64_encode_into 16 man >>= base64_decode_into 16) ≡ some man
base64_decode_into-base64_encode_into_example =
    base64_decode_into-base64_encode_into 16 (omega arith) man man_below

star_is_bad : base64_decode_char 42 ≡ none
unfolding base64_decode_char decode_table enter_codes
star_is_bad = refl

base64_decode_into-stops_example :
    base64_decode_into 16 (man_text ++ (42 ∷ man_text)) ≡ base64_decode_into 16 man_text
base64_decode_into-stops_example =
    base64_decode_into-stops 16 (omega arith) man_text man_text 42
      (omega arith, (omega arith, (omega arith, (omega arith, tt)))) (omega arith) star_is_bad
