-- ===== src/Identifier/Tests.antt =====
-- Runs of identifier.cpp.
use eagine_core.Common.{ℕ, ◌≡◌, refl, ◌+◌, ◌%◌, ◌^◌, ◌↔◌, true, List, [], ◌∷◌, arith}
use mathlib.Core.List.{head-eq_of_cons-eq}
use eagine_core.Memory.BitDensity.Chunks.{AllBelow}
use eagine_core.Identifier.Code.{
  max_length, in_chars, can_be_encoded, can_be_encoded_chars, make_bites, value, str, increment,
  encoded_from,
}
use eagine_core.Identifier.Distinct.{
  underscores, make_bites-Packs, str-of_text, value-make_bites_iff, underscores-can_be_encoded,
  underscores_below, value-eq-zero_iff,
}
use eagine_core.Identifier.RoundTrip.{length-encoded_from}
use eagine_core.Identifier.Increment.{IsIdentifier, value-increment}
use eagine_core.Identifier.Decimal.{dec_to_identifier, IsDecimal, str-dec_to_identifier}

-- "test"
abbrev test_text : List ℕ
test_text = 116 ∷ 101 ∷ 115 ∷ 116 ∷ []

test_text_below : AllBelow 256 test_text
test_text_below = (omega arith, (omega arith, (omega arith, (omega arith, tt))))

test_text-can_be_encoded : can_be_encoded test_text ≡ true
unfolding can_be_encoded can_be_encoded_chars in_chars
test_text-can_be_encoded = refl

str-of_text_example : str (make_bites test_text) ≡ test_text
str-of_text_example =
    str-of_text test_text test_text_below test_text-can_be_encoded
      (λ e. omega (arith, head-eq_of_cons-eq e))

value-make_bites_iff_example :
    (value (make_bites test_text) ≡ value (make_bites underscores)) ↔ (test_text ≡ underscores)
value-make_bites_iff_example =
    value-make_bites_iff test_text underscores test_text_below underscores_below
      test_text-can_be_encoded underscores-can_be_encoded

value-eq-zero_iff_example : (value (make_bites test_text) ≡ 0) ↔ (test_text ≡ underscores)
value-eq-zero_iff_example = value-eq-zero_iff test_text test_text_below test_text-can_be_encoded

test-IsIdentifier : IsIdentifier (make_bites test_text) (encoded_from max_length test_text 0)
test-IsIdentifier =
    let (size, packed) = make_bites-Packs test_text in
    (length-encoded_from max_length test_text 0, packed)

value-increment_example :
    (value (increment (make_bites test_text)) ≡ (value (make_bites test_text) + 2 ^ 4) % 2 ^ 64)
    × ((vs' : List ℕ) × IsIdentifier (increment (make_bites test_text)) vs')
value-increment_example =
    value-increment (make_bites test_text) (encoded_from max_length test_text 0) test-IsIdentifier

str-dec_to_identifier_example : IsDecimal 2025 (str (dec_to_identifier 2025))
str-dec_to_identifier_example = str-dec_to_identifier 2025 (omega arith)
