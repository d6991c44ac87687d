-- ===== src/String/Base64/Code.antt =====
-- base64.cpp: characters are their codes; where char is signed, one from 128 on fails an assertion or is
-- read out of the table's bounds, so the model stands for the source below 128. `word` is the width of `double_byte`.
use Prim.Native.Nat.{bit_and}
use eagine_core.Common.{
  ℕ, ◌+◌, min, Bool, false, not, Option, none, some, List, [], ◌∷◌, ◌++◌, length, get_or, set,
  replicate, ◌==◌, if◌then◌else◌,
}
use eagine_core.Memory.BitDensity.Code.{
  dissolved_bits_length, concentrated_bits_length, make_span_getter, make_span_putter,
  do_dissolve_bits, do_concentrate_bits,
}

-- The 64 characters of the alphabet.
abbrev pub alphabet : List ℕ
alphabet =
    65 ∷ 66 ∷ 67 ∷ 68 ∷ 69 ∷ 70 ∷ 71 ∷ 72 ∷ 73 ∷ 74 ∷ 75 ∷ 76 ∷ 77 ∷ 78 ∷ 79 ∷ 80 ∷ 81 ∷ 82 ∷ 83
    ∷ 84 ∷ 85 ∷ 86 ∷ 87 ∷ 88 ∷ 89 ∷ 90 ∷ 97 ∷ 98 ∷ 99 ∷ 100 ∷ 101 ∷ 102 ∷ 103 ∷ 104 ∷ 105 ∷ 106
    ∷ 107 ∷ 108 ∷ 109 ∷ 110 ∷ 111 ∷ 112 ∷ 113 ∷ 114 ∷ 115 ∷ 116 ∷ 117 ∷ 118 ∷ 119 ∷ 120 ∷ 121 ∷ 122
    ∷ 48 ∷ 49 ∷ 50 ∷ 51 ∷ 52 ∷ 53 ∷ 54 ∷ 55 ∷ 56 ∷ 57 ∷ 43 ∷ 47 ∷ []

-- With the padding character and the end of the string after them.
abbrev encode_table : List ℕ
encode_table = alphabet ++ (61 ∷ 0 ∷ [])

unfoldable pub base64_encode_char : ℕ → ℕ
base64_encode_char b = get_or encode_table (min b 64) 0

-- The loop that enters the codes of the characters.
unfoldable pub enter_codes : ℕ → List ℕ → List ℕ → List ℕ
enter_codes b [] result = result
enter_codes b (x ∷ invtable) result = enter_codes (b + 1) invtable (set result x b)

-- The array of characters is two longer than the alphabet.
unfoldable pub decode_table : List ℕ
decode_table = set (enter_codes 0 (alphabet ++ (0 ∷ 0 ∷ [])) (replicate 256 0xff)) 0 0xff

unfoldable pub base64_decode_char : ℕ → Option ℕ
base64_decode_char c =
    let r = get_or decode_table c 0 in if bit_and r 0x80 == 0x80 then none else some r

unfoldable pub base64_encoded_length : ℕ → ℕ
base64_encoded_length orig_size = dissolved_bits_length orig_size 6

unfoldable pub base64_decoded_length : ℕ → ℕ
base64_decoded_length orig_size = concentrated_bits_length orig_size 6

-- The head of the destination, or an empty span.
abbrev pub written : Option (List ℕ) → List ℕ
written none = []
written (some dst) = dst

module _ (word : ℕ) where
  -- What is written to a destination of a given size, when all of it fits.
  unfoldable pub encode_within : List ℕ → ℕ → Option (List ℕ)
  encode_within src size =
      do_dissolve_bits word (make_span_putter (λ b. some (base64_encode_char b)) size) 6
        (make_span_getter (λ b. some b) src) []

  unfoldable pub decode_within : List ℕ → ℕ → Option (List ℕ)
  decode_within src size =
      do_concentrate_bits word (make_span_putter (λ b. some b) size) 6
        (make_span_getter base64_decode_char src) []

  -- Into a span: an empty one is returned when the destination is too small.
  unfoldable pub base64_encode : List ℕ → ℕ → List ℕ
  base64_encode src size = written (encode_within src size)

  unfoldable pub base64_decode : List ℕ → ℕ → List ℕ
  base64_decode src size = written (decode_within src size)

  -- Into a container, which is resized before and after.
  unfoldable pub base64_encode_into : List ℕ → Option (List ℕ)
  base64_encode_into src = encode_within src (base64_encoded_length (length src))

  unfoldable pub base64_decode_into : List ℕ → Option (List ℕ)
  base64_decode_into src = decode_within src (base64_decoded_length (length src))

  -- Whether a text is taken for bytes.
  unfoldable pub assign_if_fits : List ℕ → Bool
  assign_if_fits src = elim (base64_decode_into src) [
    | none ↦ false
    | some decoded ↦ if length decoded == 0 then length src == 0 else not (length src == 0)
  ]
