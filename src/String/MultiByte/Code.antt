-- ===== src/String/MultiByte/Code.antt =====
-- multi_byte.cpp: one code point. A span of bytes is a list of numbers below 256; a byte past its end
-- reads as 0, which no function does on a span that it has measured.
use Prim.Native.Nat.{bit_and, bit_or}
use eagine_core.Common.{
  ℕ, zero, suc, ◌+◌, ◌-◌, ◌*◌, ◌/◌, ◌%◌, ◌^◌, Bool, true, false, ◌&&◌, Option, none, some, List, [],
  ◌∷◌, ltb, ◌==◌, if◌then◌else◌, length, get_or, set,
}
use eagine_core.String.MultiByte.Masks.{
  invalid_code_point, valid_code_point, is_sequence_length, head_data_bitshift, tail_data_bitshift,
  head_data_mask, tail_data_mask, head_code, tail_code, is_valid_head_byte_of, is_valid_tail_byte,
  required_sequence_length, do_decode_sequence_length,
}

unfoldable pub decode_sequence_length : List ℕ → ℕ
unfolding do_decode_sequence_length
decode_sequence_length seq = do_decode_sequence_length (get_or seq 0 0)

-- The loop of `is_valid_encoding`, over the indices from `i` on.
unfoldable pub valid_tails : ℕ → ℕ → List ℕ → Bool
unfolding is_valid_tail_byte
valid_tails zero i seq = true
valid_tails (suc n) i seq =
    if is_valid_tail_byte (get_or seq i 0) then valid_tails n (i + 1) seq else false

unfoldable pub is_valid_encoding : List ℕ → Bool
unfolding decode_sequence_length is_sequence_length is_valid_head_byte_of valid_tails
is_valid_encoding seq =
    let l = decode_sequence_length seq in
    if is_sequence_length l
    then (if is_valid_head_byte_of (get_or seq 0 0) l
        then (if ltb (length seq) l then false else valid_tails (l - 1) 1 seq)
        else false)
    else false

unfoldable pub do_decode_code_point_part : ℕ → ℕ → ℕ → ℕ
do_decode_code_point_part b mask bitshift = bit_and b mask * 2 ^ bitshift

unfoldable pub decode_code_point_head : ℕ → ℕ → ℕ
unfolding do_decode_code_point_part head_data_mask head_data_bitshift
decode_code_point_head l b = do_decode_code_point_part b (head_data_mask l) (head_data_bitshift l)

unfoldable pub decode_code_point_tail : ℕ → ℕ → ℕ → Option ℕ
unfolding do_decode_code_point_part tail_data_bitshift
decode_code_point_tail l b i = elim (tail_data_bitshift i l) [
  | some shift ↦ some (do_decode_code_point_part b tail_data_mask shift)
  | none ↦ none
]

-- The loop of `do_decode_code_point_from<L>`, for `n` more bytes from index `i` on.
unfoldable pub decode_tails : ℕ → ℕ → ℕ → List ℕ → ℕ → ℕ
unfolding decode_code_point_tail
decode_tails l zero i src cp = cp
decode_tails l (suc n) i src cp = elim (decode_code_point_tail l (get_or src i 0) i) [
  | some t ↦ decode_tails l n (i + 1) src (bit_or cp t)
  | none ↦ invalid_code_point
]

unfoldable pub do_decode_code_point_from : ℕ → List ℕ → ℕ
unfolding decode_tails decode_code_point_head
do_decode_code_point_from l src =
    decode_tails l (l - 1) 1 src (decode_code_point_head l (get_or src 0 0))

unfoldable pub do_decode_code_point_c : ℕ → List ℕ → ℕ
unfolding do_decode_code_point_from
do_decode_code_point_c l src =
    if ltb l (length src) then do_decode_code_point_from l src else invalid_code_point

-- `do_decode_length_and_code_point`: the two, or the length 0.
unfoldable pub do_decode_length_and_code_point : List ℕ → ℕ × ℕ
unfolding do_decode_code_point_c do_decode_sequence_length
do_decode_length_and_code_point [] = (0, invalid_code_point)
do_decode_length_and_code_point (b ∷ rest) =
    let l = do_decode_sequence_length b in
    if l == 0 then (0, invalid_code_point) else (l, do_decode_code_point_c l (b ∷ rest))

-- `n < src.size()` for `n = vl - 1`, which selects the function for `vl` bytes.
unfoldable pub do_decode_code_point : List ℕ → ℕ → ℕ
unfolding is_sequence_length do_decode_code_point_from
do_decode_code_point src vl =
    if is_sequence_length vl && ltb (vl - 1) (length src)
    then do_decode_code_point_from vl src
    else invalid_code_point

unfoldable pub decode_code_point : List ℕ → ℕ
unfolding do_decode_code_point decode_sequence_length
decode_code_point src = do_decode_code_point src (decode_sequence_length src)

unfoldable pub do_encode_code_point_byte : ℕ → ℕ → ℕ → ℕ → ℕ
do_encode_code_point_byte cp code mask bitshift =
    bit_or code (bit_and mask (cp / 2 ^ bitshift)) % 256

unfoldable pub encode_code_point_head : ℕ → ℕ → ℕ
unfolding do_encode_code_point_byte head_code head_data_mask head_data_bitshift
encode_code_point_head l cp =
    do_encode_code_point_byte cp (head_code l) (head_data_mask l) (head_data_bitshift l)

unfoldable pub encode_code_point_tail : ℕ → ℕ → ℕ → Option ℕ
unfolding do_encode_code_point_byte tail_data_bitshift
encode_code_point_tail l cp i = elim (tail_data_bitshift i l) [
  | some shift ↦ some (do_encode_code_point_byte cp tail_code tail_data_mask shift)
  | none ↦ none
]

-- The loop of `do_encode_code_point_into<L>`: the destination, and whether all was written.
unfoldable pub encode_tails : ℕ → ℕ → ℕ → ℕ → List ℕ → List ℕ × Bool
unfolding encode_code_point_tail
encode_tails l zero i cp dest = (dest, true)
encode_tails l (suc n) i cp dest = elim (encode_code_point_tail l cp i) [
  | some t ↦ encode_tails l n (i + 1) cp (set dest i t)
  | none ↦ (dest, false)
]

unfoldable pub do_encode_code_point_into : ℕ → ℕ → List ℕ → List ℕ × Bool
unfolding encode_tails encode_code_point_head
do_encode_code_point_into l cp dest =
    encode_tails l (l - 1) 1 cp (set dest 0 (encode_code_point_head l cp))

unfoldable pub do_encode_code_point : ℕ → List ℕ → ℕ → List ℕ × Bool
unfolding valid_code_point is_sequence_length do_encode_code_point_into
do_encode_code_point cp dest vl =
    if (valid_code_point cp && is_sequence_length vl) && ltb (vl - 1) (length dest)
    then do_encode_code_point_into vl cp dest
    else (dest, false)

-- `encode_code_point(cp, dest)`: the destination, and the length written or 0.
unfoldable pub encode_code_point : ℕ → List ℕ → List ℕ × ℕ
unfolding do_encode_code_point required_sequence_length
encode_code_point cp dest =
    let l = required_sequence_length cp in
    let (dest', done) = do_encode_code_point cp dest l in (dest', if done then l else 0)

-- `encode_nil`
unfoldable pub encode_nil : List ℕ → List ℕ × ℕ
encode_nil [] = ([], 0)
encode_nil (b ∷ dest) = (0xFF ∷ dest, 1)
