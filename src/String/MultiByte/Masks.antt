-- ===== src/String/MultiByte/Masks.antt =====
-- multi_byte.cpp: lengths, masks, codes and shifts. A `valid_if` value is the number that it holds,
-- beside a test that says whether the number is valid.
use Prim.Native.Nat.{bit_and}
use eagine_core.Common.{
  ℕ, ◌-◌, ◌*◌, Bool, false, ◌&&◌, ◌||◌, Option, none, some, ltb, leb, ◌==◌, if◌then◌else◌,
}

abbrev pub invalid_code_point : ℕ
invalid_code_point = 0x7FFFFFFF

-- `code_point::has_value()`
unfoldable pub valid_code_point : ℕ → Bool
valid_code_point cp = ltb cp 0x7FFFFFFF

-- `valid_sequence_length::has_value()`
unfoldable pub is_sequence_length : ℕ → Bool
is_sequence_length l = leb 1 l && leb l 6

unfoldable pub max_code_point : ℕ → ℕ
max_code_point l =
    if l == 1
    then 0x7F
    else if l == 2
    then 0x7FF
    else if l == 3
    then 0xFFFF
    else if l == 4
    then 0x1FFFFF
    else if l == 5
    then 0x03FFFFFF
    else if l == 6
    then 0x7FFFFFFF
    else 0

unfoldable pub head_data_bitshift : ℕ → ℕ
head_data_bitshift l = (l - 1) * 6

-- The source has -1, which is not valid, for `none`; an index stands below its length.
unfoldable pub tail_data_bitshift : ℕ → ℕ → Option ℕ
unfolding is_sequence_length
tail_data_bitshift i l =
    if is_sequence_length i && is_sequence_length l then some ((l - i - 1) * 6) else none

unfoldable pub head_code_mask : ℕ → ℕ
head_code_mask l =
    if l == 1
    then 0x80
    else if l == 2
    then 0xE0
    else if l == 3
    then 0xF0
    else if l == 4
    then 0xF8
    else if l == 5
    then 0xFC
    else if l == 6
    then 0xFE
    else 0

unfoldable pub inverted_byte : ℕ → ℕ
inverted_byte b = 255 - b

unfoldable pub head_data_mask : ℕ → ℕ
unfolding inverted_byte head_code_mask
head_data_mask l = inverted_byte (head_code_mask l)

abbrev pub tail_code_mask : ℕ
tail_code_mask = 0xC0

abbrev pub tail_data_mask : ℕ
tail_data_mask = 0x3F

unfoldable pub head_code_from_mask : ℕ → ℕ
head_code_from_mask mask = bit_and (mask * 2) 0xFF

unfoldable pub head_code : ℕ → ℕ
unfolding head_code_from_mask head_code_mask
head_code l = head_code_from_mask (head_code_mask l)

abbrev pub tail_code : ℕ
tail_code = 0x80

-- `is_valid_masked_code` of a valid mask and code.
unfoldable pub is_valid_masked_code : ℕ → ℕ → ℕ → Bool
is_valid_masked_code b mask code = bit_and b mask == code

-- `is_valid_head_byte(b, l)`: a mask of 0 is not valid.
unfoldable pub is_valid_head_byte_of : ℕ → ℕ → Bool
unfolding head_code_mask head_code_from_mask is_valid_masked_code
is_valid_head_byte_of b l =
    let mask = head_code_mask l in
    if mask == 0 then false else is_valid_masked_code b mask (head_code_from_mask mask)

-- `is_valid_head_byte_c<L>(b)`
unfoldable pub is_valid_head_byte_c : ℕ → ℕ → Bool
unfolding is_valid_masked_code head_code_mask head_code
is_valid_head_byte_c l b = is_valid_masked_code b (head_code_mask l) (head_code l)

unfoldable pub is_valid_head_byte : ℕ → Bool
unfolding is_valid_head_byte_c
is_valid_head_byte b =
    is_valid_head_byte_c 1 b
    || is_valid_head_byte_c 2 b
    || is_valid_head_byte_c 3 b
    || is_valid_head_byte_c 4 b
    || is_valid_head_byte_c 5 b
    || is_valid_head_byte_c 6 b

unfoldable pub is_valid_tail_byte : ℕ → Bool
unfolding is_valid_masked_code
is_valid_tail_byte b = is_valid_masked_code b tail_code_mask tail_code

unfoldable pub required_sequence_length : ℕ → ℕ
unfolding max_code_point
required_sequence_length cp =
    if ltb cp (max_code_point 1)
    then 1
    else if ltb cp (max_code_point 2)
    then 2
    else if ltb cp (max_code_point 3)
    then 3
    else if ltb cp (max_code_point 4)
    then 4
    else if ltb cp (max_code_point 5)
    then 5
    else if ltb cp (max_code_point 6)
    then 6
    else 0

unfoldable pub do_decode_sequence_length : ℕ → ℕ
unfolding is_valid_head_byte_c
do_decode_sequence_length b =
    if is_valid_head_byte_c 1 b
    then 1
    else if is_valid_head_byte_c 2 b
    then 2
    else if is_valid_head_byte_c 3 b
    then 3
    else if is_valid_head_byte_c 4 b
    then 4
    else if is_valid_head_byte_c 5 b
    then 5
    else if is_valid_head_byte_c 6 b
    then 6
    else 0
