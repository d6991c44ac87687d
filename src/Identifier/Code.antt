-- ===== src/Identifier/Code.antt =====
-- identifier.cpp: an identifier is the bytes of its biteset, and a text is its character codes.
-- `identifier` is the instance of `basic_identifier` that the project uses: ten elements of six
-- bits over the default character set, in 64 bits.
use eagine_core.Common.{
  ℕ, zero, suc, ◌+◌, ◌*◌, ◌/◌, ◌%◌, ◌^◌, Bool, true, false, not, ◌&&◌, List, [], ◌∷◌, length,
  get_or, take, replicate, ltb, leb, ◌==◌, if◌then◌else◌,
}
use Prim.Native.Nat.{bit_or}
use eagine_core.Memory.Biteset.Bytes.{byteset_of, as_uint}
use eagine_core.Memory.Biteset.Code.{get_cell, set_cell, make_bytes}

abbrev pub values : List ℕ
values =
    95 ∷ 101 ∷ 116 ∷ 97 ∷ 111 ∷ 105 ∷ 110 ∷ 115 ∷ 114 ∷ 104 ∷ 108 ∷ 100 ∷ 99 ∷ 117 ∷ 109 ∷ 102 ∷ 112
    ∷ 103 ∷ 119 ∷ 121 ∷ 98 ∷ 118 ∷ 107 ∷ 120 ∷ 106 ∷ 113 ∷ 122 ∷ 84 ∷ 65 ∷ 73 ∷ 83 ∷ 79 ∷ 87 ∷ 72
    ∷ 66 ∷ 67 ∷ 77 ∷ 70 ∷ 80 ∷ 68 ∷ 82 ∷ 76 ∷ 69 ∷ 71 ∷ 78 ∷ 89 ∷ 85 ∷ 75 ∷ 86 ∷ 74 ∷ 81 ∷ 88 ∷ 90
    ∷ 48 ∷ 49 ∷ 50 ∷ 51 ∷ 52 ∷ 53 ∷ 54 ∷ 55 ∷ 56 ∷ 57 ∷ []

abbrev pub max_length : ℕ
max_length = 10

abbrev pub bite_bits : ℕ
bite_bits = 6

-- The length of the array of characters.
abbrev pub invalid : ℕ
invalid = 63

unfoldable pub do_encode : ℕ → ℕ → List ℕ → ℕ
do_encode c i [] = invalid
do_encode c i (e ∷ enc) =
    let rest = do_encode c (i + 1) enc in if c == 0 then invalid else (if c == e then i else rest)

unfoldable pub encode : ℕ → ℕ
encode c = do_encode c 0 values

unfoldable pub decode : ℕ → ℕ
decode i = if ltb i invalid then get_or values i 0 else 0

unfoldable pub is_invalid : ℕ → Bool
is_invalid c = leb invalid c

unfoldable pub in_chars : List ℕ → ℕ → Bool
in_chars [] c = false
in_chars (x ∷ xs) c = if x == c then true else in_chars xs c

unfoldable pub can_be_encoded_chars : List ℕ → Bool
can_be_encoded_chars [] = true
can_be_encoded_chars (c ∷ str) = if in_chars values c then can_be_encoded_chars str else false

unfoldable pub can_be_encoded : List ℕ → Bool
can_be_encoded str = if leb (length str) max_length then can_be_encoded_chars str else false

-- The codes of `n` characters of a text from one of them on, with `'\0'` after its end.
unfoldable pub encoded_from : ℕ → List ℕ → ℕ → List ℕ
encoded_from zero init i = []
encoded_from (suc n) init i = encode (get_or init i 0) ∷ encoded_from n init (i + 1)

unfoldable pub make_bites : List ℕ → List ℕ
make_bites init = make_bytes max_length bite_bits (encoded_from max_length init 0)

unfoldable pub identifier_from_value : ℕ → List ℕ
identifier_from_value init = byteset_of 8 init

unfoldable pub bite : List ℕ → ℕ → ℕ
bite bites i = get_cell bite_bits 8 bites i

unfoldable pub value : List ℕ → ℕ
value bites = as_uint bites

unfoldable pub is_empty : List ℕ → Bool
is_empty bites = value bites == 0

-- The elements from `s` on are searched for an invalid one; there are `n` of them.
unfoldable pub get_size : ℕ → List ℕ → ℕ → ℕ
get_size zero bites s = s
get_size (suc n) bites s =
    let rest = get_size n bites (s + 1) in if is_invalid (bite bites s) then s else rest

unfoldable pub size : List ℕ → ℕ
size bites = if is_empty bites then 0 else get_size max_length bites 0

unfoldable pub chars_from : ℕ → List ℕ → ℕ → List ℕ
chars_from zero bites i = []
chars_from (suc n) bites i = decode (bite bites i) ∷ chars_from n bites (i + 1)

-- The unpacked name: the characters and the length.
pub record IdentifierName : Type 0 where
  pub chars : List ℕ
  pub len : ℕ

unfoldable pub name : List ℕ → IdentifierName
name bites = record { chars = chars_from max_length bites 0; len = size bites }

unfoldable pub name_str : IdentifierName → List ℕ
name_str n = take n.len n.chars

unfoldable pub str : List ℕ → List ℕ
str bites = name_str (name bites)

-- The loop of `increment`, over the elements below `p`.
unfoldable pub inc_bites : ℕ → List ℕ → List ℕ
inc_bites zero v = replicate 8 0
inc_bites (suc p) v =
    let next = bite v p + 1 in
    let carried = inc_bites p (set_cell bite_bits 8 v p 0) in
    if ltb next (2 ^ bite_bits) then set_cell bite_bits 8 v p next else carried

unfoldable pub increment : List ℕ → List ℕ
increment i = inc_bites max_length i

-- A message identifier is a number of 128 bits.
unfoldable pub message_id : ℕ → ℕ → ℕ
message_id c m = bit_or (c * 2 ^ 64 % 2 ^ 128) m

unfoldable pub class_id : ℕ → ℕ
class_id packed = packed / 2 ^ 64 % 2 ^ 64

unfoldable pub method_id : ℕ → ℕ
method_id packed = packed % 2 ^ 64

unfoldable pub message_is_valid : ℕ → Bool
message_is_valid packed = not (class_id packed == 0) && not (method_id packed == 0)

unfoldable pub message_is : ℕ → ℕ → ℕ → Bool
message_is packed idc idm = (class_id packed == idc) && (method_id packed == idm)
