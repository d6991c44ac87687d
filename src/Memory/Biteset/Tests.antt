-- ===== src/Memory/Biteset/Tests.antt =====
-- Runs of byteset.cpp and biteset.cpp.
use eagine_core.Common.{ℕ, ◌≡◌, refl, ◌^◌, List, [], ◌∷◌, arith, length, set, replicate}
use eagine_core.Common.BitStream.{stream, bits_of}
use eagine_core.Memory.BitDensity.Chunks.{AllBelow}
use eagine_core.Memory.Biteset.Code.{
  store_size, get_bits, get_cell, set_byte_bits, set_cell_bits, set_cell, get_byte, make_bytes_from,
  make_bytes,
}
use eagine_core.Memory.Biteset.Packing.{Packs}
use eagine_core.Memory.Biteset.Writing.{set_cell-Packs}
use eagine_core.Memory.Biteset.Making.{get_cell-make_bytes}

abbrev four : List ℕ
four = 5 ∷ 63 ∷ 0 ∷ 33 ∷ []

four_below : AllBelow (2 ^ 6) four
four_below = (omega arith, (omega arith, (omega arith, (omega arith, tt))))

-- 000101 111111 000000 100001
abbrev four_bytes : List ℕ
four_bytes = 0x17 ∷ 0xf0 ∷ 0x21 ∷ []

packed : make_bytes 4 6 four ≡ four_bytes
unfolding make_bytes make_bytes_from store_size get_byte get_bits
packed = refl

replaced : set_cell 6 8 four_bytes 1 1 ≡ 0x14 ∷ 0x10 ∷ 0x21 ∷ []
unfolding set_cell set_cell_bits set_byte_bits
replaced = refl

-- A byte of elements of one bit takes eight steps, and only seven are allowed.
one_bit_elements : make_bytes 8 1 (replicate 8 1) ≡ 127 ∷ []
unfolding make_bytes make_bytes_from store_size get_byte get_bits
one_bit_elements = refl

-- So does an element of 64 bits.
wide_element : get_cell 64 64 (replicate 8 255) 0 ≡ 72057594037927935
unfolding get_cell get_bits
wide_element = refl

four_bytes-Packs : Packs 6 four_bytes four []
unfolding stream bits_of
four_bytes-Packs = ((omega arith, (omega arith, (omega arith, tt))), four_below, refl)

set_cell-Packs_example : Packs 6 (set_cell 6 8 four_bytes 1 1) (set four 1 1) []
set_cell-Packs_example =
    set_cell-Packs 6 8 (omega arith) (omega arith) (omega arith) four_bytes four [] 1 1
      four_bytes-Packs (omega arith) (omega arith)

get_cell-make_bytes_example : get_cell 6 8 (make_bytes (length four) 6 four) 3 ≡ 33
get_cell-make_bytes_example =
    get_cell-make_bytes 6 8 four 3 (omega arith) (omega arith) (omega arith) four_below
      (omega arith)
