-- ===== src/Memory/Biteset/Code.antt =====
-- biteset.cpp: `count` elements (`N`) of `bite` bits (`B`), packed into the bytes of a byteset. A
-- value type `T` is its width in bits, `cell`. Masks select bits by division and remainder, and
-- `by ^= by & msk` takes the field away.
use Prim.Native.Nat.{bit_or}
use eagine_core.Common.{
  ℕ, zero, suc, ◌+◌, ◌-◌, ◌*◌, ◌/◌, ◌%◌, ◌^◌, min, List, [], ◌∷◌, ltb, ◌==◌, if◌then◌else◌, get_or,
  set,
}

unfoldable pub store_size : ℕ → ℕ → ℕ
store_size count bite = count * bite / 8 + (if count * bite % 8 == 0 then 0 else 1)

-- The loop of `_get_cell_bits` and of `_get_byte_bits`, which reads the bits from `bb` to `be` of
-- units of `unit` bits into a value of `width` bits, from the unit `c` on. The code counts its
-- steps: `n` of them are left.
unfoldable pub get_bits : (ℕ → ℕ) → ℕ → ℕ → ℕ → ℕ → ℕ → ℕ → ℕ → ℕ
get_bits units unit width zero state bb be c = state
get_bits units unit width (suc n) state bb be c =
    let bo = bb - c * unit in
    let bl = min (be - bb) (unit - bo) in
    let taken = units c / 2 ^ (unit - bo - bl) % 2 ^ width % 2 ^ bl in
    let rest =
      get_bits units unit width n (bit_or (state * 2 ^ bl % 2 ^ width) taken) (bb + bl) be
        (c + 1) in
    if ltb bb be then rest else state

-- The steps that the code allows: its counter goes from 1 to the bits of a byte.
abbrev pub max_steps : ℕ
max_steps = 7

-- A field of a byte replaced.
unfoldable pub set_byte_bits : ℕ → ℕ → ℕ → ℕ → ℕ
set_byte_bits v by ofs len =
    let shift = 8 - ofs - len in
    let cleared = by - by / 2 ^ shift % 2 ^ len * 2 ^ shift in
    bit_or cleared (v * 2 ^ shift) % 2 ^ 8

module _ (cell : ℕ) where
  unfoldable pub set_cell_bits : ℕ → ℕ → ℕ → ℕ → ℕ → List ℕ → List ℕ
  set_cell_bits zero state bb be c bytes = bytes
  set_cell_bits (suc n) state bb be c bytes =
      let bo = bb - c * 8 in
      let bl = min (be - bb) (8 - bo) in
      let by = set_byte_bits (state / 2 ^ (cell - bl)) (get_or bytes c 0) bo bl in
      let rest =
        set_cell_bits n (state * 2 ^ bl % 2 ^ cell) (bb + bl) be (c + 1) (set bytes c by) in
      if ltb bb be then rest else bytes

module _ (bite cell : ℕ) where
  unfoldable pub get_cell : List ℕ → ℕ → ℕ
  get_cell bytes i =
      if bite == 8
      then get_or bytes i 0
      else get_bits (λ c. get_or bytes c 0) 8 cell max_steps 0 (i * bite) ((i + 1) * bite)
          (i * bite / 8)

  unfoldable pub set_cell : List ℕ → ℕ → ℕ → List ℕ
  set_cell bytes i value =
      if bite == 8
      then set bytes i (value % 2 ^ 8)
      else set_cell_bits cell max_steps (value * 2 ^ (cell - bite) % 2 ^ cell) (i * bite)
          ((i + 1) * bite) (i * bite / 8) bytes

-- The bytes of a pack of values.
unfoldable pub get_byte : ℕ → List ℕ → ℕ → ℕ
get_byte bite init i =
    if bite == 8
    then get_or init i 0 % 2 ^ 8
    else get_bits (λ c. get_or init c 0) bite 8 max_steps 0 (i * 8) ((i + 1) * 8) (i * 8 / bite)

-- From the byte `i` on.
unfoldable pub make_bytes_from : ℕ → ℕ → List ℕ → ℕ → List ℕ
make_bytes_from zero bite init i = []
make_bytes_from (suc n) bite init i = get_byte bite init i ∷ make_bytes_from n bite init (i + 1)

unfoldable pub make_bytes : ℕ → ℕ → List ℕ → List ℕ
make_bytes count bite init = make_bytes_from (store_size count bite) bite init 0
