-- ===== src/Utility/NetworkSort/Network.antt =====
-- network_sort.cpp: what a sorting network is, and the bitonic network that is computed for the
-- sizes with no manual table.
use Prim.Native.Nat.{bit_and, bit_or}
use eagine_core.Common.{
  ℕ, zero, suc, ◌+◌, ◌-◌, ◌*◌, ◌/◌, ◌%◌, ◌^◌, Bool, List, [], ◌∷◌, ◌++◌, ltb, leb, ◌==◌,
  if◌then◌else◌, get_or, for_range, tabulate,
}

-- The interface that the sorter uses of a network: the partner of an element in a round, and
-- whether the element keeps the lesser or the greater of the two.
pub record Network : Type 0 where
  pub rounds : ℕ
  pub index : ℕ → ℕ → ℕ
  pub min : ℕ → ℕ → ℕ → Bool
  pub max : ℕ → ℕ → ℕ → Bool

-- `_next_log`: the least p with n <= 2 ^ p, counted up from `pot`. It makes at most n calls.
unfoldable pub next_log : ℕ → ℕ → ℕ → ℕ
next_log zero n pot = 0
next_log (suc fuel) n pot =
    let rest = next_log fuel n (pot * 2) in if ltb pot n then 1 + rest else 0

-- `_hlp`
unfoldable pub hlp : ℕ → ℕ
hlp zero = 0
hlp (suc n) = suc n + hlp n

unfoldable pub num_rounds_for : ℕ → ℕ
unfolding hlp next_log
num_rounds_for n = hlp (next_log n n 1)

-- One entry of the table: the partner shifted left by one, and the direction in the lowest bit.
-- `size_t` arithmetic wraps, so `-d` is 2 ^ 64 - d.
unfoldable pub cell : ℕ → ℕ → ℕ → ℕ → ℕ
cell n k d i =
    let inv = bit_and (i / 2 ^ k) 2 / 2 in
    let j = (i + (if bit_and i d == 0 then d else 2 ^ 64 - d)) % 2 ^ 64 in
    bit_or ((if leb n j then i else j) * 2) inv

-- `_fill_idx`: the rows in the order in which they are filled.
unfoldable pub fill_idx : ℕ → List (List ℕ)
unfolding cell for_range tabulate next_log
fill_idx n =
    for_range (next_log n n 1) 0
      (λ k rows.
        for_range (k + 1) 0 (λ m rows. rows ++ (tabulate n 0 (cell n k (2 ^ (k - m))) ∷ [])) rows)
      []

abbrev pub table_entry : List (List ℕ) → ℕ → ℕ → ℕ
table_entry rows r i = get_or (get_or rows r []) i 0

abbrev inv : List (List ℕ) → ℕ → ℕ → Bool
inv rows r i = bit_and (table_entry rows r i) 1 == 1

bitonic_over : ℕ → List (List ℕ) → Network
bitonic_over rounds rows = record {
  rounds = rounds;
  index = λ r i. table_entry rows r i / 2;
  min = λ r i j. if inv rows r i then ltb j i else ltb i j;
  max = λ r i j. if inv rows r i then ltb i j else ltb j i;
}

unfoldable pub bitonic_sorting_network : ℕ → Network
unfolding bitonic_over fill_idx num_rounds_for
bitonic_sorting_network n = bitonic_over (num_rounds_for n) (fill_idx n)
