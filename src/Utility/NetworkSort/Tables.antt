-- ===== src/Utility/NetworkSort/Tables.antt =====
-- network_sort.cpp: the manual networks, and the choice between them and the bitonic one.
use mathlib.Core.Option.{Option, none, some}
use eagine_core.Common.{ℕ, List, [], ◌∷◌, ltb, ◌==◌, if◌then◌else◌}
use eagine_core.Utility.NetworkSort.Network.{Network, table_entry, bitonic_sorting_network}

-- The members of a specialization of `manual_sorting_network_base`.
pub record ManualBase : Type 0 where
  pub rounds : ℕ
  pub index : ℕ → ℕ → ℕ

abbrev pub of_table : ℕ → List (List ℕ) → ManualBase
of_table rounds idx = record { rounds = rounds; index = table_entry idx }

unfoldable pub manual_1 : ManualBase
manual_1 = record { rounds = 1; index = λ r i. 0 }

unfoldable pub manual_2 : ManualBase
manual_2 = record { rounds = 1; index = λ r i. if i == 0 then 1 else 0 }

unfoldable pub manual_3 : ManualBase
manual_3 = of_table 3 ((1 ∷ 0 ∷ 2 ∷ []) ∷ (0 ∷ 2 ∷ 1 ∷ []) ∷ (1 ∷ 0 ∷ 2 ∷ []) ∷ [])

unfoldable pub manual_4 : ManualBase
manual_4 = of_table 3 ((1 ∷ 0 ∷ 3 ∷ 2 ∷ []) ∷ (2 ∷ 3 ∷ 0 ∷ 1 ∷ []) ∷ (0 ∷ 2 ∷ 1 ∷ 3 ∷ []) ∷ [])

unfoldable pub manual_5 : ManualBase
manual_5 = of_table 5 (
    (1 ∷ 0 ∷ 3 ∷ 2 ∷ 4 ∷ [])
    ∷ (0 ∷ 3 ∷ 4 ∷ 1 ∷ 2 ∷ [])
    ∷ (2 ∷ 4 ∷ 0 ∷ 3 ∷ 1 ∷ [])
    ∷ (0 ∷ 2 ∷ 1 ∷ 4 ∷ 3 ∷ [])
    ∷ (0 ∷ 1 ∷ 3 ∷ 2 ∷ 4 ∷ [])
    ∷ [])

unfoldable pub manual_6 : ManualBase
manual_6 = of_table 5 (
    (1 ∷ 0 ∷ 3 ∷ 2 ∷ 5 ∷ 4 ∷ [])
    ∷ (2 ∷ 4 ∷ 0 ∷ 5 ∷ 1 ∷ 3 ∷ [])
    ∷ (1 ∷ 0 ∷ 3 ∷ 2 ∷ 5 ∷ 4 ∷ [])
    ∷ (0 ∷ 2 ∷ 1 ∷ 4 ∷ 3 ∷ 5 ∷ [])
    ∷ (0 ∷ 1 ∷ 3 ∷ 2 ∷ 4 ∷ 5 ∷ [])
    ∷ [])

unfoldable pub manual_7 : ManualBase
manual_7 = of_table 6 (
    (1 ∷ 0 ∷ 3 ∷ 2 ∷ 5 ∷ 4 ∷ 6 ∷ [])
    ∷ (2 ∷ 3 ∷ 0 ∷ 1 ∷ 6 ∷ 5 ∷ 4 ∷ [])
    ∷ (4 ∷ 5 ∷ 6 ∷ 3 ∷ 0 ∷ 1 ∷ 2 ∷ [])
    ∷ (0 ∷ 4 ∷ 2 ∷ 6 ∷ 1 ∷ 5 ∷ 3 ∷ [])
    ∷ (0 ∷ 1 ∷ 4 ∷ 5 ∷ 2 ∷ 3 ∷ 6 ∷ [])
    ∷ (0 ∷ 2 ∷ 1 ∷ 4 ∷ 3 ∷ 6 ∷ 5 ∷ [])
    ∷ [])

unfoldable pub manual_8 : ManualBase
manual_8 = of_table 6 (
    (1 ∷ 0 ∷ 3 ∷ 2 ∷ 5 ∷ 4 ∷ 7 ∷ 6 ∷ [])
    ∷ (2 ∷ 3 ∷ 0 ∷ 1 ∷ 6 ∷ 7 ∷ 4 ∷ 5 ∷ [])
    ∷ (4 ∷ 2 ∷ 1 ∷ 7 ∷ 0 ∷ 6 ∷ 5 ∷ 3 ∷ [])
    ∷ (0 ∷ 5 ∷ 6 ∷ 3 ∷ 4 ∷ 1 ∷ 2 ∷ 7 ∷ [])
    ∷ (0 ∷ 1 ∷ 4 ∷ 5 ∷ 2 ∷ 3 ∷ 6 ∷ 7 ∷ [])
    ∷ (0 ∷ 2 ∷ 1 ∷ 4 ∷ 3 ∷ 6 ∷ 5 ∷ 7 ∷ [])
    ∷ [])

unfoldable pub manual_9 : ManualBase
manual_9 = of_table 7 (
    (7 ∷ 6 ∷ 5 ∷ 4 ∷ 3 ∷ 2 ∷ 1 ∷ 0 ∷ 8 ∷ [])
    ∷ (3 ∷ 2 ∷ 1 ∷ 0 ∷ 7 ∷ 5 ∷ 8 ∷ 4 ∷ 6 ∷ [])
    ∷ (1 ∷ 0 ∷ 6 ∷ 4 ∷ 3 ∷ 8 ∷ 2 ∷ 7 ∷ 5 ∷ [])
    ∷ (0 ∷ 2 ∷ 1 ∷ 5 ∷ 6 ∷ 3 ∷ 4 ∷ 8 ∷ 7 ∷ [])
    ∷ (0 ∷ 3 ∷ 4 ∷ 1 ∷ 2 ∷ 7 ∷ 6 ∷ 5 ∷ 8 ∷ [])
    ∷ (1 ∷ 0 ∷ 3 ∷ 2 ∷ 5 ∷ 4 ∷ 7 ∷ 6 ∷ 8 ∷ [])
    ∷ (0 ∷ 1 ∷ 2 ∷ 4 ∷ 3 ∷ 6 ∷ 5 ∷ 7 ∷ 8 ∷ [])
    ∷ [])

unfoldable pub manual_10 : ManualBase
manual_10 = of_table 7 (
    (1 ∷ 0 ∷ 3 ∷ 2 ∷ 5 ∷ 4 ∷ 7 ∷ 6 ∷ 9 ∷ 8 ∷ [])
    ∷ (5 ∷ 8 ∷ 6 ∷ 7 ∷ 9 ∷ 0 ∷ 2 ∷ 3 ∷ 1 ∷ 4 ∷ [])
    ∷ (2 ∷ 4 ∷ 0 ∷ 6 ∷ 1 ∷ 8 ∷ 3 ∷ 9 ∷ 5 ∷ 7 ∷ [])
    ∷ (1 ∷ 0 ∷ 7 ∷ 5 ∷ 6 ∷ 3 ∷ 4 ∷ 2 ∷ 9 ∷ 8 ∷ [])
    ∷ (0 ∷ 3 ∷ 4 ∷ 1 ∷ 2 ∷ 7 ∷ 8 ∷ 5 ∷ 6 ∷ 9 ∷ [])
    ∷ (0 ∷ 2 ∷ 1 ∷ 4 ∷ 3 ∷ 6 ∷ 5 ∷ 8 ∷ 7 ∷ 9 ∷ [])
    ∷ (0 ∷ 1 ∷ 3 ∷ 2 ∷ 5 ∷ 4 ∷ 7 ∷ 6 ∷ 8 ∷ 9 ∷ [])
    ∷ [])

unfoldable pub manual_11 : ManualBase
manual_11 = of_table 8 (
    (0 ∷ 10 ∷ 9 ∷ 8 ∷ 7 ∷ 6 ∷ 5 ∷ 4 ∷ 3 ∷ 2 ∷ 1 ∷ [])
    ∷ (6 ∷ 4 ∷ 3 ∷ 2 ∷ 1 ∷ 5 ∷ 0 ∷ 10 ∷ 9 ∷ 8 ∷ 7 ∷ [])
    ∷ (1 ∷ 0 ∷ 5 ∷ 4 ∷ 3 ∷ 2 ∷ 6 ∷ 8 ∷ 7 ∷ 10 ∷ 9 ∷ [])
    ∷ (2 ∷ 5 ∷ 0 ∷ 3 ∷ 6 ∷ 1 ∷ 4 ∷ 7 ∷ 9 ∷ 8 ∷ 10 ∷ [])
    ∷ (0 ∷ 8 ∷ 3 ∷ 2 ∷ 7 ∷ 9 ∷ 10 ∷ 4 ∷ 1 ∷ 5 ∷ 6 ∷ [])
    ∷ (0 ∷ 4 ∷ 2 ∷ 5 ∷ 1 ∷ 3 ∷ 9 ∷ 8 ∷ 7 ∷ 6 ∷ 10 ∷ [])
    ∷ (0 ∷ 2 ∷ 1 ∷ 4 ∷ 3 ∷ 7 ∷ 8 ∷ 5 ∷ 6 ∷ 9 ∷ 10 ∷ [])
    ∷ (0 ∷ 1 ∷ 3 ∷ 2 ∷ 5 ∷ 4 ∷ 7 ∷ 6 ∷ 8 ∷ 9 ∷ 10 ∷ [])
    ∷ [])

unfoldable pub manual_12 : ManualBase
manual_12 = of_table 8 (
    (6 ∷ 7 ∷ 8 ∷ 9 ∷ 10 ∷ 11 ∷ 0 ∷ 1 ∷ 2 ∷ 3 ∷ 4 ∷ 5 ∷ [])
    ∷ (3 ∷ 4 ∷ 5 ∷ 0 ∷ 1 ∷ 2 ∷ 9 ∷ 10 ∷ 11 ∷ 6 ∷ 7 ∷ 8 ∷ [])
    ∷ (1 ∷ 0 ∷ 2 ∷ 6 ∷ 5 ∷ 4 ∷ 3 ∷ 8 ∷ 7 ∷ 9 ∷ 11 ∷ 10 ∷ [])
    ∷ (0 ∷ 2 ∷ 1 ∷ 4 ∷ 3 ∷ 8 ∷ 7 ∷ 6 ∷ 5 ∷ 10 ∷ 9 ∷ 11 ∷ [])
    ∷ (1 ∷ 0 ∷ 9 ∷ 6 ∷ 5 ∷ 4 ∷ 3 ∷ 8 ∷ 7 ∷ 2 ∷ 11 ∷ 10 ∷ [])
    ∷ (0 ∷ 3 ∷ 6 ∷ 1 ∷ 7 ∷ 9 ∷ 2 ∷ 4 ∷ 10 ∷ 5 ∷ 8 ∷ 11 ∷ [])
    ∷ (0 ∷ 1 ∷ 3 ∷ 2 ∷ 6 ∷ 7 ∷ 4 ∷ 5 ∷ 9 ∷ 8 ∷ 10 ∷ 11 ∷ [])
    ∷ (0 ∷ 1 ∷ 2 ∷ 4 ∷ 3 ∷ 6 ∷ 5 ∷ 8 ∷ 7 ∷ 9 ∷ 10 ∷ 11 ∷ [])
    ∷ [])

unfoldable pub manual_14 : ManualBase
manual_14 = of_table 9 (
    (13 ∷ 12 ∷ 11 ∷ 10 ∷ 9 ∷ 8 ∷ 7 ∷ 6 ∷ 5 ∷ 4 ∷ 3 ∷ 2 ∷ 1 ∷ 0 ∷ [])
    ∷ (5 ∷ 4 ∷ 3 ∷ 2 ∷ 1 ∷ 0 ∷ 6 ∷ 7 ∷ 13 ∷ 12 ∷ 11 ∷ 10 ∷ 9 ∷ 8 ∷ [])
    ∷ (1 ∷ 0 ∷ 2 ∷ 6 ∷ 5 ∷ 4 ∷ 3 ∷ 10 ∷ 9 ∷ 8 ∷ 7 ∷ 11 ∷ 13 ∷ 12 ∷ [])
    ∷ (0 ∷ 7 ∷ 8 ∷ 4 ∷ 3 ∷ 11 ∷ 12 ∷ 1 ∷ 2 ∷ 10 ∷ 9 ∷ 5 ∷ 6 ∷ 13 ∷ [])
    ∷ (3 ∷ 2 ∷ 1 ∷ 0 ∷ 9 ∷ 8 ∷ 7 ∷ 6 ∷ 5 ∷ 4 ∷ 13 ∷ 12 ∷ 11 ∷ 10 ∷ [])
    ∷ (1 ∷ 0 ∷ 3 ∷ 2 ∷ 8 ∷ 7 ∷ 9 ∷ 5 ∷ 4 ∷ 6 ∷ 11 ∷ 10 ∷ 13 ∷ 12 ∷ [])
    ∷ (0 ∷ 2 ∷ 1 ∷ 5 ∷ 6 ∷ 3 ∷ 4 ∷ 9 ∷ 10 ∷ 7 ∷ 8 ∷ 12 ∷ 11 ∷ 13 ∷ [])
    ∷ (0 ∷ 1 ∷ 2 ∷ 4 ∷ 3 ∷ 6 ∷ 5 ∷ 8 ∷ 7 ∷ 10 ∷ 9 ∷ 11 ∷ 12 ∷ 13 ∷ [])
    ∷ (0 ∷ 1 ∷ 3 ∷ 2 ∷ 5 ∷ 4 ∷ 7 ∷ 6 ∷ 9 ∷ 8 ∷ 11 ∷ 10 ∷ 12 ∷ 13 ∷ [])
    ∷ [])

unfoldable pub manual_16 : ManualBase
manual_16 = of_table 9 (
    (15 ∷ 14 ∷ 13 ∷ 12 ∷ 11 ∷ 10 ∷ 9 ∷ 8 ∷ 7 ∷ 6 ∷ 5 ∷ 4 ∷ 3 ∷ 2 ∷ 1 ∷ 0 ∷ [])
    ∷ (7 ∷ 6 ∷ 5 ∷ 4 ∷ 3 ∷ 2 ∷ 1 ∷ 0 ∷ 15 ∷ 14 ∷ 13 ∷ 12 ∷ 11 ∷ 10 ∷ 9 ∷ 8 ∷ [])
    ∷ (3 ∷ 2 ∷ 1 ∷ 0 ∷ 7 ∷ 6 ∷ 5 ∷ 4 ∷ 11 ∷ 10 ∷ 9 ∷ 8 ∷ 15 ∷ 14 ∷ 13 ∷ 12 ∷ [])
    ∷ (1 ∷ 0 ∷ 8 ∷ 9 ∷ 5 ∷ 4 ∷ 12 ∷ 13 ∷ 2 ∷ 3 ∷ 11 ∷ 10 ∷ 6 ∷ 7 ∷ 15 ∷ 14 ∷ [])
    ∷ (0 ∷ 4 ∷ 3 ∷ 2 ∷ 1 ∷ 10 ∷ 9 ∷ 8 ∷ 7 ∷ 6 ∷ 5 ∷ 14 ∷ 13 ∷ 12 ∷ 11 ∷ 15 ∷ [])
    ∷ (0 ∷ 2 ∷ 1 ∷ 4 ∷ 3 ∷ 9 ∷ 8 ∷ 10 ∷ 6 ∷ 5 ∷ 7 ∷ 12 ∷ 11 ∷ 14 ∷ 13 ∷ 15 ∷ [])
    ∷ (0 ∷ 1 ∷ 3 ∷ 2 ∷ 6 ∷ 7 ∷ 4 ∷ 5 ∷ 10 ∷ 11 ∷ 8 ∷ 9 ∷ 13 ∷ 12 ∷ 14 ∷ 15 ∷ [])
    ∷ (0 ∷ 1 ∷ 2 ∷ 3 ∷ 5 ∷ 4 ∷ 7 ∷ 6 ∷ 9 ∷ 8 ∷ 11 ∷ 10 ∷ 12 ∷ 13 ∷ 14 ∷ 15 ∷ [])
    ∷ (0 ∷ 1 ∷ 2 ∷ 4 ∷ 3 ∷ 6 ∷ 5 ∷ 8 ∷ 7 ∷ 11 ∷ 9 ∷ 12 ∷ 11 ∷ 13 ∷ 14 ∷ 15 ∷ [])
    ∷ [])

-- The specializations; for any other size the primary template says `is_specialized = false`.
unfoldable pub manual_sorting_network_base : ℕ → Option ManualBase
unfolding manual_1 manual_2 manual_3 manual_4 manual_5 manual_6 manual_7 manual_8 manual_9 manual_10
    manual_11 manual_12 manual_14 manual_16
manual_sorting_network_base n =
    if n == 1
    then some manual_1
    else if n == 2
    then some manual_2
    else if n == 3
    then some manual_3
    else if n == 4
    then some manual_4
    else if n == 5
    then some manual_5
    else if n == 6
    then some manual_6
    else if n == 7
    then some manual_7
    else if n == 8
    then some manual_8
    else if n == 9
    then some manual_9
    else if n == 10
    then some manual_10
    else if n == 11
    then some manual_11
    else if n == 12
    then some manual_12
    else if n == 14
    then some manual_14
    else if n == 16
    then some manual_16
    else none

unfoldable pub manual_sorting_network : ManualBase → Network
manual_sorting_network base = record {
  rounds = base.rounds;
  index = base.index;
  min = λ r i j. ltb i j;
  max = λ r i j. ltb j i;
}

unfoldable pub sorting_network : ℕ → Network
unfolding manual_sorting_network_base manual_sorting_network bitonic_sorting_network
sorting_network n = elim (manual_sorting_network_base n) [
  | some base ↦ manual_sorting_network base
  | none ↦ bitonic_sorting_network n
]
