-- ===== src/Utility/NetworkSort/Tests.antt =====
-- Runs of the sorters of network_sort.cpp, and the theorems about them at concrete inputs.
use eagine_core.Common.{
  ℕ, ◌+◌, ◌≤◌, ◌<◌, true, ltb, List, [], ◌∷◌, ◌++◌, some, replicate, ◌≡◌, refl, arith,
}
use eagine_core.Utility.NetworkSort.Tables.{sorting_network}
use eagine_core.Utility.NetworkSort.Sorter.{network_sort, sort_by}
use eagine_core.Utility.NetworkSort.Rounds.{run_rounds, sort_by-run_rounds, in_range}
use eagine_core.Common.Order.{StrictWeakOrder, IsSorted, count_if, equivalent}
use eagine_core.Utility.NetworkSort.ZeroOne.{sorts_bools, zero_one}
use eagine_core.Utility.NetworkSort.Sizes.{network_sort-IsSorted}
use eagine_core.Utility.NetworkSort.Faults.{network_sort_16}

abbrev five : List ℕ
five = 5 ∷ 2 ∷ 4 ∷ 1 ∷ 2 ∷ []

sorts_five : network_sort ltb 0 5 five ≡ some (1 ∷ 2 ∷ 2 ∷ 4 ∷ 5 ∷ [])
unfolding network_sort sort_by sorting_network
sorts_five = refl

less_order : StrictWeakOrder ltb
less_order = record { asym = λ a b h. ground arith; neg_trans = λ a b c h k. ground arith }

network_sort-IsSorted_example :
    (out : List ℕ) × (network_sort ltb 0 5 five ≡ some out)
    × IsSorted ltb out
    × ((t : ℕ) → count_if (equivalent ltb t) out ≡ count_if (equivalent ltb t) five)
network_sort-IsSorted_example =
    network_sort-IsSorted ltb 0 5 five less_order (omega arith) (omega arith) refl

sorts_bools_3 : sorts_bools (sorting_network 3) 3 ≡ true
unfolding sorts_bools sorting_network
sorts_bools_3 = refl

zero_one_example :
    (out : List ℕ) × (sort_by ltb (sorting_network 3) 0 3 (7 ∷ 7 ∷ 1 ∷ []) ≡ some out)
    × IsSorted ltb out
    × ((t : ℕ) → count_if (equivalent ltb t) out ≡ count_if (equivalent ltb t) (7 ∷ 7 ∷ 1 ∷ []))
zero_one_example =
    zero_one ltb less_order (sorting_network 3) 0 3 (7 ∷ 7 ∷ 1 ∷ []) refl sorts_bools_3

has_rounds : 0 < (sorting_network 5).rounds
unfolding sorting_network
has_rounds = omega arith

sort_by-run_rounds_example :
    sort_by ltb (sorting_network 5) 0 5 five
    ≡ some (run_rounds ltb (sorting_network 5) 0 5 (sorting_network 5).rounds 0 five)
sort_by-run_rounds_example = sort_by-run_rounds ltb (sorting_network 5) 0 5 five has_rounds refl

in_range_16 : in_range (sorting_network 16) 16 ≡ true
unfolding sorting_network in_range
in_range_16 = refl

two_rounds : 0 + 2 ≤ (sorting_network 16).rounds
unfolding sorting_network
two_rounds = omega arith

network_sort_16_example :
    network_sort ltb 0 16 (8 ∷ 8 ∷ 8 ∷ 8 ∷ 4 ∷ 8 ∷ 8 ∷ replicate 9 4)
    ≡ some (replicate 9 4 ++ replicate 7 8)
network_sort_16_example = network_sort_16 ltb 0 4 8 less_order refl
