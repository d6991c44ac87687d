-- ===== src/Utility/NetworkSort/Sizes.antt =====
-- Which sizes `network_sort` sorts.
mod Small
mod Large
use eagine_core.Common.{ℕ, zero, suc, ◌≤◌, ◌<◌, Bool, true, some, List, length, ◌≡◌, refl, arith}
use eagine_core.Utility.NetworkSort.Tables.{sorting_network}
use eagine_core.Utility.NetworkSort.Sorter.{network_sort}
use eagine_core.Common.Order.{StrictWeakOrder, IsSorted, count_if, equivalent}
use eagine_core.Utility.NetworkSort.ZeroOne.{sorts_bools, zero_one}
use Small.{
  table_1, table_2, table_3, table_4, table_5, table_6, table_7, table_8, table_9, table_10,
}
use Large.{table_11, table_12}

-- The tables of 1 to 12 elements are right.
tables_sort : (n : ℕ) → 1 ≤ n → n ≤ 12 → sorts_bools (sorting_network n) n ≡ true
tables_sort zero lo hi = absurd (omega arith)
tables_sort (suc zero) lo hi = table_1
tables_sort (suc (suc zero)) lo hi = table_2
tables_sort (suc (suc (suc zero))) lo hi = table_3
tables_sort (suc (suc (suc (suc zero)))) lo hi = table_4
tables_sort (suc (suc (suc (suc (suc zero))))) lo hi = table_5
tables_sort (suc (suc (suc (suc (suc (suc zero)))))) lo hi = table_6
tables_sort (suc (suc (suc (suc (suc (suc (suc zero))))))) lo hi = table_7
tables_sort (suc (suc (suc (suc (suc (suc (suc (suc zero)))))))) lo hi = table_8
tables_sort (suc (suc (suc (suc (suc (suc (suc (suc (suc zero))))))))) lo hi = table_9
tables_sort (suc (suc (suc (suc (suc (suc (suc (suc (suc (suc zero)))))))))) lo hi = table_10
tables_sort (suc (suc (suc (suc (suc (suc (suc (suc (suc (suc (suc zero))))))))))) lo hi = table_11
tables_sort (suc (suc (suc (suc (suc (suc (suc (suc (suc (suc (suc (suc zero)))))))))))) lo hi =
    table_12
tables_sort (suc (suc (suc (suc (suc (suc (suc (suc (suc (suc (suc (suc (suc n))))))))))))) lo hi =
    absurd (omega arith)

-- For every strict weak order, every start value and every list of 1 to 12 elements, network_sort
-- ends, its result is sorted, and the result holds as many elements equivalent to any t as the
-- input.
pub network_sort-IsSorted {ℓ} :
    {T : Type ℓ} (before : T → T → Bool) (start : T) (n : ℕ) (xs : List T)
    → StrictWeakOrder before
    → 1 ≤ n
    → n ≤ 12
    → length xs ≡ n
    → (out : List T) × (network_sort before start n xs ≡ some out)
      × IsSorted before out
      × ((t : T) → count_if (equivalent before t) out ≡ count_if (equivalent before t) xs)
unfolding network_sort
network_sort-IsSorted before start n xs w lo hi l =
    zero_one before w (sorting_network n) start n xs l (tables_sort n lo hi)
