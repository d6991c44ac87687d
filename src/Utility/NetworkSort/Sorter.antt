-- ===== src/Utility/NetworkSort/Sorter.antt =====
-- network_sort.cpp: `basic_network_sorter`, `network_sorter` and `network_sort`. `before` is the
-- comparator, `start` the value that a `std::array<T, N>` is filled with at first.
use mathlib.Core.Option
use eagine_core.Common.{
  ℕ, zero, suc, ◌+◌, ◌%◌, Bool, false, Option, none, some, List, ltb, leb, ◌==◌, if◌then◌else◌,
  get_or, set, for_range,
}
use eagine_core.Utility.NetworkSort.Network.{Network}
use eagine_core.Utility.NetworkSort.Tables.{sorting_network}

-- `_round` and the two arrays `_a[0]`, `_a[1]`.
pub record Sorter {ℓ} (T : Type ℓ) : Type ℓ where
  pub round : ℕ
  pub even : List T
  pub odd : List T

module _ {ℓ} {T : Type ℓ} (before : T → T → Bool) where
  unfoldable pub lesser : T → T → T
  lesser a b = if before a b then a else b

  unfoldable pub greater : T → T → T
  greater a b = if before a b then b else a

  unfoldable pub min_max_cpy : T → T → Bool → Bool → T
  unfolding lesser greater
  min_max_cpy a b min max = if min then lesser a b else if max then greater a b else a

  module _ (net : Network) (start : T) where
    unfoldable pub step_value : List T → ℕ → ℕ → T
    unfolding min_max_cpy
    step_value src r i =
        let j = net.index r i in
        min_max_cpy (get_or src i start) (get_or src j start) (net.min r i j) (net.max r i j)

    unfoldable pub single_sort_step : List T → List T → ℕ → ℕ → List T
    unfolding step_value
    single_sort_step src dst r i = set dst i (step_value src r i)

    unfoldable pub sort_single : ℕ → ℕ → Sorter T → Sorter T
    unfolding single_sort_step
    sort_single r i s =
        if r % 2 == 0
        then record s { odd = single_sort_step s.even s.odd r i }
        else record s { even = single_sort_step s.odd s.even r i }

    unfoldable pub done : Sorter T → Bool
    done s = leb net.rounds s.round

    unfoldable pub next_round : Sorter T → Sorter T × Bool
    unfolding done
    next_round s =
        if done s
        then (s, false)
        else (record s { round = s.round + 1 }, ltb (s.round + 1) net.rounds)

    module _ (n : ℕ) where
      unfoldable pub sort_round : Sorter T → Sorter T
      unfolding for_range sort_single
      sort_round s = for_range n 0 (λ i s. sort_single s.round i s) s

      -- `while(sort_round().next_round()) {}` on fuel; `none` means that the fuel ran out.
      unfoldable pub sort : ℕ → Sorter T → Option (Sorter T)
      sort zero s = none
      sort (suc fuel) s =
          let (s', more) = next_round (sort_round s) in
          let rest = sort fuel s' in if more then rest else some s'

    unfoldable pub result : Sorter T → List T
    result s = if net.rounds % 2 == 0 then s.even else s.odd

    -- A sorter of `n` elements over any network, run from its construction to its result.
    unfoldable pub sort_by : ℕ → List T → Option (List T)
    unfolding sort sort_round next_round result
    sort_by n xs = Option.map result (sort n net.rounds (record { round = 0; even = xs; odd = xs }))

-- `network_sort<N, Cmp>` on a span of N elements, which it overwrites by its result.
unfoldable pub network_sort {ℓ} : {T : Type ℓ} → (T → T → Bool) → T → ℕ → List T → Option (List T)
network_sort before start n xs = sort_by before (sorting_network n) start n xs
