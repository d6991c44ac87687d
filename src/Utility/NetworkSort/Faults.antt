-- ===== src/Utility/NetworkSort/Faults.antt =====
-- network_sort.cpp: the sizes at which `network_sort` does not sort. The 16-element table has a row
-- that is no pairing, and the computed network is right only for powers of two.
use eagine_core.Common.{
  ℕ, Bool, true, false, some, List, ◌∷◌, ◌++◌, map, replicate, length, length-map, ltb, ltb→lt,
  if◌then◌else◌, ◌≡◌, refl, ap, ◌∙◌, arith,
}
use eagine_core.Utility.NetworkSort.Network.{Network}
use eagine_core.Utility.NetworkSort.Tables.{sorting_network}
use eagine_core.Utility.NetworkSort.Sorter.{network_sort, sort_by, lesser, greater}
use eagine_core.Utility.NetworkSort.Rounds.{
  run_rounds, sort_by-run_rounds, in_range, run_rounds-start,
}
use eagine_core.Common.Order.{StrictWeakOrder, IsSorted}
use eagine_core.Utility.NetworkSort.ZeroOne.{Commutes, less_bool, run_rounds-map}

abbrev pick {ℓ} : {T : Type ℓ} → T → T → Bool → T
pick lo hi b = if b then hi else lo

abbrev pub swapped_first : ℕ → List Bool
swapped_first n = true ∷ replicate n false

-- Six ones among sixteen.
abbrev pub six_of_16 : List Bool
six_of_16 = replicate 4 true ++ (false ∷ true ∷ true ∷ replicate 9 false)

run_13 :
    let net = sorting_network 13 in
    (in_range net 13 ≡ true)
    × (ltb 0 net.rounds ≡ true)
    × (run_rounds less_bool net false 13 net.rounds 0 (swapped_first 12)
        ≡ replicate 7 false ++ (true ∷ replicate 5 false))
unfolding sorting_network in_range run_rounds
run_13 = (refl, refl, refl)

run_15 :
    let net = sorting_network 15 in
    (in_range net 15 ≡ true)
    × (ltb 0 net.rounds ≡ true)
    × (run_rounds less_bool net false 15 net.rounds 0 (swapped_first 14)
        ≡ replicate 7 false ++ (true ∷ replicate 7 false))
unfolding sorting_network in_range run_rounds
run_15 = (refl, refl, refl)

run_16 :
    let net = sorting_network 16 in
    (in_range net 16 ≡ true)
    × (ltb 0 net.rounds ≡ true)
    × (run_rounds less_bool net false 16 net.rounds 0 six_of_16
        ≡ replicate 9 false ++ replicate 7 true)
unfolding sorting_network in_range run_rounds
run_16 = (refl, refl, refl)

module _ {ℓ} {T : Type ℓ} (before : T → T → Bool) (start lo hi : T) (w : StrictWeakOrder before)
    (lt : before lo hi ≡ true) where
  irrefl : (a : T) → before a a ≡ false
  irrefl a = ground (arith, w.asym a a)

  pick-Commutes : Commutes less_bool before (pick lo hi)
  unfolding lesser greater
  pick-Commutes = record { low = low; high = high }
    where
      low :
          (a b : Bool)
          → pick lo hi (lesser less_bool a b) ≡ lesser before (pick lo hi a) (pick lo hi b)
      low a b = ground (arith, irrefl lo, irrefl hi, w.asym lo hi)

      high :
          (a b : Bool)
          → pick lo hi (greater less_bool a b) ≡ greater before (pick lo hi a) (pick lo hi b)
      high a b = ground (arith, irrefl lo, irrefl hi, w.asym lo hi)

  -- A sorter on two values does what the network does on the Booleans.
  sort_two :
      (net : Network) (n : ℕ) (bs out : List Bool)
      → in_range net n ≡ true
      → ltb 0 net.rounds ≡ true
      → length bs ≡ n
      → run_rounds less_bool net false n net.rounds 0 bs ≡ out
      → sort_by before net start n (map (pick lo hi) bs) ≡ some (map (pick lo hi) out)
  sort_two net n bs out safe pos l e =
      sort_by-run_rounds before net start n (map (pick lo hi) bs) (ltb→lt 0 net.rounds pos)
        (length-map bs (pick lo hi) ∙ l)
      ∙ ap some (
          run_rounds-start before net n safe start lo net.rounds 0 (map (pick lo hi) bs)
            (omega arith) (length-map bs (pick lo hi) ∙ l)
          ∙ run_rounds-map less_bool before (pick lo hi) pick-Commutes net false n net.rounds 0 bs
          ∙ ap (map (pick lo hi)) e)

  -- For a strict weak order and lo before hi, network_sort of hi followed by 12, or by 14, times lo
  -- ends with a result that is not sorted.
  network_sort_13_15 :
      ((out : List T) × (network_sort before start 13 (hi ∷ replicate 12 lo) ≡ some out)
        × (¬ IsSorted before out))
      × ((out : List T) × (network_sort before start 15 (hi ∷ replicate 14 lo) ≡ some out)
          × (¬ IsSorted before out))
  unfolding network_sort
  network_sort_13_15 = (
    (
      replicate 7 lo ++ (hi ∷ replicate 5 lo),
      sort_two (sorting_network 13) 13 (swapped_first 12) _ run_13.0 run_13.1 refl run_13.2,
      λ s. cc (s.1.1.1.1.1.1.1.0),
    ),
    (
      replicate 7 lo ++ (hi ∷ replicate 7 lo),
      sort_two (sorting_network 15) 15 (swapped_first 14) _ run_15.0 run_15.1 refl run_15.2,
      λ s. cc (s.1.1.1.1.1.1.1.0),
    ),
  )

  -- For a strict weak order and lo before hi, network_sort of hi hi hi hi lo hi hi followed by nine
  -- times lo, six hi and ten lo in all, ends with nine times lo followed by seven times hi.
  pub network_sort_16 :
      network_sort before start 16 (map (pick lo hi) six_of_16)
      ≡ some (replicate 9 lo ++ replicate 7 hi)
  unfolding network_sort
  network_sort_16 = sort_two (sorting_network 16) 16 six_of_16 _ run_16.0 run_16.1 refl run_16.2
