-- ===== src/Utility/NetworkSort/Sizes/Small.antt =====
-- network_sort.cpp: the networks of 1 to 10 elements, run on every list of Booleans.
use eagine_core.Common.{true, ◌≡◌, refl}
use eagine_core.Utility.NetworkSort.Tables.{sorting_network}
use eagine_core.Utility.NetworkSort.ZeroOne.{sorts_bools}

pub table_1 : sorts_bools (sorting_network 1) 1 ≡ true
unfolding sorts_bools sorting_network
table_1 = refl

pub table_2 : sorts_bools (sorting_network 2) 2 ≡ true
unfolding sorts_bools sorting_network
table_2 = refl

pub table_3 : sorts_bools (sorting_network 3) 3 ≡ true
unfolding sorts_bools sorting_network
table_3 = refl

pub table_4 : sorts_bools (sorting_network 4) 4 ≡ true
unfolding sorts_bools sorting_network
table_4 = refl

pub table_5 : sorts_bools (sorting_network 5) 5 ≡ true
unfolding sorts_bools sorting_network
table_5 = refl

pub table_6 : sorts_bools (sorting_network 6) 6 ≡ true
unfolding sorts_bools sorting_network
table_6 = refl

pub table_7 : sorts_bools (sorting_network 7) 7 ≡ true
unfolding sorts_bools sorting_network
table_7 = refl

pub table_8 : sorts_bools (sorting_network 8) 8 ≡ true
unfolding sorts_bools sorting_network
table_8 = refl

pub table_9 : sorts_bools (sorting_network 9) 9 ≡ true
unfolding sorts_bools sorting_network
table_9 = refl

pub table_10 : sorts_bools (sorting_network 10) 10 ≡ true
unfolding sorts_bools sorting_network
table_10 = refl
