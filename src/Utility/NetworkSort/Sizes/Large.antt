-- ===== src/Utility/NetworkSort/Sizes/Large.antt =====
-- network_sort.cpp: the networks of 11 and 12 elements, run on every list of Booleans.
use eagine_core.Common.{true, ◌≡◌, refl}
use eagine_core.Utility.NetworkSort.Tables.{sorting_network}
use eagine_core.Utility.NetworkSort.ZeroOne.{sorts_bools}

pub table_11 : sorts_bools (sorting_network 11) 11 ≡ true
unfolding sorts_bools sorting_network
table_11 = refl

pub table_12 : sorts_bools (sorting_network 12) 12 ≡ true
unfolding sorts_bools sorting_network
table_12 = refl
