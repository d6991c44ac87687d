-- ===== src/Utility/NetworkSort.antt =====
-- source/modules/eagine/utility/network_sort.cpp.
pub mod Network
pub mod Tables
pub mod Sorter
pub mod Rounds
pub mod ZeroOne
pub mod Sizes
pub mod Faults
mod Tests
