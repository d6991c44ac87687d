-- ===== src/Utility.antt =====
-- source/modules/eagine/utility: sorting networks and timeouts.
pub mod NetworkSort
pub mod Timeout
