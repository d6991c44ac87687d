-- ===== src/Utility/Timeout.antt =====
-- source/modules/eagine/utility/timeout.cpp.
pub mod Code
pub mod Firing
pub mod BackingOff
mod Tests
