-- ===== src/Container/StaticVector.antt =====
-- source/modules/eagine/container/static_vector.cpp.
pub mod Code
pub mod Writes
pub mod Contents
mod Tests
