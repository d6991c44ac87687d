-- ===== src/Memory/Biteset.antt =====
-- source/modules/eagine/memory/byteset.cpp and biteset.cpp.
pub mod Bytes
pub mod Code
pub mod Gather
pub mod Fields
pub mod Scatter
pub mod Packing
pub mod Writing
pub mod Making
mod Tests
