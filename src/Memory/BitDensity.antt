-- ===== src/Memory/BitDensity.antt =====
-- source/modules/eagine/memory/bit_density.cpp.
pub mod Code
pub mod Chunks
pub mod Streams
pub mod Lengths
pub mod RoundTrip
mod Tests
