-- ===== src/Memory/SpanAlgorithm.antt =====
-- source/modules/eagine/memory/span_algorithm.cpp.
pub mod Slices
pub mod Searches
pub mod Parts
pub mod Prefixes
pub mod Positions
pub mod Splits
pub mod Chunks
pub mod Elements
mod Tests
