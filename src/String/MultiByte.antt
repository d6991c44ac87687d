-- ===== src/String/MultiByte.antt =====
-- source/modules/eagine/string/multi_byte.cpp.
pub mod Masks
pub mod Code
pub mod Spans
pub mod Bytes
pub mod Fields
pub mod RoundTrip
pub mod Single
pub mod Steps
pub mod Sequences
mod Tests
