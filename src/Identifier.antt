-- ===== src/Identifier.antt =====
-- source/modules/eagine/identifier: short strings packed into an integer.
pub mod Code
pub mod Chars
pub mod RoundTrip
pub mod Distinct
pub mod Increment
pub mod Messages
pub mod Decimal
mod Tests
