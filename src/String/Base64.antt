-- ===== src/String/Base64.antt =====
-- source/modules/eagine/string/base64.cpp.
pub mod Code
pub mod RoundTrip
mod Tests
