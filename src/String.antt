-- ===== src/String.antt =====
-- source/modules/eagine/string: base64 and multi-byte encodings, and lists of strings in a string.
pub mod Base64
pub mod MultiByte
pub mod StringList
