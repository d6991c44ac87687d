-- ===== src/Types.antt =====
-- source/modules/eagine/types: the tri-state Boolean.
pub mod Tribool
