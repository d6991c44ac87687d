-- ===== src/Container/FlatMap.antt =====
-- source/modules/eagine/container/flat_map.cpp.
pub mod Ops
pub mod Map
pub mod Spec
pub mod Lookup
pub mod Position
pub mod Hint
pub mod Results
mod Tests
