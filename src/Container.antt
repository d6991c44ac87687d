-- ===== src/Container.antt =====
-- source/modules/eagine/container: the sorted-vector map, the trie and the pool of objects.
pub mod FlatMap
pub mod Trie
pub mod ObjectPool
pub mod StaticVector
