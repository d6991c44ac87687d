-- ===== src/Memory.antt =====
-- source/modules/eagine/memory: densities and sets of bits, algorithms on spans, and the stack allocator.
pub mod BitDensity
pub mod Biteset
pub mod SpanAlgorithm
pub mod StackAllocator
