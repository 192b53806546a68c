-- ===== src/Heap/Blocks.antt =====
-- The allocator without pointers: the blocks in the order of their addresses.
pub mod Defs
pub mod FirstFit
pub mod Coalesce
