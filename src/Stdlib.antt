-- ===== src/Stdlib.antt =====
-- The parts of src/stdlib.c beside the allocator.
pub mod Env
pub mod Number
pub mod Sort
pub mod Division
pub mod Random
pub mod Atexit
