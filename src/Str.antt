-- ===== src/Str.antt =====
-- src/string.c, with the string extras of src/compat.c, over the flat memory.
pub mod Block
pub mod Copy
pub mod Compare
pub mod Search
