-- ===== src/Compat.antt =====
-- Parts of src/compat.c: paths, path patterns, temporary names, processes, scanned input. Its string
-- functions are in Str.
pub mod Paths
pub mod Temporary
pub mod Process
pub mod Glob
pub mod Scan
