-- ===== src/Stdio.antt =====
-- src/stdio.c: formatted output and streams.
pub mod Format
pub mod Output
pub mod Stream
