-- ===== src/Tests.antt =====
-- Runs of the modelled functions on concrete inputs.
mod Allocator
mod Strings
mod Library
mod Patterns
mod Addresses
mod Output
mod Scanning
mod Kernel
mod Options
mod Folders
mod Globbing
mod Paths
