-- ===== src/Disk.antt =====
-- crates/svr4-disk: partition tables.
pub mod Structures
pub mod Mbr
pub mod Svr4
