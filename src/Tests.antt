-- ===== src/Tests.antt =====
-- Sample disks, runs of the model on them, and each theorem at one of them.
pub mod Disk
pub mod Codec
pub mod Geometry
pub mod Blocks
pub mod Inodes
pub mod Dirs
pub mod Runs
pub mod Accounting
pub mod Write
pub mod Remove
pub mod Bfs
