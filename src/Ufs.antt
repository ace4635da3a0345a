-- ===== src/Ufs.antt =====
-- crates/svr4-ufs: the UFS file system.
pub mod Superblock
pub mod Bitmap
pub mod Inode
pub mod Alloc
pub mod Dir
pub mod Reader
pub mod Write
