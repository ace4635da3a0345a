-- ===== src/Ufs/Alloc.antt =====
-- crates/svr4-ufs/src/alloc.rs, allocation. A function that writes the image returns the image, next
-- to its reply; an error leaves what was written before it.
pub mod Group
pub mod Edit
pub mod Change
pub mod Mounted
pub mod Edited
pub mod Steps
pub mod InodeLaws
pub mod FreeLaws
pub mod Accounting
pub mod Inodes
pub mod Blocks
pub mod Counting
pub mod Summary
pub mod Runs
pub mod Preferred
