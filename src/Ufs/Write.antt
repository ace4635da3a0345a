-- ===== src/Ufs/Write.antt =====
-- crates/svr4-ufs/src/write.rs: writing inodes, their contents, and directories.
pub mod Monad
pub mod Fields
pub mod InodeLaws
pub mod Pointers
pub mod Ranges
pub mod Contents
pub mod Entries
pub mod Encoded
pub mod InsertLaws
pub mod Inserted
pub mod InsertEntry
pub mod Lookup
pub mod Removal
pub mod RemovedRecords
pub mod RemoveEntry
pub mod RoundTrip
pub mod Directory
pub mod Paths
pub mod Parents
