-- ===== src/Lib.antt =====
-- A model of the UFS file system library of the repository and of its partition tables, with proofs.
--
-- The repository has three library crates over one core, and three programs over them. A file system
-- is a byte image; every operation takes the image and a parsed superblock, reads and writes bytes at
-- computed offsets, and either returns a value, returns an error, or panics where an index or a slice
-- is out of range.
--
--   crates/svr4-fs-core  the bytes (image.rs), little-endian integers (codec.rs), constants (consts.rs)
--   crates/svr4-ufs      superblock and geometry (superblock.rs), inodes (inode.rs), cylinder groups
--                        and allocation (alloc.rs), and above them directories, reading, writing,
--                        formatting and checking
--   crates/svr4-bfs, crates/svr4-disk   the boot file system, and partition tables
--
-- Which file models which part:
--   Base                 numbers, tests, lists, and what a call comes to: `Result` is a value or a
--                        panic, and `Reply` inside it is the source's `Result<T, String>`
--   Core/Image           image.rs: a buffer is its size and its bytes; `get`, `set`, `slice`,
--                        `write_at` check the range as Rust does
--   Core/Codec           codec.rs: `u16` .. `put_u64`, under the source's names
--   Core/Consts          consts.rs: every constant, in lower case
--   Ufs/Superblock       superblock.rs: `parse` in parts, `detect_ufs_at_start`, the address macros
--   Ufs/Inode            inode.rs: `read_inode` and the walks of the block pointers
--   Ufs/Bitmap           alloc.rs: the accessors of the two maps of a cylinder group
--   Ufs/Alloc/Group      alloc.rs: the blocks of the cylinder groups and the counts kept in them
--   Ufs/Alloc/Inodes     alloc.rs: `allocate_inode` and `free_inode`
--   Ufs/Alloc/Blocks     alloc.rs: `allocate_block`, `allocate_fragments`, `free_block`, `free_allocation`
--   Ufs/Alloc/Counting, Ufs/Alloc/Summary   alloc.rs: `expected_cg_header`, `recompute_summary_counts`
--   Ufs/Alloc/Accounting the counts of free inodes against the maps; Accounting/Machine has the abstract
--                        allocator, a set of inode numbers with the requests that change it
--   Ufs/Dir              dir.rs, and the scan of one block by `lookup_directory_entry`
--   Ufs/Reader           reader.rs: file ranges, listings, lookup and path resolution
--   Ufs/Write            write.rs. Fields: `initialize_inode` and the writers of single fields; Pointers:
--                        `build_pointer_tree`; Ranges, Contents: `set_inode_contents`,
--                        `apply_inode_write`, `truncate`; Entries, Removal: records of a directory;
--                        Directory: `add_directory_entry`, `delete_directory_entry`; Paths: the
--                        operations by path; Parents: those by parent inode and name, with
--                        `rename_in_parent`. Monad has the image as the state and the errors
--   Bfs                  crates/svr4-bfs: its constants and inode records; Bfs/Format has `format`, Bfs/Read
--                        `detect_at_start`, `list_root` and `read_file`
--   Disk/Mbr, Disk/Svr4  mbr.rs and svr4.rs of crates/svr4-disk, with Disk/Structures for structures.rs
--   Tests                a small disk, and every theorem at a concrete input
-- The other files hold proofs.
--
-- A name or a path is a list of characters in the writer, which encodes it in UTF-8, and a list of bytes
-- in the reader. An addition of two `u16` that does not fit is a panic, and so is `unwrap` of nothing.
--
-- State is passed explicitly: an operation returns the new image beside its reply, so what was written
-- before an error stays written. `i64` values that cannot be negative are natural numbers. The address
-- arithmetic of superblock.rs panics where a number does not fit an `i64`, as a build that checks
-- overflow does; a shift that loses bits, where the source goes on with another number, is a panic too,
-- as is a shift by 64 or more. Other sums of `usize` and `u64` are not bounded. `u32` fields wrap at
-- 2 ^ 32 where they are stored. Loops over ranges are
-- structural recursion on the number of rounds; the loop of `allocation_byte_sizes` has `size` rounds
-- as fuel, which is enough because a round takes at least one byte. The walk of a directory block has
-- one round of fuel for each byte, and a record takes at least one; the loops over the blocks of a
-- directory have one for each byte of the directory and move on by 512. The searches for free fragments
-- have a round for each fragment of the group and two more; a superblock with `frag == 0`, where the
-- loop that counts blocks is not left, runs out of fuel, and the model panics. The search for room in a
-- directory block has a round for each of its bytes, and the listing of a boot file system one for
-- each byte of its directory, of which a round takes 16. The loop that builds the children of a pointer
-- block has one for each block: a round takes one at least, but for a capacity of 0, where the source
-- does not end and the model panics.
--
-- Not modelled: memory-mapped images and other file I/O, the FUSE callbacks, command lines and
-- printing, the formatting and checking of UFS file systems, and how a disk image is created and
-- inspected.
pub mod Base
pub mod Core
pub mod Ufs
pub mod Disk
pub mod Bfs
pub mod Tests
