-- ===== src/Ufs/Write/Fields.antt =====
-- write.rs: the fields of an inode.
use ufs_fuse.Base.{
  ℕ, zero, suc, ◌+◌, ◌*◌, ◌%◌, ◌^◌, Option, none, some, List, get_or, length, min, Result, ok,
  panic, ◌>>=◌, ltb, if◌then◌else◌,
}
use ufs_fuse.Core.Image.{Buf, fill_zero}
use ufs_fuse.Core.Codec.{put_u16, put_u32, put_u64}
use ufs_fuse.Core.Consts.{
  ufs_dinode_size, ufs_di_atime_offset, ufs_di_blocks_offset, ufs_di_ctime_offset, ufs_di_db_offset,
  ufs_di_eftflag_offset, ufs_di_gid_offset, ufs_di_ib_offset, ufs_di_mode_offset,
  ufs_di_mtime_offset, ufs_di_nlink_offset, ufs_di_sgid_offset, ufs_di_size_offset,
  ufs_di_suid_offset, ufs_di_uid_offset, ufs_eft_magic, ufs_ndaddr, ufs_niaddr,
}
use ufs_fuse.Ufs.Superblock.{Ufs, inode_byte_offset, data_block_offset}

unfoldable pub inode_offset : Ufs → ℕ → Result ℕ
inode_offset ufs inode_number = inode_byte_offset ufs.sb ufs.start_offset inode_number

unfoldable pub clear_inode : Buf → Ufs → ℕ → Result Buf
clear_inode image ufs inode_number = do
  off ← inode_offset ufs inode_number
  fill_zero image off (off + ufs_dinode_size)

unfoldable pub write_inode_time : Buf → (inode_off field_offset timestamp : ℕ) → Result Buf
write_inode_time image inode_off field_offset timestamp = do
  image ← put_u32 image (inode_off + field_offset) timestamp
  put_u32 image (inode_off + field_offset + 4) 0

-- `x as u16` and `x as u32`
abbrev pub as_u16 : ℕ → ℕ
as_u16 n = n % 2 ^ 16

abbrev pub as_u32 : ℕ → ℕ
as_u32 n = n % 2 ^ 32

-- `n + 1` of a `u16`
unfoldable pub succ_u16 : ℕ → Result ℕ
succ_u16 n = if ltb (n + 1) (2 ^ 16) then ok (n + 1) else panic

-- What is written to an inode that was cleared, its bytes from `off` on.
unfoldable pub put_inode : Buf → (off mode uid gid nlink timestamp : ℕ) → Result Buf
put_inode image off mode uid gid nlink timestamp = do
  image ← put_u16 image off (as_u16 mode)
  image ← put_u16 image (off + ufs_di_nlink_offset) nlink
  image ← put_u16 image (off + ufs_di_suid_offset) (as_u16 uid)
  image ← put_u16 image (off + ufs_di_sgid_offset) (as_u16 gid)
  image ← write_inode_time image off ufs_di_atime_offset timestamp
  image ← write_inode_time image off ufs_di_mtime_offset timestamp
  image ← write_inode_time image off ufs_di_ctime_offset timestamp
  image ← put_u32 image (off + ufs_di_mode_offset) mode
  image ← put_u32 image (off + ufs_di_uid_offset) uid
  image ← put_u32 image (off + ufs_di_gid_offset) gid
  put_u32 image (off + ufs_di_eftflag_offset) ufs_eft_magic

unfoldable pub initialize_inode :
    Buf → Ufs → (inode_number mode uid gid nlink timestamp : ℕ) → Result Buf
initialize_inode image ufs inode_number mode uid gid nlink timestamp = do
  image ← clear_inode image ufs inode_number
  off ← inode_offset ufs inode_number
  put_inode image off mode uid gid nlink timestamp

unfoldable pub write_inode_size : Buf → Ufs → ℕ → ℕ → Result Buf
write_inode_size image ufs inode_number size = do
  off ← inode_offset ufs inode_number
  put_u64 image (off + ufs_di_size_offset) size

unfoldable pub write_inode_nlink : Buf → Ufs → ℕ → ℕ → Result Buf
write_inode_nlink image ufs inode_number nlink = do
  off ← inode_offset ufs inode_number
  put_u16 image (off + ufs_di_nlink_offset) nlink

unfoldable pub write_inode_blocks : Buf → Ufs → ℕ → ℕ → Result Buf
write_inode_blocks image ufs inode_number sectors = do
  off ← inode_offset ufs inode_number
  put_u32 image (off + ufs_di_blocks_offset) sectors

-- `n` pointers of a list from index `i` on, 0 past its end, the first written at `at + i * 4`.
unfoldable pub put_pointers : Buf → (at : ℕ) → List ℕ → (n i : ℕ) → Result Buf
put_pointers image at values zero i = ok image
put_pointers image at values (suc n) i = do
  image ← put_u32 image (at + i * 4) (as_u32 (get_or values i 0))
  put_pointers image at values n (i + 1)

unfoldable pub write_block_lists : Buf → Ufs → ℕ → List ℕ → List ℕ → Result Buf
write_block_lists image ufs inode_number direct indirect = do
  off ← inode_offset ufs inode_number
  image ← put_pointers image (off + ufs_di_db_offset) direct ufs_ndaddr 0
  put_pointers image (off + ufs_di_ib_offset) indirect ufs_niaddr 0

unfoldable pub set_inode_mode : Buf → Ufs → ℕ → ℕ → Result Buf
set_inode_mode image ufs inode_number mode = do
  off ← inode_offset ufs inode_number
  put_u32 image (off + ufs_di_mode_offset) mode

unfoldable pub set_inode_owner : Buf → Ufs → (inode_number uid gid : ℕ) → Result Buf
set_inode_owner image ufs inode_number uid gid = do
  off ← inode_offset ufs inode_number
  image ← put_u16 image (off + ufs_di_suid_offset) (as_u16 uid)
  image ← put_u16 image (off + ufs_di_sgid_offset) (as_u16 gid)
  image ← put_u32 image (off + ufs_di_uid_offset) uid
  put_u32 image (off + ufs_di_gid_offset) gid

unfoldable pub write_time_if : Buf → (inode_off field_offset : ℕ) → Option ℕ → Result Buf
write_time_if image inode_off field_offset none = ok image
write_time_if image inode_off field_offset (some t) =
    write_inode_time image inode_off field_offset t

unfoldable pub set_inode_times : Buf → Ufs → ℕ → (atime mtime ctime : Option ℕ) → Result Buf
set_inode_times image ufs inode_number atime mtime ctime = do
  off ← inode_offset ufs inode_number
  image ← write_time_if image off ufs_di_atime_offset atime
  image ← write_time_if image off ufs_di_mtime_offset mtime
  write_time_if image off ufs_di_ctime_offset ctime

-- `base.pow(n)` of a `usize`
unfoldable pub pow_usize : ℕ → ℕ → Result ℕ
pow_usize base n = if ltb (base ^ n) (2 ^ 64) then ok (base ^ n) else panic

unfoldable pub write_pointer_block : Buf → Ufs → ℕ → List ℕ → Result Buf
write_pointer_block image ufs fs_block pointers = do
  block_offset ← data_block_offset ufs.sb ufs.start_offset fs_block
  image ← fill_zero image block_offset (block_offset + ufs.sb.bsize)
  put_pointers image block_offset pointers (min ufs.sb.nindir (length pointers)) 0
