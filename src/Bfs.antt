-- ===== src/Bfs.antt =====
-- crates/svr4-bfs/src/lib.rs: the constants of the boot file system, the records of its inode table, and
-- their fields.
pub mod Format
pub mod Read
pub mod Extents
pub mod Names
pub mod Records
pub mod Inodes
use ufs_fuse.Base.{ℕ, ◌+◌, ◌*◌, ◌>>=◌, Result, ℤ}
use ufs_fuse.Core.Image.{Buf}
use ufs_fuse.Core.Codec.{put_u16, put_u32, put_i32}
use ufs_fuse.Ufs.Bitmap.{div_ceil}

abbrev pub bfs_root_inode : ℕ
bfs_root_inode = 2

abbrev pub bfs_super_size : ℕ
bfs_super_size = 512

abbrev pub bfs_sanityw_offset : ℕ
bfs_sanityw_offset = 12

abbrev pub bfs_dirent_size : ℕ
bfs_dirent_size = 64

abbrev pub bfs_ldir_size : ℕ
bfs_ldir_size = 16

abbrev pub bfs_dirent_ino_offset : ℕ
bfs_dirent_ino_offset = 0

abbrev pub bfs_dirent_sblock_offset : ℕ
bfs_dirent_sblock_offset = 4

abbrev pub bfs_dirent_eblock_offset : ℕ
bfs_dirent_eblock_offset = 8

abbrev pub bfs_dirent_eoffset_offset : ℕ
bfs_dirent_eoffset_offset = 12

abbrev pub bfs_dirent_vattr_offset : ℕ
bfs_dirent_vattr_offset = 16

abbrev pub bfs_vattr_type_offset : ℕ
bfs_vattr_type_offset = 0

abbrev pub bfs_vattr_mode_offset : ℕ
bfs_vattr_mode_offset = 4

abbrev pub bfs_vattr_uid_offset : ℕ
bfs_vattr_uid_offset = 8

abbrev pub bfs_vattr_gid_offset : ℕ
bfs_vattr_gid_offset = 12

abbrev pub bfs_vattr_nlink_offset : ℕ
bfs_vattr_nlink_offset = 16

abbrev pub bfs_vattr_atime_offset : ℕ
bfs_vattr_atime_offset = 20

abbrev pub bfs_vattr_mtime_offset : ℕ
bfs_vattr_mtime_offset = 24

abbrev pub bfs_vattr_ctime_offset : ℕ
bfs_vattr_ctime_offset = 28

abbrev pub bfs_vreg : ℕ
bfs_vreg = 1

abbrev pub bfs_vdir : ℕ
bfs_vdir = 2

abbrev pub bfs_max_name : ℕ
bfs_max_name = 14

pub record Bfs : Type 0 where
  pub start_offset : ℕ
  pub data_start : ℕ
  pub data_end : ℕ

abbrev pub round_up : (value alignment : ℕ) → ℕ
round_up value alignment = div_ceil value alignment * alignment

unfoldable pub put_vattr : Buf → (at file_type mode nlink : ℕ) → (timestamp : ℤ) → Result Buf
put_vattr buf at file_type mode nlink timestamp = do
  buf ← put_u32 buf (at + bfs_vattr_type_offset) file_type
  buf ← put_u32 buf (at + bfs_vattr_mode_offset) mode
  buf ← put_u32 buf (at + bfs_vattr_uid_offset) 0
  buf ← put_u32 buf (at + bfs_vattr_gid_offset) 0
  buf ← put_u32 buf (at + bfs_vattr_nlink_offset) nlink
  buf ← put_i32 buf (at + bfs_vattr_atime_offset) timestamp
  buf ← put_i32 buf (at + bfs_vattr_mtime_offset) timestamp
  put_i32 buf (at + bfs_vattr_ctime_offset) timestamp

unfoldable pub put_dirent :
    Buf
    → (at inode_number start_block end_block end_offset file_type mode nlink : ℕ) → (timestamp : ℤ)
    → Result Buf
put_dirent buf at inode_number start_block end_block end_offset file_type mode nlink timestamp = do
  buf ← put_u16 buf (at + bfs_dirent_ino_offset) inode_number
  buf ← put_u32 buf (at + bfs_dirent_sblock_offset) start_block
  buf ← put_u32 buf (at + bfs_dirent_eblock_offset) end_block
  buf ← put_u32 buf (at + bfs_dirent_eoffset_offset) end_offset
  put_vattr buf (at + bfs_dirent_vattr_offset) file_type mode nlink timestamp
