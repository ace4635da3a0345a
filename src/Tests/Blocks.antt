-- ===== src/Tests/Blocks.antt =====
-- The blocks of a file of the small disk that needs an indirect block.
use ufs_fuse.Base.{ℕ, ◌≡◌, refl, ok, ◌==◌, if◌then◌else◌, none, some, [], ◌∷◌, take}
use ufs_fuse.Core.Image.{Buf, get, slice}
use ufs_fuse.Core.Codec.{u32}
use ufs_fuse.Ufs.Superblock.{Ufs, data_block_offset, fsbtobytes, shl, i64}
use ufs_fuse.Ufs.Inode.{
  Inode, collect_indirect_data_blocks, collect_loop, read_pointer_block, read_u32s, is_full, room,
  truncate, is_zero,
}
use ufs_fuse.Ufs.Inode.Collect.{collect_indirect_data_blocks-take}
use ufs_fuse.Tests.Disk.{mini_sb}

-- A block of pointers has four entries here.
abbrev narrow : Ufs
narrow = record { start_offset = 0; super_offset = 8192; sb = record mini_sb { nindir = 4 } }

-- Fragment 30 holds the pointers 40, 0, 48 and 52.
unfoldable pointer_byte : ℕ → ℕ
pointer_byte a = if a == 30720 then 40 else if a == 30728 then 48 else if a == 30732 then 52 else 0

abbrev pointer_disk : Buf
pointer_disk = record { size = 40960; byte = pointer_byte }

-- Four blocks: two direct ones and the rest below fragment 30.
abbrev file : Inode
file = record {
  mode = 33188;
  nlink = 1;
  uid = 0;
  gid = 0;
  atime = 0;
  mtime = 0;
  ctime = 0;
  size = 16384;
  direct_blocks = 24 ∷ 28 ∷ 0 ∷ [];
  indirect_blocks = 30 ∷ 0 ∷ 0 ∷ [];
  blocks = 40;
}

below_30 : collect_indirect_data_blocks pointer_disk narrow 1 30 none ≡ ok (40 ∷ 48 ∷ 52 ∷ [])
unfolding collect_indirect_data_blocks collect_loop read_pointer_block read_u32s is_full room
    truncate is_zero data_block_offset fsbtobytes shl i64 slice get u32 pointer_byte
below_30 = refl

collect_indirect_data_blocks-take_example :
    collect_indirect_data_blocks pointer_disk narrow 1 30 (some 2) ≡ ok (take 2 (40 ∷ 48 ∷ 52 ∷ []))
collect_indirect_data_blocks-take_example =
    collect_indirect_data_blocks-take pointer_disk narrow 1 30 2 (40 ∷ 48 ∷ 52 ∷ []) below_30
