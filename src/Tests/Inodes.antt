-- ===== src/Tests/Inodes.antt =====
-- Taking and freeing inodes of the small disk.
use ufs_fuse.Base.{
  ℕ, ◌<◌, ◌≡◌, ◌⊎◌, refl, true, false, ok, panic, arith, pos, negsuc, none, some, done, failed,
  already_free, no_free_inodes,
}
use ufs_fuse.Core.Image.{Buf, get, set, slice, write_at}
use ufs_fuse.Core.Codec.{u32, put_u32, to_le_bytes}
use ufs_fuse.Ufs.Superblock.{itog, fsbtobytes, shl, i64, cgtod, cgstart, cgbase, and_not}
use ufs_fuse.Ufs.Bitmap.{is_inode_used, set_inode_state, get_state, set_state, test_bit, with_bit}
use ufs_fuse.Ufs.Alloc.Group.{
  read_allocatable_cg_block, read_cg_block, write_cg_block, cg_block_offset, adjust_u32_at,
  adjust_superblock_free_inodes, adjust_superblock_directory_count, adjust_cg_free_inodes,
  adjust_cg_directory_count,
}
use ufs_fuse.Ufs.Bitmap.Laws.{bit}
use ufs_fuse.Ufs.Alloc.Inodes.{
  allocate_inode, free_inode, choose_inode, start_group, local_index, allocate_inode_loop,
  try_group, find_free_inode, take_inode,
}
use ufs_fuse.Ufs.Alloc.Mounted.{is_used, Changed}
use ufs_fuse.Core.Codec.{peek32}
use ufs_fuse.Ufs.Alloc.Preferred.{allocate_inode-preferred}
use ufs_fuse.Ufs.Alloc.InodeLaws.{IsTaken, IsExhausted, allocate_inode_lem}
use ufs_fuse.Ufs.Alloc.FreeLaws.{IsRestored, free_inode_lem, free_inode-allocate_inode}
use ufs_fuse.Tests.Disk.{mini, mini_base, mini_byte, disk, mini-Formatted}

allocate_inode_lem_example :
    ((i : ℕ) × (image' : Buf) × (allocate_inode disk mini (some 40) true ≡ ok (done i, image'))
      × IsTaken mini mini_base true disk i image')
    ⊎ ((allocate_inode disk mini (some 40) true ≡ ok (failed no_free_inodes, disk))
        × ((g : ℕ) → g < 2 → IsExhausted mini mini_base true disk g))
allocate_inode_lem_example = allocate_inode_lem disk mini mini_base (some 40) true mini-Formatted

free_inode_lem_example :
    (is_used disk 16384 1 ≡ true
      → (image' : Buf) × (free_inode disk mini 1 false ≡ ok (done tt, image'))
        × Changed false false (pos 1) (negsuc 0) mini mini_base 0 1 disk image')
    × (is_used disk 16384 1 ≡ false → free_inode disk mini 1 false ≡ ok (failed already_free, disk))
free_inode_lem_example = free_inode_lem disk mini mini_base 1 false mini-Formatted (omega arith)

-- The disk after the first free inode was taken for a directory.
abbrev pub after_alloc : Buf
after_alloc = elim (allocate_inode disk mini none true) [ panic ↦ disk | ok t ↦ t.1 ]

pub allocated : allocate_inode disk mini none true ≡ ok (done 2, after_alloc)
unfolding allocate_inode start_group local_index allocate_inode_loop try_group choose_inode
    find_free_inode take_inode read_allocatable_cg_block read_cg_block write_cg_block
    cg_block_offset adjust_u32_at adjust_superblock_free_inodes adjust_superblock_directory_count
    adjust_cg_free_inodes adjust_cg_directory_count fsbtobytes shl i64 cgtod cgstart cgbase and_not
    is_inode_used set_inode_state get_state set_state test_bit with_bit u32 put_u32 to_le_bytes get
    set slice write_at mini_byte
allocated = refl

free_inode-allocate_inode_example :
    (image2 : Buf) × (free_inode after_alloc mini 2 true ≡ ok (done tt, image2))
    × IsRestored disk mini mini_base true 2 after_alloc 0 image2
unfolding itog
free_inode-allocate_inode_example =
    free_inode-allocate_inode disk mini mini_base true 2 after_alloc none mini-Formatted allocated

pub bit_2_free : is_used disk 118784 2 ≡ false
unfolding mini_byte bit test_bit
bit_2_free = refl

count_32 : peek32 disk 118816 ≡ 32
unfolding mini_byte peek32
count_32 = refl

-- Inode 34 is the third of the second group.
allocate_inode-preferred_example :
    (image' : Buf) × (allocate_inode disk mini (some 34) true ≡ ok (done 34, image'))
    × Changed true true (negsuc 0) (pos 1) mini mini_base 1 2 disk image'
allocate_inode-preferred_example =
    allocate_inode-preferred disk mini mini_base 34 true mini-Formatted (omega arith) bit_2_free
      (omega (arith, count_32))
