-- ===== src/Ufs/Alloc/Mounted.antt =====
-- A formatted file system in an image, and how the edit of one inode changes it.
use ufs_fuse.Base.{
  ℕ, ◌+◌, ◌/◌, ◌≤◌, ◌<◌, ◌≡◌, ◌≢◌, ◌⊎◌, ap, Bool, ok, ◌==◌, ◌&&◌, if◌then◌else◌, arith, ℤ,
}
use ufs_fuse.Core.Image.{Buf, IsBytes}
use ufs_fuse.Core.Codec.{peek32}
use ufs_fuse.Core.Consts.{
  ufs_cg_cs_ndir_offset, ufs_cg_cs_nifree_offset, ufs_cg_iused_offset, ufs_cg_irotor_offset,
  ufs_cg_magic, ufs_cg_magic_offset, ufs_fs_cstotal_ndir_offset, ufs_fs_cstotal_nifree_offset,
}
use ufs_fuse.Ufs.Superblock.{Ufs}
use ufs_fuse.Ufs.Bitmap.Laws.{bit}
use ufs_fuse.Ufs.Alloc.Group.{cg_block_offset}
use ufs_fuse.Ufs.Alloc.Edit.{adjusted, bump, bump_if, peek32_ext}
use ufs_fuse.Ufs.Alloc.Change.{edit_group, place}

-- Every cylinder group `g` has its block at `base g`, with the magic number; the blocks lie inside the
-- image and apart from one another and from the superblock; and a group has room in its map for its
-- inodes.
pub record Formatted (image : Buf) (ufs : Ufs) (base : ℕ → ℕ) : Type 0 where
  pub bytes : IsBytes image
  pub located : (g : ℕ) → g < ufs.sb.ncg → cg_block_offset ufs g ≡ ok (base g)
  pub inside : (g : ℕ) → g < ufs.sb.ncg → base g + ufs.sb.bsize ≤ image.size
  pub apart :
      (g h : ℕ)
      → g < ufs.sb.ncg
      → h < ufs.sb.ncg
      → g ≢ h
      → (base g + ufs.sb.bsize ≤ base h) ⊎ (base h + ufs.sb.bsize ≤ base g)
  pub clear :
      (g : ℕ)
      → g < ufs.sb.ncg
      → (base g + ufs.sb.bsize ≤ ufs.super_offset) ⊎ (ufs.super_offset + 8192 ≤ base g)
  pub super_inside : ufs.super_offset + 8192 ≤ image.size
  pub magic : (g : ℕ) → g < ufs.sb.ncg → peek32 image (base g + ufs_cg_magic_offset) ≡ ufs_cg_magic
  pub ipg_le : ufs.sb.ipg ≤ 2048
  pub ipg_pos : 0 < ufs.sb.ipg
  pub ncg_pos : 0 < ufs.sb.ncg
  pub bsize_ge : 4096 ≤ ufs.sb.bsize

-- Whether inode `k` of the group whose block is at `at` is in use.
abbrev pub is_used : Buf → ℕ → ℕ → Bool
is_used image at k = bit (at + ufs_cg_iused_offset) image k

abbrev pub window : ℕ → ℕ → Buf → Buf
window at n image = record { size = n; byte = λ a. image.byte (at + a) }

pub bit-window :
    (map at n : ℕ) (image : Buf) (k : ℕ) → bit map (window at n image) k ≡ bit (at + map) image k
unfolding bit
bit-window map at n image k = let e : at + (map + k / 8) ≡ at + map + k / 8 = omega arith in rw e

pub peek32-window :
    (at n : ℕ) (image : Buf) (a : ℕ) → peek32 (window at n image) a ≡ peek32 image (at + a)
peek32-window at n image a =
    peek32_ext image (window at n image) a (at + a) (λ i h. ap image.byte (omega arith))

module _ (on dir : Bool) (d e' : ℤ) (ufs : Ufs) where
  -- The image after inode `l` of the group at `at` was taken or freed.
  unfoldable pub edit_image : ℕ → ℕ → Buf → Buf
  edit_image at l image = bump_if dir (ufs.super_offset + ufs_fs_cstotal_ndir_offset) e' (
      bump (ufs.super_offset + ufs_fs_cstotal_nifree_offset) d
        (place at (edit_group on dir d e' l (window at ufs.sb.bsize image)) image))

  -- What that edit of inode `l` of group `g` changes: the bit of that inode in the map, the count of
  -- free inodes of the group and of the superblock, for a directory their counts of directories, and
  -- perhaps the rotor of the group. No other byte changes, in the block of the group (`rest`) or outside of it
  -- (`elsewhere`), but for the byte of the map with the bit, whose other bits are kept.
  pub record Changed (base : ℕ → ℕ) (g l : ℕ) (image image' : Buf) : Type 0 where
    pub formatted : Formatted image' ufs base
    pub used :
        (h k : ℕ)
        → h < ufs.sb.ncg
        → k < ufs.sb.ipg
        → is_used image' (base h) k
          ≡ (if (g == h) && (l == k) then on else is_used image (base h) k)
    pub nifree :
        peek32 image' (base g + ufs_cg_cs_nifree_offset)
        ≡ adjusted (peek32 image (base g + ufs_cg_cs_nifree_offset)) d
    pub ndir : peek32 image' (base g + ufs_cg_cs_ndir_offset) ≡ (
        if dir
        then adjusted (peek32 image (base g + ufs_cg_cs_ndir_offset)) e'
        else peek32 image (base g + ufs_cg_cs_ndir_offset))
    pub total_nifree :
        peek32 image' (ufs.super_offset + ufs_fs_cstotal_nifree_offset)
        ≡ adjusted (peek32 image (ufs.super_offset + ufs_fs_cstotal_nifree_offset)) d
    pub total_ndir : peek32 image' (ufs.super_offset + ufs_fs_cstotal_ndir_offset) ≡ (
        if dir
        then adjusted (peek32 image (ufs.super_offset + ufs_fs_cstotal_ndir_offset)) e'
        else peek32 image (ufs.super_offset + ufs_fs_cstotal_ndir_offset))
    pub elsewhere :
        (a : ℕ)
        → (a < base g) ⊎ (base g + ufs.sb.bsize ≤ a)
        → (a < ufs.super_offset + ufs_fs_cstotal_ndir_offset)
          ⊎ (ufs.super_offset + ufs_fs_cstotal_ndir_offset + 4 ≤ a)
        → (a < ufs.super_offset + ufs_fs_cstotal_nifree_offset)
          ⊎ (ufs.super_offset + ufs_fs_cstotal_nifree_offset + 4 ≤ a)
        → image'.byte a ≡ image.byte a
    pub rest :
        (a : ℕ)
        → a < ufs.sb.bsize
        → a ≢ ufs_cg_iused_offset + l / 8
        → (a < ufs_cg_irotor_offset) ⊎ (ufs_cg_irotor_offset + 4 ≤ a)
        → (a < ufs_cg_cs_nifree_offset) ⊎ (ufs_cg_cs_nifree_offset + 4 ≤ a)
        → (a < ufs_cg_cs_ndir_offset) ⊎ (ufs_cg_cs_ndir_offset + 4 ≤ a)
        → image'.byte (base g + a) ≡ image.byte (base g + a)
