-- ===== src/Ufs/Alloc/Preferred.antt =====
-- `allocate_inode` takes the preferred inode where it is free.
use ufs_fuse.Base.{
  ℕ, suc, ◌+◌, ◌-◌, ◌*◌, ◌/◌, ◌%◌, ◌<◌, ◌≡◌, ◌≢◌, ap, ◌∙◌, Bool, true, false, some, ok, done, arith,
  pos, negsuc, ==_ne,
}
use native.Mathlib.Nat.{mod-lt, mod-eq_of_lt, div-add-mod'}
use ufs_fuse.Core.Image.{Buf}
use ufs_fuse.Core.Codec.{peek32}
use ufs_fuse.Core.Consts.{ufs_cg_cs_nifree_offset}
use ufs_fuse.Ufs.Superblock.{Ufs, itog}
use ufs_fuse.Ufs.Alloc.Inodes.{
  try_group, allocate_inode_loop, allocate_inode, start_group, local_index,
}
use ufs_fuse.Ufs.Alloc.Mounted.{Formatted, is_used, edit_image, Changed}
use ufs_fuse.Ufs.Alloc.Edited.{edit_image-Changed}
use ufs_fuse.Ufs.Alloc.Steps.{
  magic-ok, nifree-ok, read_allocatable_cg_block-ok, choose_inode-preferred, take_inode-ok,
}

module _ (image : Buf) (ufs : Ufs) (base : ℕ → ℕ) (f : Formatted image ufs base) (dir : Bool)
    (g p : ℕ) (hg : g < ufs.sb.ncg) (hp : p < ufs.sb.ipg) (free : is_used image (base g) p ≡ false)
    (left : peek32 image (base g + ufs_cg_cs_nifree_offset) ≢ 0) where
  abbrev after : Buf
  after = edit_image true dir (negsuc 0) (pos 1) ufs (base g) p image

  try_group-preferred : try_group image ufs g (some p) dir ≡ ok (some (g * ufs.sb.ipg + p), after)
  unfolding try_group
  try_group-preferred = rw (
    read_allocatable_cg_block-ok image ufs base f g hg,
    magic-ok image ufs base f g hg,
    nifree-ok image ufs base f g hg,
    ==_ne _ _ left,
    choose_inode-preferred image ufs base f g hg p hp free,
    take_inode-ok image ufs base f g hg p hp dir,
  )

  loop-preferred :
      (start n : ℕ)
      → (start + 0) % ufs.sb.ncg ≡ g
      → allocate_inode_loop image ufs start (suc n) 0 (some p) dir
        ≡ ok (done (g * ufs.sb.ipg + p), after)
  unfolding allocate_inode_loop
  loop-preferred start n e = rw (e, try_group-preferred)

-- On a formatted file system, where the preferred inode is free and its group counts a free inode,
-- allocation takes this inode and no other: it does not panic, returns its number, and changes only
-- the bit of this inode in the map, the rotor of its group, and the counts of free inodes and, for
-- a directory, of directories, in the group and the superblock.
pub allocate_inode-preferred :
    (image : Buf) (ufs : Ufs) (base : ℕ → ℕ) (i : ℕ) (dir : Bool)
    → Formatted image ufs base
    → i / ufs.sb.ipg < ufs.sb.ncg
    → is_used image (base (i / ufs.sb.ipg)) (i % ufs.sb.ipg) ≡ false
    → peek32 image (base (i / ufs.sb.ipg) + ufs_cg_cs_nifree_offset) ≢ 0
    → (image' : Buf) × (allocate_inode image ufs (some i) dir ≡ ok (done i, image'))
      × Changed true dir (negsuc 0) (pos 1) ufs base (i / ufs.sb.ipg) (i % ufs.sb.ipg) image image'
unfolding allocate_inode start_group local_index itog
allocate_inode-preferred image ufs base i dir f hg free left =
    let g = i / ufs.sb.ipg in
    let p = i % ufs.sb.ipg in
    let hp = mod-lt i f.ipg_pos in
    let image' = edit_image true dir (negsuc 0) (pos 1) ufs (base g) p image in
    let rounds : ufs.sb.ncg ≡ suc (ufs.sb.ncg - 1) = omega (arith, f.ncg_pos) in
    let first : (g + 0) % ufs.sb.ncg ≡ g = mod-eq_of_lt (omega arith) ∙ omega arith in
    (
      image',
      ap (λ n. allocate_inode_loop image ufs g n 0 (some p) dir) rounds
          ∙ loop-preferred image ufs base f dir g p hg hp free left g (ufs.sb.ncg - 1) first
          ∙ ap (λ n. ok (done n, image')) (div-add-mod' i ufs.sb.ipg),
      edit_image-Changed true dir (negsuc 0) (pos 1) ufs base image f g p hg hp,
    )
