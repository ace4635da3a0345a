-- ===== src/Ufs/Alloc/Group.antt =====
-- The blocks of the cylinder groups, and the counts kept in them and in the superblock.
use ufs_fuse.Base.{
  ℕ, zero, suc, ◌+◌, ◌-◌, ◌*◌, ◌/◌, ◌%◌, ◌^◌, Bool, true, not, ◌&&◌, Result, ok, check, ◌>>=◌, ◌>>◌,
  ltb, ◌==◌, if◌then◌else◌, ℤ, from_i32, min,
}
use ufs_fuse.Core.Image.{Buf, zeroed, slice, write_at}
use ufs_fuse.Core.Codec.{u32, put_u16, put_u32}
use ufs_fuse.Core.Consts.{
  ufs_cg_cgx_offset, ufs_cg_cs_nbfree_offset, ufs_cg_cs_ndir_offset, ufs_cg_cs_nffree_offset,
  ufs_cg_cs_nifree_offset, ufs_cg_irotor_offset, ufs_cg_magic, ufs_cg_magic_offset,
  ufs_cg_ncyl_offset, ufs_cg_ndblk_offset, ufs_cg_niblk_offset, ufs_fs_cstotal_nbfree_offset,
  ufs_fs_cstotal_ndir_offset, ufs_fs_cstotal_nifree_offset,
}
use ufs_fuse.Ufs.Superblock.{Ufs, fsbtobytes, cgtod, cgdmin, i64}
use ufs_fuse.Ufs.Bitmap.{set_frag_state, set_inode_state}

unfoldable pub cg_block_offset : Ufs → ℕ → Result ℕ
cg_block_offset ufs cg = do
  fs_block ← cgtod ufs.sb cg
  bytes ← fsbtobytes ufs.sb fs_block
  i64 (ufs.start_offset + bytes)

unfoldable pub read_cg_block : Buf → Ufs → ℕ → Result Buf
read_cg_block image ufs cg = do
  offset ← cg_block_offset ufs cg
  slice image offset (offset + ufs.sb.bsize)

unfoldable pub write_cg_block : Buf → Ufs → ℕ → Buf → Result Buf
write_cg_block image ufs cg cg_bytes = do
  offset ← cg_block_offset ufs cg
  write_at image offset cg_bytes

-- The remaining count is an `i64`; at 0 and below there are no fragments.
unfoldable pub cg_data_frag_count : Ufs → ℕ → ℕ
cg_data_frag_count ufs cg =
    let frags_per_group = ufs.sb.fpg in
    let total = if ufs.sb.dsize == 0 then frags_per_group * ufs.sb.ncg else ufs.sb.dsize in
    let remaining = total - cg * frags_per_group in
    if remaining == 0 then 0 else min frags_per_group remaining

unfoldable pub all_zero : Buf → ℕ → Bool
all_zero cg zero = true
all_zero cg (suc n) = (cg.byte n == 0) && all_zero cg n

unfoldable pub looks_like_pristine_cg : Buf → Bool
unfolding all_zero
looks_like_pristine_cg cg = all_zero cg cg.size

-- `for o in 0..n { set_frag_state(cg, frag_index + o, free) }`
unfoldable pub set_frag_run : Buf → ℕ → ℕ → Bool → Result Buf
set_frag_run cg frag_index zero free = ok cg
set_frag_run cg frag_index (suc n) free = do
  cg' ← set_frag_state cg frag_index free
  set_frag_run cg' (frag_index + 1) n free

unfoldable pub cg_ncyl : Ufs → ℕ → ℕ
cg_ncyl ufs cg =
    let last = ufs.sb.ncyl % ufs.sb.cpg in
    if ltb 0 ufs.sb.cpg then (if (cg + 1) == ufs.sb.ncg then last else ufs.sb.cpg) else 0

-- A group that was never written. `frag == 0` would be a division by zero. The count of free inodes
-- is stored as `u32`.
unfoldable pub initialize_pristine_cg : Buf → Ufs → ℕ → Result (Buf × Buf)
initialize_pristine_cg image ufs cg = do
  let sb = ufs.sb
  let cg_ndblk = cg_data_frag_count ufs cg
  first ← cgdmin sb cg
  let data_start_frag = first % sb.fpg
  let free_fragments = cg_ndblk - data_start_frag
  check (not (sb.frag == 0))
  let free_blocks = free_fragments / sb.frag
  let free_fragment_remainder = free_fragments % sb.frag
  b ← put_u32 (zeroed sb.bsize) ufs_cg_cgx_offset cg
  b ← put_u16 b ufs_cg_ncyl_offset (cg_ncyl ufs cg)
  b ← put_u16 b ufs_cg_niblk_offset sb.ipg
  b ← put_u32 b ufs_cg_ndblk_offset cg_ndblk
  b ← put_u32 b ufs_cg_cs_ndir_offset 0
  b ← put_u32 b ufs_cg_cs_nbfree_offset free_blocks
  let reserved = if cg == 0 then 2 else 0
  b ← put_u32 b ufs_cg_cs_nifree_offset ((sb.ipg + 2 ^ 32 - reserved) % 2 ^ 32)
  b ← put_u32 b ufs_cg_cs_nffree_offset free_fragment_remainder
  b ← put_u32 b ufs_cg_irotor_offset 0
  b ← put_u32 b ufs_cg_magic_offset ufs_cg_magic
  let reserve = (do c ← set_inode_state b 0 true; set_inode_state c 1 true)
  b ← if cg == 0 then reserve else ok b
  b ← set_frag_run b data_start_frag (cg_ndblk - data_start_frag) true
  image' ← write_cg_block image ufs cg b
  ok (b, image')

unfoldable pub read_allocatable_cg_block : Buf → Ufs → ℕ → Result (Buf × Buf)
read_allocatable_cg_block image ufs cg = do
  cg_bytes ← read_cg_block image ufs cg
  magic ← u32 cg_bytes ufs_cg_magic_offset
  if magic == ufs_cg_magic
      then ok (cg_bytes, image)
      else if looks_like_pristine_cg cg_bytes
      then initialize_pristine_cg image ufs cg
      else ok (cg_bytes, image)

-- `(current + delta) as u32`
unfoldable pub adjust_u32_at : Buf → ℕ → ℤ → Result Buf
adjust_u32_at buf offset delta = do
  current ← u32 buf offset
  put_u32 buf offset ((current + from_i32 delta) % 2 ^ 32)

unfoldable pub adjust_superblock_free_blocks : Buf → Ufs → ℤ → Result Buf
adjust_superblock_free_blocks image ufs delta =
    adjust_u32_at image (ufs.super_offset + ufs_fs_cstotal_nbfree_offset) delta

unfoldable pub adjust_superblock_free_inodes : Buf → Ufs → ℤ → Result Buf
adjust_superblock_free_inodes image ufs delta =
    adjust_u32_at image (ufs.super_offset + ufs_fs_cstotal_nifree_offset) delta

unfoldable pub adjust_superblock_directory_count : Buf → Ufs → ℤ → Result Buf
adjust_superblock_directory_count image ufs delta =
    adjust_u32_at image (ufs.super_offset + ufs_fs_cstotal_ndir_offset) delta

unfoldable pub adjust_cg_free_blocks : Buf → ℤ → Result Buf
adjust_cg_free_blocks cg delta = adjust_u32_at cg ufs_cg_cs_nbfree_offset delta

unfoldable pub adjust_cg_free_inodes : Buf → ℤ → Result Buf
adjust_cg_free_inodes cg delta = adjust_u32_at cg ufs_cg_cs_nifree_offset delta

unfoldable pub adjust_cg_directory_count : Buf → ℤ → Result Buf
adjust_cg_directory_count cg delta = adjust_u32_at cg ufs_cg_cs_ndir_offset delta
