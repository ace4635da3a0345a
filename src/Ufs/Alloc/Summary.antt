-- ===== src/Ufs/Alloc/Summary.antt =====
-- `expected_cg_header`, from the counts of the maps, and `recompute_summary_counts`.
use ufs_fuse.Base.{
  ℕ, zero, suc, ◌+◌, ◌-◌, ◌*◌, ◌%◌, ◌^◌, none, some, List, [], ◌∷◌, replicate, Result, ok, ◌>>=◌,
  Reply, done, failed, invalid_cg, ltb, ◌==◌, if◌then◌else◌,
}
use ufs_fuse.Core.Image.{Buf, zeroed, slice, write_at}
use ufs_fuse.Core.Codec.{u32, put_u16, put_u32}
use ufs_fuse.Core.Consts.{
  maxcpg, maxfrag, nrpos, ufs_cg_b_offset, ufs_cg_btot_offset, ufs_cg_cgx_offset,
  ufs_cg_cs_nbfree_offset, ufs_cg_cs_ndir_offset, ufs_cg_cs_nffree_offset, ufs_cg_cs_nifree_offset,
  ufs_cg_frotor_offset, ufs_cg_frsum_offset, ufs_cg_irotor_offset, ufs_cg_iused_offset,
  ufs_cg_magic, ufs_cg_magic_offset, ufs_cg_ncyl_offset, ufs_cg_ndblk_offset, ufs_cg_niblk_offset,
  ufs_cg_rotor_offset, ufs_cg_time_offset, ufs_fs_cstotal_nbfree_offset, ufs_fs_cstotal_ndir_offset,
  ufs_fs_cstotal_nffree_offset, ufs_fs_cstotal_nifree_offset,
}
use ufs_fuse.Ufs.Superblock.{Ufs}
use ufs_fuse.Ufs.Alloc.Group.{
  read_cg_block, write_cg_block, cg_ncyl, looks_like_pristine_cg, initialize_pristine_cg,
}
use ufs_fuse.Ufs.Alloc.Counting.{
  csum_offset, count_inodes, BlockCounts, count_blocks, count_trailing,
}

unfoldable pub put_u32s : Buf → ℕ → List ℕ → Result Buf
put_u32s b offset [] = ok b
put_u32s b offset (v ∷ vs) = do b' ← put_u32 b offset v; put_u32s b' (offset + 4) vs

unfoldable pub put_u16s : Buf → ℕ → List ℕ → Result Buf
put_u16s b offset [] = ok b
put_u16s b offset (v ∷ vs) = do b' ← put_u16 b offset v; put_u16s b' (offset + 2) vs

-- The `(ndir, nbfree, nifree, nffree)` of a group, the third as the `u32` that is stored.
pub record Counts : Type 0 where
  pub ndir : ℕ
  pub nbfree : ℕ
  pub nifree : ℕ
  pub nffree : ℕ

unfoldable pub put_counts : Buf → (ndir_at nbfree_at nifree_at nffree_at : ℕ) → Counts → Result Buf
put_counts b ndir_at nbfree_at nifree_at nffree_at c = do
  b ← put_u32 b ndir_at c.ndir
  b ← put_u32 b nbfree_at c.nbfree
  b ← put_u32 b nifree_at c.nifree
  put_u32 b nffree_at c.nffree

unfoldable pub below_or_zero : ℕ → ℕ → ℕ
below_or_zero rotor limit = if ltb rotor limit then rotor else 0

unfoldable pub expected_cg_header : Buf → Ufs → ℕ → Buf → Result (Buf × Counts)
expected_cg_header image ufs cg cg_bytes = do
  let ipg = ufs.sb.ipg
  cg_ndblk ← u32 cg_bytes ufs_cg_ndblk_offset
  current_time ← u32 cg_bytes ufs_cg_time_offset
  b ← put_u32 (zeroed ufs.sb.bsize) ufs_cg_time_offset current_time
  b ← put_u32 b ufs_cg_cgx_offset cg
  b ← put_u16 b ufs_cg_ncyl_offset (cg_ncyl ufs cg)
  b ← put_u16 b ufs_cg_niblk_offset ipg
  b ← put_u32 b ufs_cg_ndblk_offset cg_ndblk
  (used, ndir) ← count_inodes image ufs cg cg_bytes ipg 0 (0, 0)
  let reserved = if cg == 0 then 2 else 0
  let start : BlockCounts = record {
    nbfree = 0;
    nffree = 0;
    frsum = replicate maxfrag 0;
    btot = replicate maxcpg 0;
    bpos = replicate (maxcpg * nrpos) 0;
  }
  whole ← count_blocks ufs cg_bytes cg_ndblk (cg_ndblk + 2) 0 start
  t ← count_trailing cg_bytes cg_ndblk whole
  let counts : Counts = record {
    ndir = ndir;
    nbfree = t.nbfree;
    nifree = (ipg + 2 ^ 33 - (reserved + used)) % 2 ^ 32;
    nffree = t.nffree;
  }
  b ←
      put_counts b ufs_cg_cs_ndir_offset ufs_cg_cs_nbfree_offset ufs_cg_cs_nifree_offset
        ufs_cg_cs_nffree_offset counts
  rotor ← u32 cg_bytes ufs_cg_rotor_offset
  frotor ← u32 cg_bytes ufs_cg_frotor_offset
  irotor ← u32 cg_bytes ufs_cg_irotor_offset
  b ← put_u32 b ufs_cg_rotor_offset (below_or_zero rotor cg_ndblk)
  b ← put_u32 b ufs_cg_frotor_offset (below_or_zero frotor cg_ndblk)
  b ← put_u32 b ufs_cg_irotor_offset (below_or_zero irotor ipg)
  b ← put_u32s b ufs_cg_frsum_offset t.frsum
  b ← put_u32s b ufs_cg_btot_offset t.btot
  b ← put_u16s b ufs_cg_b_offset t.bpos
  ok (b, counts)

unfoldable pub add_counts : Counts → Counts → Counts
add_counts a c = record {
  ndir = a.ndir + c.ndir;
  nbfree = a.nbfree + c.nbfree;
  nifree = a.nifree + c.nifree;
  nffree = a.nffree + c.nffree;
}

-- The summary area gets the four counts one behind the other.
unfoldable pub put_csum : Buf → Ufs → ℕ → Counts → Result Buf
put_csum image ufs cg counts = do
  offset? ← csum_offset ufs cg
  elim offset? [
    | none ↦ ok image
    | some offset ↦ put_counts image offset (offset + 4) (offset + 8) (offset + 12) counts
  ]

-- What is done for one group once its bytes are known.
unfoldable pub normalize_cg : Buf → Ufs → ℕ → Buf → Result (Buf × Counts)
normalize_cg image ufs cg cg_bytes = do
  (expected, counts) ← expected_cg_header image ufs cg cg_bytes
  head ← slice expected 0 ufs_cg_iused_offset
  b ← write_at cg_bytes 0 head
  b ←
      put_counts b ufs_cg_cs_ndir_offset ufs_cg_cs_nbfree_offset ufs_cg_cs_nifree_offset
        ufs_cg_cs_nffree_offset counts
  image ← write_cg_block image ufs cg b
  image ← put_csum image ufs cg counts
  ok (image, counts)

-- `for cg in 0..ncg`, with `n` rounds left.
unfoldable pub recompute_loop : Buf → Ufs → ℕ → ℕ → Counts → Result (Reply Counts × Buf)
recompute_loop image ufs zero cg total = ok (done total, image)
recompute_loop image ufs (suc n) cg total = do
  cg_bytes ← read_cg_block image ufs cg
  magic ← u32 cg_bytes ufs_cg_magic_offset
  let proceed = λ (b img : Buf). (do
    (img', counts) ← normalize_cg img ufs cg b
    recompute_loop img' ufs n (cg + 1) (add_counts total counts))
  let pristine = do (b, image') ← initialize_pristine_cg image ufs cg; proceed b image'
  if magic == ufs_cg_magic
      then proceed cg_bytes image
      else if looks_like_pristine_cg cg_bytes
      then pristine
      else ok (failed invalid_cg, image)

unfoldable pub recompute_summary_counts : Buf → Ufs → Result (Reply (Unit {0}) × Buf)
recompute_summary_counts image ufs = do
  let so = ufs.super_offset
  let nothing : Counts = record { ndir = 0; nbfree = 0; nifree = 0; nffree = 0 }
  (reply, image) ← recompute_loop image ufs ufs.sb.ncg 0 nothing
  elim reply [
    | failed e ↦ ok (failed e, image)
    | done total ↦ do
      image' ←
          put_counts image (so + ufs_fs_cstotal_ndir_offset) (so + ufs_fs_cstotal_nbfree_offset)
            (so + ufs_fs_cstotal_nifree_offset) (so + ufs_fs_cstotal_nffree_offset) total
      ok (done tt, image')
  ]
