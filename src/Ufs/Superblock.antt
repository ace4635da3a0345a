-- ===== src/Ufs/Superblock.antt =====
-- crates/svr4-ufs/src/superblock.rs: the parsed superblock, its detection, and the on-disk address
-- arithmetic. The source computes in `i64`; every operand is a `u32` field or an inode or block
-- number, so all values are natural numbers here, and what does not fit an `i64` is a panic, as in a
-- build that checks overflow. `fragshift` is the one signed field.
pub mod Parse
pub mod Sizes
pub mod Layout
use ufs_fuse.Base.{
  ℕ, zero, suc, ◌+◌, ◌-◌, ◌*◌, ◌/◌, ◌%◌, ◌^◌, ◌<◌, ◌≡◌, arith, Bool, ◌||◌, ◌&&◌, not, Option, none,
  some, List, [], ◌∷◌, Result, ok, panic, ◌>>=◌, ◌>>◌, check, ℤ, pos, negsuc, ltb, leb, ◌==◌,
  if◌then◌else◌, bit_and, min,
}
use ufs_fuse.Core.Image.{Buf}
use ufs_fuse.Core.Codec.{u32, i32}
use ufs_fuse.Core.Consts.{
  sector_size, ufs_magic, ufs_sb_size, ufs_sb_offset, ufs_dinode_size, ufs_ndaddr,
  ufs_fs_magic_offset, ufs_fs_bsize_offset, ufs_fs_fsize_offset, ufs_fs_frag_offset,
  ufs_fs_dsize_offset, ufs_fs_ipg_offset, ufs_fs_fpg_offset, ufs_fs_inopb_offset,
  ufs_fs_fsbtodb_offset, ufs_fs_cgoffset_offset, ufs_fs_cgmask_offset, ufs_fs_cblkno_offset,
  ufs_fs_iblkno_offset, ufs_fs_dblkno_offset, ufs_fs_ncg_offset, ufs_fs_minfree_offset,
  ufs_fs_fragshift_offset, ufs_fs_nindir_offset, ufs_fs_nspf_offset, ufs_fs_csaddr_offset,
  ufs_fs_cssize_offset, ufs_fs_nsect_offset, ufs_fs_spc_offset, ufs_fs_ncyl_offset,
  ufs_fs_cpg_offset,
}

pub record Superblock : Type 0 where
  pub bsize : ℕ
  pub fsize : ℕ
  pub frag : ℕ
  pub dsize : ℕ
  pub ipg : ℕ
  pub fpg : ℕ
  pub inopb : ℕ
  pub fsbtodb : ℕ
  pub cgoffset : ℕ
  pub cgmask : ℕ
  pub cblkno : ℕ
  pub iblkno : ℕ
  pub dblkno : ℕ
  pub ncg : ℕ
  pub minfree : ℕ
  pub fragshift : ℤ
  pub nindir : ℕ
  pub nspf : ℕ
  pub csaddr : ℕ
  pub cssize : ℕ
  pub nsect : ℕ
  pub spc : ℕ
  pub ncyl : ℕ
  pub cpg : ℕ

-- A detected file system: where it lies, and its superblock.
pub record Ufs : Type 0 where
  pub start_offset : ℕ
  pub super_offset : ℕ
  pub sb : Superblock

-- The sanity checks on the geometry, after the magic number.
unfoldable pub is_plausible : ℕ → ℕ → ℕ → ℕ → ℕ → Bool
is_plausible bsize fsize inopb ipg fpg =
    not (ltb bsize 4096 || ltb ufs_sb_size bsize)
    && not (ltb fsize sector_size || ltb bsize fsize)
    && not (inopb == 0 || (ipg == 0 || fpg == 0))

-- `Superblock::parse` in its three parts: the remaining fields, the geometry and its checks, and the
-- magic number.
unfoldable pub parse_rest : Buf → ℕ → (bsize fsize inopb ipg fpg : ℕ) → Result (Option Superblock)
unfolding u32 i32
parse_rest image super_offset bsize fsize inopb ipg fpg = do
  let field = λ (off : ℕ). u32 image (super_offset + off)
  frag ← field ufs_fs_frag_offset
  dsize ← field ufs_fs_dsize_offset
  fsbtodb ← field ufs_fs_fsbtodb_offset
  cgoffset ← field ufs_fs_cgoffset_offset
  cgmask ← field ufs_fs_cgmask_offset
  cblkno ← field ufs_fs_cblkno_offset
  iblkno ← field ufs_fs_iblkno_offset
  dblkno ← field ufs_fs_dblkno_offset
  ncg ← field ufs_fs_ncg_offset
  minfree ← field ufs_fs_minfree_offset
  fragshift ← i32 image (super_offset + ufs_fs_fragshift_offset)
  nindir ← field ufs_fs_nindir_offset
  nspf ← field ufs_fs_nspf_offset
  csaddr ← field ufs_fs_csaddr_offset
  cssize ← field ufs_fs_cssize_offset
  nsect ← field ufs_fs_nsect_offset
  spc ← field ufs_fs_spc_offset
  ncyl ← field ufs_fs_ncyl_offset
  cpg ← field ufs_fs_cpg_offset
  let sb : Superblock = record {
    bsize = bsize;
    fsize = fsize;
    frag = frag;
    dsize = dsize;
    ipg = ipg;
    fpg = fpg;
    inopb = inopb;
    fsbtodb = fsbtodb;
    cgoffset = cgoffset;
    cgmask = cgmask;
    cblkno = cblkno;
    iblkno = iblkno;
    dblkno = dblkno;
    ncg = ncg;
    minfree = minfree;
    fragshift = fragshift;
    nindir = nindir;
    nspf = nspf;
    csaddr = csaddr;
    cssize = cssize;
    nsect = nsect;
    spc = spc;
    ncyl = ncyl;
    cpg = cpg;
  }
  ok (some sb)

unfoldable pub parse_geometry : Buf → ℕ → Result (Option Superblock)
unfolding u32 is_plausible parse_rest
parse_geometry image super_offset = do
  let field = λ (off : ℕ). u32 image (super_offset + off)
  bsize ← field ufs_fs_bsize_offset
  fsize ← field ufs_fs_fsize_offset
  inopb ← field ufs_fs_inopb_offset
  ipg ← field ufs_fs_ipg_offset
  fpg ← field ufs_fs_fpg_offset
  if is_plausible bsize fsize inopb ipg fpg
      then parse_rest image super_offset bsize fsize inopb ipg fpg
      else ok none

unfoldable pub parse_fields : Buf → ℕ → Result (Option Superblock)
unfolding u32 parse_geometry
parse_fields image super_offset = do
  magic ← u32 image (super_offset + ufs_fs_magic_offset)
  if magic == ufs_magic then parse_geometry image super_offset else ok none

unfoldable pub parse : Buf → ℕ → Result (Option Superblock)
unfolding parse_fields
parse image super_offset =
    if ltb image.size (super_offset + ufs_sb_size) then ok none else parse_fields image super_offset

unfoldable pub detect_ufs_at_start : Buf → ℕ → Result (Option Ufs)
unfolding parse
detect_ufs_at_start image fs_start = do
  sb? ← parse image (fs_start + ufs_sb_offset)
  ok (elim sb? [
    | none ↦ none
    | some sb ↦
        some (record { start_offset = fs_start; super_offset = fs_start + ufs_sb_offset; sb = sb })
  ])

-- A number that is not negative, where it fits an `i64`. An addition or a multiplication that does not
-- fit is a panic. All terms are natural numbers here, so a sum fits only if its terms do.
unfoldable pub i64 : ℕ → Result ℕ
i64 n = if ltb n (2 ^ 63) then ok n else panic

pub i64-ok : (n : ℕ) → n < 2 ^ 63 → i64 n ≡ ok n
unfolding i64
i64-ok n h = ground arith

pub i64-eq-ok : (n m : ℕ) → i64 n ≡ ok m → n ≡ m
unfolding i64
i64-eq-ok n m h = ground arith

-- `x << k` of an `i64`: an amount that is negative or not below 64 is a panic. A shift that loses bits,
-- where the source goes on with another number, is a panic here too.
unfoldable pub shl : ℕ → ℤ → Result ℕ
unfolding i64
shl x (pos k) = if ltb k 64 then i64 (x * 2 ^ k) else panic
shl x (negsuc k) = panic

-- `a & !b` of numbers that are not negative.
unfoldable pub and_not : ℕ → ℕ → ℕ
and_not a b = a - bit_and a b

module _ (sb : Superblock) where
  unfoldable pub fsbtobytes : ℕ → Result ℕ
  unfolding shl i64
  fsbtobytes fs_block = do x ← shl fs_block (pos sb.fsbtodb); i64 (x * sector_size)

  -- The panic at a divisor of 0 stands in the functions that use these two on any superblock.
  unfoldable pub itoo : ℕ → ℕ
  itoo inode_number = inode_number % sb.inopb

  unfoldable pub itog : ℕ → ℕ
  itog inode_number = inode_number / sb.ipg

  unfoldable pub blkstofrags : ℕ → Result ℕ
  unfolding shl
  blkstofrags blocks = shl blocks sb.fragshift

  unfoldable pub cgbase : ℕ → Result ℕ
  unfolding i64
  cgbase cg = i64 (sb.fpg * cg)

  unfoldable pub cgstart : ℕ → Result ℕ
  unfolding cgbase and_not i64
  cgstart cg = do base ← cgbase cg; i64 (base + sb.cgoffset * and_not cg sb.cgmask)

  unfoldable pub cgimin : ℕ → Result ℕ
  unfolding cgstart i64
  cgimin cg = do start ← cgstart cg; i64 (start + sb.iblkno)

  unfoldable pub cgtod : ℕ → Result ℕ
  unfolding cgstart i64
  cgtod cg = do start ← cgstart cg; i64 (start + sb.cblkno)

  unfoldable pub cgdmin : ℕ → Result ℕ
  unfolding cgstart i64
  cgdmin cg = do start ← cgstart cg; i64 (start + sb.dblkno)

  unfoldable pub itod : ℕ → Result ℕ
  unfolding itog cgimin blkstofrags i64
  itod inode_number = do
    check (not (sb.ipg == 0 || sb.inopb == 0))
    first ← cgimin (itog inode_number)
    frags ← blkstofrags (inode_number % sb.ipg / sb.inopb)
    i64 (first + frags)

  -- `fs_start as i64` of a number that is not below `2 ^ 63` is a panic here.
  unfoldable pub inode_byte_offset : ℕ → ℕ → Result ℕ
  unfolding itod fsbtobytes itoo i64
  inode_byte_offset fs_start inode_number = do
    inode_block ← itod inode_number
    bytes ← fsbtobytes inode_block
    i64 (fs_start + bytes + itoo inode_number * ufs_dinode_size)

  unfoldable pub data_block_offset : ℕ → ℕ → Result ℕ
  unfolding fsbtobytes i64
  data_block_offset fs_start fs_block = do bytes ← fsbtobytes fs_block; i64 (fs_start + bytes)

  unfoldable pub fragroundup : ℕ → ℕ
  fragroundup size = if size == 0 then 0 else (size + sb.fsize - 1) / sb.fsize * sb.fsize

  -- The loop of `allocation_byte_sizes`, on fuel. The `i64` `remaining` may end below 0, where it
  -- stops as at 0.
  unfoldable pub sizes_loop : ℕ → ℕ → ℕ → List ℕ
  unfolding fragroundup
  sizes_loop zero needed_blocks remaining = []
  sizes_loop (suc fuel) needed_blocks remaining =
      let logical_bytes = min sb.bsize remaining in
      let allocation =
        if (logical_bytes == sb.bsize) || ltb ufs_ndaddr needed_blocks
        then sb.bsize
        else fragroundup logical_bytes in
      let rest = allocation ∷ sizes_loop fuel needed_blocks (remaining - sb.bsize) in
      if ltb 0 remaining then rest else []

  -- `Sizes` shows that `size` rounds are enough.
  unfoldable pub allocation_byte_sizes : ℕ → List ℕ
  unfolding sizes_loop
  allocation_byte_sizes size =
      if size == 0 then [] else sizes_loop size ((size + sb.bsize - 1) / sb.bsize) size
