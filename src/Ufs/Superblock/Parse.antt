-- ===== src/Ufs/Superblock/Parse.antt =====
-- What detection accepts: it never panics, and a superblock that it returns has a sane geometry.
use ufs_fuse.Base.{
  ℕ, ◌+◌, ◌≤◌, ◌<◌, ◌≡◌, Bool, true, ◌&&◌, none, some, ok, ◌==◌, if◌then◌else◌, arith, leb, to_i32,
  dec_lt,
}
use ufs_fuse.Core.Image.{Buf}
use ufs_fuse.Core.Codec.{u32, i32, peek32, u32-ok, i32-ok}
use ufs_fuse.Core.Consts.{ufs_magic, ufs_sb_size, ufs_sb_offset, ufs_fs_magic_offset}
use ufs_fuse.Core.Consts.{
  ufs_fs_bsize_offset, ufs_fs_fsize_offset, ufs_fs_frag_offset, ufs_fs_dsize_offset,
  ufs_fs_ipg_offset, ufs_fs_fpg_offset, ufs_fs_inopb_offset, ufs_fs_fsbtodb_offset,
  ufs_fs_cgoffset_offset, ufs_fs_cgmask_offset, ufs_fs_cblkno_offset, ufs_fs_iblkno_offset,
  ufs_fs_dblkno_offset, ufs_fs_ncg_offset, ufs_fs_minfree_offset, ufs_fs_fragshift_offset,
  ufs_fs_nindir_offset, ufs_fs_nspf_offset, ufs_fs_csaddr_offset, ufs_fs_cssize_offset,
  ufs_fs_nsect_offset, ufs_fs_spc_offset, ufs_fs_ncyl_offset, ufs_fs_cpg_offset,
}
use ufs_fuse.Ufs.Superblock.{
  Superblock, Ufs, is_plausible, parse_rest, parse_geometry, parse_fields, parse,
  detect_ufs_at_start,
}

-- What the checks of `parse` leave: the block and fragment sizes, and divisors that are not 0.
pub record IsSane (sb : Superblock) : Type 0 where
  pub bsize_ge : 4096 ≤ sb.bsize
  pub bsize_le : sb.bsize ≤ 8192
  pub fsize_ge : 512 ≤ sb.fsize
  pub fsize_le : sb.fsize ≤ sb.bsize
  pub inopb_pos : 0 < sb.inopb
  pub ipg_pos : 0 < sb.ipg
  pub fpg_pos : 0 < sb.fpg

-- The superblock that the bytes at `so` spell, by the offsets of `struct fs`.
pub superblock_at : Buf → ℕ → Superblock
superblock_at image so = record {
  bsize = peek32 image (so + ufs_fs_bsize_offset);
  fsize = peek32 image (so + ufs_fs_fsize_offset);
  frag = peek32 image (so + ufs_fs_frag_offset);
  dsize = peek32 image (so + ufs_fs_dsize_offset);
  ipg = peek32 image (so + ufs_fs_ipg_offset);
  fpg = peek32 image (so + ufs_fs_fpg_offset);
  inopb = peek32 image (so + ufs_fs_inopb_offset);
  fsbtodb = peek32 image (so + ufs_fs_fsbtodb_offset);
  cgoffset = peek32 image (so + ufs_fs_cgoffset_offset);
  cgmask = peek32 image (so + ufs_fs_cgmask_offset);
  cblkno = peek32 image (so + ufs_fs_cblkno_offset);
  iblkno = peek32 image (so + ufs_fs_iblkno_offset);
  dblkno = peek32 image (so + ufs_fs_dblkno_offset);
  ncg = peek32 image (so + ufs_fs_ncg_offset);
  minfree = peek32 image (so + ufs_fs_minfree_offset);
  fragshift = to_i32 (peek32 image (so + ufs_fs_fragshift_offset));
  nindir = peek32 image (so + ufs_fs_nindir_offset);
  nspf = peek32 image (so + ufs_fs_nspf_offset);
  csaddr = peek32 image (so + ufs_fs_csaddr_offset);
  cssize = peek32 image (so + ufs_fs_cssize_offset);
  nsect = peek32 image (so + ufs_fs_nsect_offset);
  spc = peek32 image (so + ufs_fs_spc_offset);
  ncyl = peek32 image (so + ufs_fs_ncyl_offset);
  cpg = peek32 image (so + ufs_fs_cpg_offset);
}

abbrev plausible : Superblock → Bool
plausible sb = is_plausible sb.bsize sb.fsize sb.inopb sb.ipg sb.fpg

-- The slice holds a superblock with the magic number and a plausible geometry.
pub is_superblock : Buf → ℕ → Bool
is_superblock image so =
    leb (so + ufs_sb_size) image.size
    && (peek32 image (so + ufs_fs_magic_offset) == ufs_magic)
    && plausible (superblock_at image so)

module _ (image : Buf) (so : ℕ) (fits : so + ufs_sb_size ≤ image.size) where
  field_ok : (off : ℕ) → off < 2000 → u32 image (so + off) ≡ ok (peek32 image (so + off))
  field_ok off h = u32-ok image (so + off) (omega arith)

  signed_ok :
      i32 image (so + ufs_fs_fragshift_offset)
      ≡ ok (to_i32 (peek32 image (so + ufs_fs_fragshift_offset)))
  signed_ok = i32-ok image (so + ufs_fs_fragshift_offset) (omega arith)

  parse_rest_ok :
      let sb = superblock_at image so in
      parse_rest image so sb.bsize sb.fsize sb.inopb sb.ipg sb.fpg ≡ ok (some sb)
  unfolding parse_rest superblock_at
  parse_rest_ok = rw (
    signed_ok,
    field_ok ufs_fs_frag_offset (omega arith),
    field_ok ufs_fs_dsize_offset (omega arith),
    field_ok ufs_fs_fsbtodb_offset (omega arith),
    field_ok ufs_fs_cgoffset_offset (omega arith),
    field_ok ufs_fs_cgmask_offset (omega arith),
    field_ok ufs_fs_cblkno_offset (omega arith),
    field_ok ufs_fs_iblkno_offset (omega arith),
    field_ok ufs_fs_dblkno_offset (omega arith),
    field_ok ufs_fs_ncg_offset (omega arith),
    field_ok ufs_fs_minfree_offset (omega arith),
    field_ok ufs_fs_nindir_offset (omega arith),
    field_ok ufs_fs_nspf_offset (omega arith),
    field_ok ufs_fs_csaddr_offset (omega arith),
    field_ok ufs_fs_cssize_offset (omega arith),
    field_ok ufs_fs_nsect_offset (omega arith),
    field_ok ufs_fs_spc_offset (omega arith),
    field_ok ufs_fs_ncyl_offset (omega arith),
    field_ok ufs_fs_cpg_offset (omega arith),
  )

  parse_geometry_ok : parse_geometry image so ≡ (
      if plausible (superblock_at image so)
      then parse_rest image so
          (superblock_at image so).bsize
          (superblock_at image so).fsize
          (superblock_at image so).inopb
          (superblock_at image so).ipg
          (superblock_at image so).fpg
      else ok none)
  unfolding parse_geometry superblock_at
  parse_geometry_ok = rw (
    field_ok ufs_fs_bsize_offset (omega arith),
    field_ok ufs_fs_fsize_offset (omega arith),
    field_ok ufs_fs_inopb_offset (omega arith),
    field_ok ufs_fs_ipg_offset (omega arith),
    field_ok ufs_fs_fpg_offset (omega arith),
  )

  parse_fields_ok : parse_fields image so ≡ (
      if peek32 image (so + ufs_fs_magic_offset) == ufs_magic
      then parse_geometry image so
      else ok none)
  unfolding parse_fields
  parse_fields_ok = rw (field_ok ufs_fs_magic_offset (omega arith))

-- Parsing never panics, whatever the image holds. It returns a superblock exactly if the slice has
-- room for one, the magic number is right and the geometry plausible, and then that superblock has
-- in every field the value at the field's offset.
pub parse_lem :
    (image : Buf) (so : ℕ)
    → parse image so ≡ ok (if is_superblock image so then some (superblock_at image so) else none)
unfolding parse is_superblock
parse_lem image so = elim (dec_lt image.size (so + ufs_sb_size)) [
  | yes short ↦ ground arith
  | no long ↦
      let fits : so + ufs_sb_size ≤ image.size = omega arith in
      ground (
        arith,
        parse_fields_ok image so fits,
        parse_geometry_ok image so fits,
        parse_rest_ok image so fits,
      )
]

plausible-IsSane : (sb : Superblock) → plausible sb ≡ true → IsSane sb
unfolding is_plausible
plausible-IsSane sb h = ground arith

-- A detected file system has a superblock of sane geometry, 8192 bytes behind the start that was
-- asked for and inside the image.
pub detect_ufs_at_start-IsSane :
    (image : Buf) (fs_start : ℕ) (ufs : Ufs)
    → detect_ufs_at_start image fs_start ≡ ok (some ufs)
    → IsSane ufs.sb
      × (ufs.start_offset ≡ fs_start)
      × (ufs.super_offset ≡ fs_start + 8192)
      × (ufs.super_offset + 8192 ≤ image.size)
unfolding detect_ufs_at_start is_superblock
detect_ufs_at_start-IsSane image fs_start ufs h = ground (
  arith,
  parse_lem image (fs_start + ufs_sb_offset),
  plausible-IsSane (superblock_at image (fs_start + ufs_sb_offset)),
)
