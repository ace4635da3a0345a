-- ===== src/Tests/Geometry.antt =====
-- The superblock and its arithmetic on the small disk.
use ufs_fuse.Base.{
  ℕ, ◌+◌, ◌*◌, ◌≤◌, ◌<◌, ◌≡◌, refl, ok, arith, pos, none, some, length, sum, if◌then◌else◌, ◌==◌,
}
use ufs_fuse.Core.Image.{Buf, zeroed, get, slice}
use ufs_fuse.Core.Codec.{u32, i32}
use ufs_fuse.Core.Consts.{ufs_dinode_size}
use ufs_fuse.Ufs.Superblock.{
  Superblock, Ufs, parse, parse_fields, parse_geometry, parse_rest, is_plausible,
  detect_ufs_at_start, fsbtobytes, itoo, itog, itod, blkstofrags, cgimin, cgstart, cgbase, and_not,
  i64, shl, inode_byte_offset, fragroundup, allocation_byte_sizes,
}
use ufs_fuse.Ufs.Superblock.Parse.{
  IsSane, superblock_at, is_superblock, parse_lem, detect_ufs_at_start-IsSane,
}
use ufs_fuse.Ufs.Superblock.Layout.{
  Consistent, unit, inode_area, inode_byte_offset_lem, inode_byte_offset_disjoint,
}
use ufs_fuse.Ufs.Superblock.Sizes.{
  closed_form, fragroundup_bounds, allocation_byte_sizes_lem, allocation_byte_sizes_bounds,
}
use ufs_fuse.Tests.Disk.{mini_sb}

mini-Consistent : Consistent mini_sb 2 1 1
unfolding and_not
mini-Consistent = record {
  fsbtodb_lt = omega arith;
  fragshift_eq = refl;
  fragshift_lt = omega arith;
  block_eq = refl;
  ipg_eq = refl;
  inopb_pos = omega arith;
  ipg_pos = omega arith;
  skew_le = λ g h. omega arith;
  fits = omega arith;
}

inode_40 : inode_byte_offset mini_sb 0 40 ≡ ok 123904
unfolding inode_byte_offset fsbtobytes itoo itog itod blkstofrags cgimin cgstart cgbase and_not shl
    i64
inode_40 = refl

inode_byte_offset_lem_example :
    inode_byte_offset mini_sb 0 40
    ≡ ok (0 + inode_area mini_sb 1 * unit mini_sb + 8 * ufs_dinode_size)
inode_byte_offset_lem_example =
    inode_byte_offset_lem mini_sb 2 1 1 mini-Consistent 0 40 (omega arith) (omega arith)

inode_byte_offset_disjoint_example :
    (a b : ℕ) × (inode_byte_offset mini_sb 0 3 ≡ ok a)
    × (inode_byte_offset mini_sb 0 40 ≡ ok b)
    × (a + 128 ≤ b)
inode_byte_offset_disjoint_example =
    inode_byte_offset_disjoint mini_sb 2 1 1 mini-Consistent 0 3 40 (omega arith) (omega arith)
      (omega arith)

-- 13 blocks and one byte need an indirect block, so the tail is a whole block.
allocation_byte_sizes_lem_example :
    allocation_byte_sizes mini_sb 53249 ≡ closed_form mini_sb 14 53249
allocation_byte_sizes_lem_example = allocation_byte_sizes_lem mini_sb 53249 (omega arith)

allocation_byte_sizes_bounds_example :
    (length (allocation_byte_sizes mini_sb 5000) ≡ 2)
    × (5000 ≤ sum (allocation_byte_sizes mini_sb 5000))
    × (sum (allocation_byte_sizes mini_sb 5000) < 5000 + 1024)
allocation_byte_sizes_bounds_example =
    allocation_byte_sizes_bounds mini_sb 5000 (omega arith) (omega arith)

fragroundup_bounds_example :
    (1500 ≤ fragroundup mini_sb 1500) × (fragroundup mini_sb 1500 < 1500 + 1024)
fragroundup_bounds_example = fragroundup_bounds mini_sb 1500 (omega arith)

-- An image with no file system.
parse_lem_example :
    parse (zeroed 20000) 8192
    ≡ ok (
        if is_superblock (zeroed 20000) 8192
        then some (superblock_at (zeroed 20000) 8192)
        else none)
parse_lem_example = parse_lem (zeroed 20000) 8192

-- The bytes of a superblock at 8192, with the fields that the checks look at.
unfoldable super_byte : ℕ → ℕ
super_byte a =
    if a == 8241
    then 16
    else if a == 8245
    then 4
    else if a == 8312
    then 32
    else if a == 8376
    then 32
    else if a == 8380
    then 100
    else if a == 9564
    then 84
    else if a == 9565
    then 25
    else if a == 9566
    then 1
    else 0

abbrev super_disk : Buf
super_disk = record { size = 20480; byte = super_byte }

abbrev bare : Superblock
bare = record mini_sb {
  frag = 0;
  dsize = 0;
  fsbtodb = 0;
  cblkno = 0;
  iblkno = 0;
  dblkno = 0;
  ncg = 0;
  minfree = 0;
  fragshift = pos 0;
  nindir = 0;
  nspf = 0;
  csaddr = 0;
  cssize = 0;
  nsect = 0;
  spc = 0;
  ncyl = 0;
  cpg = 0;
}

abbrev found : Ufs
found = record { start_offset = 0; super_offset = 8192; sb = bare }

detected : detect_ufs_at_start super_disk 0 ≡ ok (some found)
unfolding detect_ufs_at_start parse parse_fields parse_geometry parse_rest is_plausible u32 i32 get
    slice super_byte
detected = refl

detect_ufs_at_start-IsSane_example :
    IsSane bare × (found.start_offset ≡ 0) × (found.super_offset ≡ 0 + 8192) × (8192 + 8192 ≤ 20480)
detect_ufs_at_start-IsSane_example = detect_ufs_at_start-IsSane super_disk 0 found detected
