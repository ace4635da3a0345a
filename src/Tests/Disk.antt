-- ===== src/Tests/Disk.antt =====
-- A small disk: two cylinder groups of 32 inodes and 100 fragments of 1024 bytes.
use ufs_fuse.Base.{ℕ, zero, suc, ◌+◌, ◌*◌, ◌<◌, ◌≡◌, refl, if◌then◌else◌, ◌==◌, arith, pos, ok}
use ufs_fuse.Core.Image.{Buf}
use ufs_fuse.Core.Codec.{peek32}
use ufs_fuse.Core.Consts.{ufs_cg_magic, ufs_cg_magic_offset}
use ufs_fuse.Ufs.Superblock.{Superblock, Ufs, fsbtobytes, cgtod, cgstart, cgbase, and_not, shl, i64}
use ufs_fuse.Ufs.Alloc.Group.{cg_block_offset}
use ufs_fuse.Ufs.Alloc.Mounted.{Formatted}

abbrev pub mini_sb : Superblock
mini_sb = record {
  bsize = 4096;
  fsize = 1024;
  frag = 4;
  dsize = 200;
  ipg = 32;
  fpg = 100;
  inopb = 32;
  fsbtodb = 1;
  cgoffset = 0;
  cgmask = 0;
  cblkno = 16;
  iblkno = 20;
  dblkno = 24;
  ncg = 2;
  minfree = 0;
  fragshift = pos 2;
  nindir = 1024;
  nspf = 2;
  csaddr = 24;
  cssize = 1024;
  nsect = 32;
  spc = 32;
  ncyl = 2;
  cpg = 1;
}

abbrev pub mini : Ufs
mini = record { start_offset = 0; super_offset = 8192; sb = mini_sb }

-- Where the block of each group lies.
abbrev pub mini_base : ℕ → ℕ
mini_base g = 16384 + g * 102400

-- Both groups have the magic number. In the first the inodes 0 and 1 are in use, in the second none.
unfoldable pub mini_byte : ℕ → ℕ
mini_byte a =
    if a == 17364
    then 85
    else if a == 17365
    then 2
    else if a == 17366
    then 9
    else if a == 119764
    then 85
    else if a == 119765
    then 2
    else if a == 119766
    then 9
    else if a == 16416
    then 30
    else if a == 118816
    then 32
    else if a == 8392
    then 62
    else if a == 8384
    then 1
    else if a == 17108
    then 3
    else 0

abbrev pub disk : Buf
disk = record { size = 204800; byte = mini_byte }

mini_bytes : (a : ℕ) → mini_byte a < 256
unfolding mini_byte
mini_bytes a = ground arith

pub mini_located : (g : ℕ) → g < 2 → cg_block_offset mini g ≡ ok (mini_base g)
unfolding cg_block_offset fsbtobytes cgtod cgstart cgbase and_not shl i64
mini_located zero h = refl
mini_located (suc zero) h = refl
mini_located (suc (suc g)) h = absurd (omega arith)

mini_magic : (g : ℕ) → g < 2 → peek32 disk (mini_base g + ufs_cg_magic_offset) ≡ ufs_cg_magic
unfolding mini_byte peek32
mini_magic zero h = refl
mini_magic (suc zero) h = refl
mini_magic (suc (suc g)) h = absurd (omega arith)

pub mini-Formatted : Formatted disk mini mini_base
mini-Formatted = record {
  bytes = mini_bytes;
  located = mini_located;
  inside = λ g h. omega arith;
  apart = λ g h p q n. omega arith;
  clear = λ g h. omega arith;
  super_inside = omega arith;
  magic = mini_magic;
  ipg_le = omega arith;
  ipg_pos = omega arith;
  ncg_pos = omega arith;
  bsize_ge = omega arith;
}
