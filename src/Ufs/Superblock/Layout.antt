-- ===== src/Ufs/Superblock/Layout.antt =====
-- Where the inodes lie: in each cylinder group, from `cgimin` on, one behind the other.
use ufs_fuse.Base.{
  ℕ, ◌+◌, ◌*◌, ◌/◌, ◌%◌, ◌^◌, ◌≤◌, ◌<◌, ◌≡◌, sym, ap, subst, ok, pos, arith, lt→ltb, dec_lt, ==_ne,
  ==_ne,
}
use native.Mathlib.Nat.{
  div-add-mod', mod-lt, div-lt_iff_lt-mul, pow-le-pow_right, mul-le-mul_left, mul-le-mul_right,
  mod-mod_of_dvd, dvd-mul_left,
}
use Prim.Native.Nat.{◌∣◌}
use ufs_fuse.Core.Consts.{sector_size, ufs_dinode_size}
use ufs_fuse.Ufs.Superblock.{
  Superblock, and_not, cgstart, cgbase, i64-ok, shl, blkstofrags, fsbtobytes, itoo, itog, cgimin,
  itod, inode_byte_offset,
}

-- Bytes of an addressable fragment.
abbrev pub unit : Superblock → ℕ
unit sb = 2 ^ sb.fsbtodb * sector_size

-- A geometry whose fields agree with one another: a block is `2 ^ k` fragments and holds `inopb`
-- inodes of 128 bytes, a group holds `q` blocks of inodes, and the inode area of a group, moved by at
-- most `r` times `cgoffset` as `cgstart` moves it, leaves room for its blocks in the `fpg` fragments from
-- one group to the next.
pub record Consistent (sb : Superblock) (k q r : ℕ) : Type 0 where
  pub fsbtodb_lt : sb.fsbtodb < 64
  pub fragshift_eq : sb.fragshift ≡ pos k
  pub fragshift_lt : k < 64
  pub block_eq : 2 ^ k * unit sb ≡ sb.inopb * ufs_dinode_size
  pub ipg_eq : sb.ipg ≡ q * sb.inopb
  pub inopb_pos : 0 < sb.inopb
  pub ipg_pos : 0 < sb.ipg
  pub skew_le : (g : ℕ) → g < sb.ncg → and_not g sb.cgmask ≤ r
  pub fits : sb.cgoffset * r + q * 2 ^ k ≤ sb.fpg

-- The fragment where the inode area of a group begins.
abbrev pub inode_area : Superblock → ℕ → ℕ
inode_area sb g = sb.fpg * g + sb.cgoffset * and_not g sb.cgmask + sb.iblkno

-- The end of the last group, from which the inode areas keep `iblkno` fragments at most.
abbrev pub last_byte : Superblock → ℕ → ℕ
last_byte sb fs_start = fs_start + (sb.fpg * sb.ncg + sb.iblkno) * unit sb

module _ (sb : Superblock) (k q r : ℕ) (c : Consistent sb k q r) where
  -- The inode area of a group ends before the next group, moved by `iblkno`.
  area_le : (g h : ℕ) → g < h → g < sb.ncg → inode_area sb g + q * 2 ^ k ≤ sb.fpg * h + sb.iblkno
  area_le g h l n =
      let skew = mul-le-mul_left sb.cgoffset (c.skew_le g n) in
      let next = mul-le-mul_left sb.fpg l in omega (arith, skew, next, c.fits)

  area_bytes : q * 2 ^ k * unit sb ≡ sb.ipg * ufs_dinode_size
  area_bytes =
      omega (arith, ap (λ (t : ℕ). q * t) c.block_eq, ap (λ (t : ℕ). t * ufs_dinode_size) c.ipg_eq)

div_mono : (i j n : ℕ) → 0 < n → i ≤ j → i / n ≤ j / n
div_mono i j n h k = elim (dec_lt (j / n) (i / n)) [
  | yes p ↦
      let far = mul-le-mul_right {m = j / n + 1} {n = i / n} n (omega arith) in
      absurd (omega (arith, far, div-add-mod' i n, div-add-mod' j n, mod-lt j h))
  | no p ↦ omega arith
]

module _ (sb : Superblock) (k q r : ℕ) (c : Consistent sb k q r) (s i : ℕ)
    (group : i / sb.ipg < sb.ncg) (small : last_byte sb s ≤ 2 ^ 63) where
  abbrev block : ℕ
  block = inode_area sb (i / sb.ipg) + i % sb.ipg / sb.inopb * 2 ^ k

  abbrev at : ℕ
  at = s + inode_area sb (i / sb.ipg) * unit sb + i % sb.ipg * ufs_dinode_size

  -- The block of the inode ends in its group.
  block_le : block + 2 ^ k ≤ sb.fpg * sb.ncg + sb.iblkno
  block_le =
      let inside : i % sb.ipg / sb.inopb < q =
        (div-lt_iff_lt-mul c.inopb_pos).1
          (subst (λ t. i % sb.ipg < t) c.ipg_eq (mod-lt i c.ipg_pos)) in
      let rows = mul-le-mul_right {m = i % sb.ipg / sb.inopb + 1} {n = q} (2 ^ k) (omega arith) in
      omega (arith, area_le sb k q r c (i / sb.ipg) sb.ncg group group, rows)

  unit_pos : 1 ≤ unit sb
  unit_pos =
      omega (arith, pow-le-pow_right {n = 2} (omega arith) {i = 0} {j = sb.fsbtodb} (omega arith))

  -- So its bytes end before the last of the file system.
  block_bytes : s + block * unit sb + sb.inopb * ufs_dinode_size ≤ 2 ^ 63
  block_bytes =
      let bytes = mul-le-mul_right (unit sb) block_le in omega (arith, bytes, c.block_eq, small)

  block_small : block < 2 ^ 63
  block_small = omega (arith, mul-le-mul_left block unit_pos, block_bytes, c.inopb_pos)

  cgimin_ok : cgimin sb (i / sb.ipg) ≡ ok (inode_area sb (i / sb.ipg))
  unfolding cgimin cgstart cgbase
  cgimin_ok = rw (
    i64-ok (sb.fpg * (i / sb.ipg)) (omega (arith, block_small)),
    i64-ok (sb.fpg * (i / sb.ipg) + sb.cgoffset * and_not (i / sb.ipg) sb.cgmask)
        (omega (arith, block_small)),
    i64-ok (inode_area sb (i / sb.ipg)) (omega (arith, block_small)),
  )

  itod_ok : itod sb i ≡ ok block
  unfolding itod itog blkstofrags shl
  itod_ok = rw (
    ==_ne sb.ipg 0 (λ e. omega (arith, c.ipg_pos)),
    ==_ne sb.inopb 0 (λ e. omega (arith, c.inopb_pos)),
    cgimin_ok,
    c.fragshift_eq,
    lt→ltb k 64 c.fragshift_lt,
    i64-ok (i % sb.ipg / sb.inopb * 2 ^ k) (omega (arith, block_small)),
    i64-ok block block_small,
  )

  fsbtobytes_ok : fsbtobytes sb block ≡ ok (block * 2 ^ sb.fsbtodb * sector_size)
  unfolding fsbtobytes shl
  fsbtobytes_ok = rw (
    lt→ltb sb.fsbtodb 64 c.fsbtodb_lt,
    i64-ok (block * 2 ^ sb.fsbtodb) (omega (arith, block_bytes, c.inopb_pos)),
    i64-ok (block * 2 ^ sb.fsbtodb * sector_size) (omega (arith, block_bytes, c.inopb_pos)),
  )

  local_mod : i % sb.inopb ≡ i % sb.ipg % sb.inopb
  local_mod = sym (
      mod-mod_of_dvd sb.inopb i
        (subst (λ t. sb.inopb ∣ t) (sym c.ipg_eq) (dvd-mul_left sb.inopb q)))

  -- The offset, by blocks of inodes and by inodes of the group.
  spread : s + block * 2 ^ sb.fsbtodb * sector_size + i % sb.inopb * ufs_dinode_size ≡ at
  spread =
      let l = i % sb.ipg in
      omega (
        arith,
        local_mod,
        ap (λ (t : ℕ). l / sb.inopb * t) c.block_eq,
        ap (λ (t : ℕ). t * ufs_dinode_size) (div-add-mod' l sb.inopb),
      )

  at_small : at + ufs_dinode_size ≤ 2 ^ 63
  at_small = omega (arith, sym spread, block_bytes, mod-lt i c.inopb_pos)

  -- In a consistent geometry inode `i` of the file system lies in the group `i / ipg`, as the
  -- `i % ipg`-th of its inode area, and the computation of its offset neither overflows nor panics. The
  -- end of the last group, moved by `iblkno` fragments, must lie at most 2 ^ 63 bytes into the image.
  pub inode_byte_offset_lem :
      inode_byte_offset sb s i
      ≡ ok (s + inode_area sb (i / sb.ipg) * unit sb + i % sb.ipg * ufs_dinode_size)
  unfolding inode_byte_offset itoo
  inode_byte_offset_lem = rw (itod_ok, fsbtobytes_ok, spread) (i64-ok at (omega (arith, at_small)))

module _ (sb : Superblock) (k q r : ℕ) (c : Consistent sb k q r) where
  abbrev place : ℕ → ℕ
  place i = inode_area sb (i / sb.ipg) * unit sb + i % sb.ipg * ufs_dinode_size

  place_apart_groups :
      (i j : ℕ) → i / sb.ipg < j / sb.ipg → j / sb.ipg < sb.ncg → place i + 128 ≤ place j
  place_apart_groups i j h n =
      let apart = area_le sb k q r c (i / sb.ipg) (j / sb.ipg) h (omega arith) in
      let bytes =
        mul-le-mul_right {m = inode_area sb (i / sb.ipg) + q * 2 ^ k}
          {n = inode_area sb (j / sb.ipg)} (unit sb) (omega (arith, apart)) in
      omega (arith, bytes, area_bytes sb k q r c, mod-lt i c.ipg_pos)

  place_apart : (i j : ℕ) → i < j → j / sb.ipg < sb.ncg → place i + 128 ≤ place j
  place_apart i j h n = elim (dec_lt (i / sb.ipg) (j / sb.ipg)) [
    | yes p ↦ place_apart_groups i j p n
    | no p ↦
        let e : i / sb.ipg ≡ j / sb.ipg =
          omega (arith, div_mono i j sb.ipg c.ipg_pos (omega arith)) in
        let m = ap (λ (t : ℕ). inode_area sb t * unit sb) e in
        let t = ap (λ (t : ℕ). t * sb.ipg) e in
        omega (arith, m, t, div-add-mod' i sb.ipg, div-add-mod' j sb.ipg)
  ]

-- In a consistent geometry two different inodes of the file system have 128 bytes each on the disk,
-- in the order of their numbers, and these do not overlap: not in a group, and not across groups, since
-- the inode area of a group ends before that of the next. The end of the last group, moved by `iblkno`
-- fragments, must lie at most 2 ^ 63 bytes into the image.
pub inode_byte_offset_disjoint :
    (sb : Superblock) (k q r : ℕ)
    → Consistent sb k q r
    → (fs_start i j : ℕ) → last_byte sb fs_start ≤ 2 ^ 63
    → i < j
    → j / sb.ipg < sb.ncg
    → (a b : ℕ) × (inode_byte_offset sb fs_start i ≡ ok a)
      × (inode_byte_offset sb fs_start j ≡ ok b)
      × (a + 128 ≤ b)
inode_byte_offset_disjoint sb k q r c s i j small h g =
    let before : i / sb.ipg < sb.ncg = omega (arith, div_mono i j sb.ipg c.ipg_pos (omega arith)) in
    (
      s + inode_area sb (i / sb.ipg) * unit sb + i % sb.ipg * ufs_dinode_size,
      s + inode_area sb (j / sb.ipg) * unit sb + j % sb.ipg * ufs_dinode_size,
      inode_byte_offset_lem sb k q r c s i before small,
      inode_byte_offset_lem sb k q r c s j g small,
      omega (arith, place_apart sb k q r c i j h g),
    )
