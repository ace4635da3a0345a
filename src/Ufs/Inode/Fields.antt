-- ===== src/Ufs/Inode/Fields.antt =====
-- The inode that `read_inode` returns, field by field.
use ufs_fuse.Base.{
  ℕ, zero, suc, ◌+◌, ◌-◌, ◌*◌, ◌≤◌, ◌≡◌, refl, ap, ap₂, ◌∙◌, List, [], ◌∷◌, some, ok, >>=-eq-ok,
  arith, le→ltb,
}
use ufs_fuse.Core.Image.{Buf, slice-ok}
use ufs_fuse.Core.Codec.{peek16, peek32, peek64, u16-ok, u32-ok, u64-ok}
use ufs_fuse.Core.Consts.{
  ufs_di_atime_offset, ufs_di_blocks_offset, ufs_di_ctime_offset, ufs_di_db_offset,
  ufs_di_gid_offset, ufs_di_ib_offset, ufs_di_mode_offset, ufs_di_mtime_offset, ufs_di_nlink_offset,
  ufs_di_size_offset, ufs_di_uid_offset,
}
use ufs_fuse.Ufs.Superblock.{Ufs, itod, fsbtobytes, inode_byte_offset, i64-eq-ok}
use ufs_fuse.Ufs.Inode.{Inode, read_u32s, decode_inode, read_inode}

-- `n` values of 32 bits from `o` on.
abbrev pub peeks : Buf → ℕ → ℕ → List ℕ
peeks b o zero = []
peeks b o (suc n) = peek32 b o ∷ peeks b (o + 4) n

-- The inode whose bytes begin at `off`.
abbrev pub inode_at : Buf → ℕ → Inode
inode_at b off = record {
  mode = peek32 b (off + ufs_di_mode_offset);
  nlink = peek16 b (off + ufs_di_nlink_offset);
  uid = peek32 b (off + ufs_di_uid_offset);
  gid = peek32 b (off + ufs_di_gid_offset);
  atime = peek32 b (off + ufs_di_atime_offset);
  mtime = peek32 b (off + ufs_di_mtime_offset);
  ctime = peek32 b (off + ufs_di_ctime_offset);
  size = peek64 b (off + ufs_di_size_offset);
  direct_blocks = peeks b (off + ufs_di_db_offset) 12;
  indirect_blocks = peeks b (off + ufs_di_ib_offset) 3;
  blocks = peek32 b (off + ufs_di_blocks_offset);
}

pub read_u32s-ok : (b : Buf) (o n : ℕ) → o + n * 4 ≤ b.size → read_u32s b o n ≡ ok (peeks b o n)
unfolding read_u32s
read_u32s-ok b o zero h = refl
read_u32s-ok b o (suc n) h = rw (u32-ok b o (omega arith), read_u32s-ok b (o + 4) n (omega arith))

decode_inode-ok : (b : Buf) → 128 ≤ b.size → decode_inode b ≡ ok (inode_at b 0)
unfolding decode_inode
decode_inode-ok b h = rw (
  read_u32s-ok b 40 12 (omega arith),
  read_u32s-ok b 88 3 (omega arith),
  u32-ok b 112 (omega arith),
  u16-ok b 2 (omega arith),
  u32-ok b 116 (omega arith),
  u32-ok b 120 (omega arith),
  u32-ok b 16 (omega arith),
  u32-ok b 24 (omega arith),
  u32-ok b 32 (omega arith),
  u64-ok b 8 (omega arith),
  u32-ok b 104 (omega arith),
)

-- An inode read from the slice is the one in the image.
module _ (image : Buf) (off n : ℕ) where
  abbrev part : Buf
  part = record { size = n; byte = λ a. image.byte (off + a) }

  at_same : (o i : ℕ) → image.byte (off + (o + i)) ≡ image.byte (off + o + i)
  at_same o i = ap image.byte (omega arith)

  peek16-part : (o : ℕ) → peek16 part o ≡ peek16 image (off + o)
  unfolding peek16
  peek16-part o = rw (at_same o 1) refl

  peek32-part : (o : ℕ) → peek32 part o ≡ peek32 image (off + o)
  unfolding peek32
  peek32-part o = rw (at_same o 1, at_same o 2, at_same o 3) refl

  peek64-part : (o : ℕ) → peek64 part o ≡ peek64 image (off + o)
  unfolding peek64
  peek64-part o =
      rw
        (
          at_same o 0,
          at_same o 1,
          at_same o 2,
          at_same o 3,
          at_same o 4,
          at_same o 5,
          at_same o 6,
          at_same o 7,
        )
        refl

  peeks-part : (k o : ℕ) → peeks part o k ≡ peeks image (off + o) k
  peeks-part zero o = refl
  peeks-part (suc k) o =
      let e : off + (o + 4) ≡ off + o + 4 = omega arith in
      ap₂ (λ x xs. x ∷ xs) (peek32-part o) (peeks-part k (o + 4) ∙ ap (λ p. peeks image p k) e)

  inode_at-part : inode_at part 0 ≡ inode_at image off
  inode_at-part =
      rw
        (
          peek32-part 112,
          peek16-part 2,
          peek32-part 116,
          peek32-part 120,
          peek32-part 16,
          peek32-part 24,
          peek32-part 32,
          peek64-part 8,
          peeks-part 12 40,
          peeks-part 3 88,
          peek32-part 104,
        )
        refl

inode_byte_offset_ge :
    (ufs : Ufs) (i off : ℕ)
    → inode_byte_offset ufs.sb ufs.start_offset i ≡ ok off
    → ufs.start_offset ≤ off
unfolding inode_byte_offset
inode_byte_offset_ge ufs i off h =
    let (block, _, rest) = >>=-eq-ok (itod ufs.sb i) _ h in
    let (bytes, _, e) = >>=-eq-ok (fsbtobytes ufs.sb block) _ rest in omega (arith, i64-eq-ok _ _ e)

-- An inode whose bytes lie in the image is read field by field.
pub read_inode-ok :
    (image : Buf) (ufs : Ufs) (i off : ℕ)
    → inode_byte_offset ufs.sb ufs.start_offset i ≡ ok off
    → off + 128 ≤ image.size
    → read_inode image ufs i ≡ ok (some (inode_at image off))
unfolding read_inode
read_inode-ok image ufs i off e h =
    let start = inode_byte_offset_ge ufs i off e in
    let n : off + 128 - off ≡ 128 = omega arith in
    rw
      (
        e,
        le→ltb off ufs.start_offset start,
        le→ltb image.size (off + 128) h,
        slice-ok image off (off + 128) (omega arith) h,
        n,
        decode_inode-ok (part image off 128) (omega arith),
      )
      (ap (λ x. ok (some x)) (inode_at-part image off 128))
