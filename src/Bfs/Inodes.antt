-- ===== src/Bfs/Inodes.antt =====
-- The records of the inode table, written by `put_dirent` and read by `read_inode`.
use ufs_fuse.Base.{
  ℕ, ◌+◌, ◌-◌, ◌*◌, ◌^◌, ◌≤◌, ◌<◌, ◌≡◌, ◌≢◌, ◌⊎◌, inl, inr, refl, sym, ap, ◌∙◌, none, some, ok, ℤ,
  from_i32, dec_le, arith, ltb, ◌==◌, if◌then◌else◌, lt→ltb, le→ltb, ==_refl, Bool-cases,
}
use native.Mathlib.Nat.{mod-eq_of_lt}
use ufs_fuse.Core.Image.{Buf}
use ufs_fuse.Core.Codec.{peek16, peek32, u16-ok, u32-ok}
use ufs_fuse.Core.Codec.Pokes.{pokes, peek16_ext, peek32_ext, peek32-pokes}
use ufs_fuse.Bfs.{Bfs, put_dirent}
use ufs_fuse.Bfs.Read.{Extent, read_extent, read_inode}
use ufs_fuse.Bfs.Records.{
  vattr, extent, record_put, put_dirent-ok, size-record_put, byte-record_out, number_read,
  word_read,
}

abbrev pub slot_offset : Bfs → ℕ → ℕ
slot_offset bfs n = bfs.start_offset + 512 + (n - 2) * 64

abbrev extent_at : Buf → ℕ → Extent
extent_at b at = record {
  start_block = peek32 b (at + 4);
  end_block = peek32 b (at + 8);
  end_offset = peek32 b (at + 12);
  file_type = peek32 b (at + 16 + 0);
}

-- What `read_inode` gives, by the slot of the number.
read_inode_value :
    (b : Buf) (bfs : Bfs) (n : ℕ)
    → 2 ≤ n
    → slot_offset bfs n + 64 ≤ b.size
    → read_inode b bfs n
      ≡ ok (
          if peek16 b (slot_offset bfs n + 0) == n
          then some (extent_at b (slot_offset bfs n))
          else none)
unfolding read_inode read_extent
read_inode_value b bfs n g h =
    let at = slot_offset bfs n in
    elim (Bool-cases (peek16 b (at + 0) == n)) [
      | inl e ↦
          rw
            (
              le→ltb n 2 g,
              le→ltb b.size (at + 64) h,
              u16-ok b (at + 0) (omega arith),
              e,
              u32-ok b (at + 4) (omega arith),
              u32-ok b (at + 8) (omega arith),
              u32-ok b (at + 12) (omega arith),
              u32-ok b (at + 16 + 0) (omega arith),
            )
            refl
      | inr e ↦
          rw (le→ltb n 2 g, le→ltb b.size (at + 64) h, u16-ok b (at + 0) (omega arith), e) refl
    ]

-- A number whose slot does not lie in the image, or no number of an inode.
read_inode-none :
    (b : Buf) (bfs : Bfs) (n : ℕ)
    → (n < 2) ⊎ (b.size < slot_offset bfs n + 64)
    → read_inode b bfs n ≡ ok none
unfolding read_inode
read_inode-none b bfs n (inl h) = rw (lt→ltb n 2 h) refl
read_inode-none b bfs n (inr h) = elim (Bool-cases (ltb n 2)) [
  | inl e ↦ rw e refl
  | inr e ↦ rw (e, lt→ltb b.size (slot_offset bfs n + 64) h) refl
]

-- The reads of an inode depend on the size of the image and the 64 bytes of its slot.
read_inode_ext :
    (b c : Buf) (bfs : Bfs) (m : ℕ)
    → c.size ≡ b.size
    → (2 ≤ m → (i : ℕ) → i < 64 → c.byte (slot_offset bfs m + i) ≡ b.byte (slot_offset bfs m + i))
    → read_inode c bfs m ≡ read_inode b bfs m
read_inode_ext b c bfs m s h =
    let at = slot_offset bfs m in
    elim (dec_le 2 m) [
      | no g ↦
          read_inode-none c bfs m (inl (omega arith))
          ∙ sym (read_inode-none b bfs m (inl (omega arith)))
      | yes g ↦ elim (dec_le (at + 64) b.size) [
        | no k ↦
            read_inode-none c bfs m (inr (omega arith))
            ∙ sym (read_inode-none b bfs m (inr (omega arith)))
        | yes k ↦
            let near : (o : ℕ) → o + 4 ≤ 64 → peek32 c (at + o) ≡ peek32 b (at + o) = λ o l.
              peek32_ext (at + o) b c (λ i q.
                ap c.byte (omega arith) ∙ h g (o + i) (omega arith) ∙ ap b.byte (omega arith)) in
            let number : peek16 c (at + 0) ≡ peek16 b (at + 0) =
              peek16_ext (at + 0) b c
                (λ i q. ap c.byte (omega arith) ∙ h g i (omega arith) ∙ ap b.byte (omega arith)) in
            let type : peek32 c (at + 16 + 0) ≡ peek32 b (at + 16 + 0) =
              peek32_ext (at + 16 + 0) b c (λ i q.
                ap c.byte (omega arith) ∙ h g (16 + i) (omega arith) ∙ ap b.byte (omega arith)) in
            read_inode_value c bfs m g (omega arith)
            ∙ (rw (number, near 4 (omega arith), near 8 (omega arith), near 12 (omega arith), type)
                  refl
                ∙ sym (read_inode_value b bfs m g k))
      ]
    ]

-- Where the slot of an inode number lies in the image, `put_dirent` writes it without a panic, for values
-- that fit their fields. Then `read_inode` gives the extent and the type that were written, and
-- for every other number what it gave before.
pub read_inode-put_dirent :
    (image : Buf) (bfs : Bfs) (n sblock eblock eoffset file_type mode nlink : ℕ) (t : ℤ)
    → 2 ≤ n
    → n < 2 ^ 16
    → sblock < 2 ^ 32
    → eblock < 2 ^ 32
    → eoffset < 2 ^ 32
    → file_type < 2 ^ 32
    → slot_offset bfs n + 64 ≤ image.size
    → (m : ℕ) → m ≢ n
    → (image' : Buf) × (put_dirent image
          (slot_offset bfs n)
          n
          sblock
          eblock
          eoffset
          file_type
          mode
          nlink
          t
        ≡ ok image')
      × (read_inode image' bfs n
          ≡ ok (
              some (record {
                start_block = sblock;
                end_block = eblock;
                end_offset = eoffset;
                file_type = file_type;
              })))
      × (read_inode image' bfs m ≡ read_inode image bfs m)
read_inode-put_dirent image bfs n sb eb eo ty mode nlink t g hn hs he ho ht h m d =
    let at = slot_offset bfs n in
    let image' = record_put image at n sb eb eo ty mode nlink t in
    let size = size-record_put image at n sb eb eo ty mode nlink t in
    let word = word_read image at n sb eb eo ty mode nlink t in
    let w = extent n sb eb eo in
    (
      image',
      put_dirent-ok image at n sb eb eo ty mode nlink t h,
      read_inode_value image' bfs n g (omega (arith, size))
          ∙ rw (
            number_read image at n sb eb eo ty mode nlink t,
            mod-eq_of_lt hn,
            ==_refl n,
            word 4 sb (omega arith) (peek32-pokes at 4 sb w image refl),
            word 8 eb (omega arith) (peek32-pokes at 8 eb w image refl),
            word 12 eo (omega arith) (peek32-pokes at 12 eo w image refl),
            peek32-pokes (at + 16) 0 ty (vattr ty mode nlink (from_i32 t)) (pokes at w image) refl,
            mod-eq_of_lt hs,
            mod-eq_of_lt he,
            mod-eq_of_lt ho,
            mod-eq_of_lt ht,
          ),
      read_inode_ext image image' bfs m size
          (λ l i k. byte-record_out image at n sb eb eo ty mode nlink t _ (omega arith)),
    )
