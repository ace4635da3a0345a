-- ===== src/Ufs/Write/InodeLaws.antt =====
-- What the writers of the fields of an inode leave, as `read_inode` reads it.
use ufs_fuse.Base.{
  ℕ, zero, suc, ◌+◌, ◌-◌, ◌*◌, ◌^◌, ◌≤◌, ◌<◌, ◌≡◌, ◌⊎◌, refl, ap, ap₂, ◌∙◌, List, [], ◌∷◌, some, ok,
  true, arith, replicate, take,
}
use native.Mathlib.Nat.{mod-eq_of_lt}
use ufs_fuse.Core.Image.{Buf, fill_zero-ok, overlay, overlay_in, overlay_out}
use ufs_fuse.Core.Codec.{peek32, peek64, poke, put_u16, put_u32, put_u16-ok, put_u32-ok, size-poke}
use ufs_fuse.Core.Codec.Pokes.{
  Field, pokes, is_apart, size-pokes, byte-pokes_apart, byte-pokes_out, peek16-pokes, peek32-pokes,
}
use ufs_fuse.Core.Consts.{ufs_eft_magic}
use ufs_fuse.Ufs.Superblock.{Ufs, inode_byte_offset}
use ufs_fuse.Ufs.Inode.{Inode, read_inode}
use ufs_fuse.Ufs.Inode.Fields.{inode_at, peeks, read_inode-ok}
use ufs_fuse.Ufs.Write.Fields.{
  as_u16, inode_offset, clear_inode, write_inode_time, put_inode, initialize_inode,
}

abbrev field : ℕ → ℕ → ℕ → Field
field n o v = record { width = n; at = o; value = v }

abbrev cleared : ℕ → Buf → Buf
cleared off image = record image { byte = overlay off 128 (λ _. 0) image.byte }

module _ (mode uid gid nlink timestamp : ℕ) where
  abbrev written : List Field
  written =
      field 2 0 (as_u16 mode)
      ∷ field 2 2 nlink
      ∷ field 2 4 (as_u16 uid)
      ∷ field 2 6 (as_u16 gid)
      ∷ field 4 16 timestamp
      ∷ field 4 20 0
      ∷ field 4 24 timestamp
      ∷ field 4 28 0
      ∷ field 4 32 timestamp
      ∷ field 4 36 0
      ∷ field 4 112 mode
      ∷ field 4 116 uid
      ∷ field 4 120 gid
      ∷ field 4 124 ufs_eft_magic
      ∷ []

write_inode_time-ok :
    (image : Buf) (off o t : ℕ)
    → off + o + 8 ≤ image.size
    → write_inode_time image off o t ≡ ok (pokes off (field 4 o t ∷ field 4 (o + 4) 0 ∷ []) image)
unfolding write_inode_time
write_inode_time-ok image off o t h =
    let e : off + (o + 4) ≡ off + o + 4 = omega arith in
    rw (put_u32-ok image (off + o) t (omega arith), e)
      (put_u32-ok (poke 4 image (off + o) t) (off + o + 4) 0
        (omega (arith, size-poke 4 image (off + o) t)))

put16-ok :
    (off : ℕ) (fs : List Field) (b : Buf) (o v : ℕ)
    → off + 128 ≤ b.size
    → o + 2 ≤ 128
    → put_u16 (pokes off fs b) (off + o) v ≡ ok (poke 2 (pokes off fs b) (off + o) v)
put16-ok off fs b o v h k = put_u16-ok _ _ _ (omega (arith, size-pokes off fs b))

put32-ok :
    (off : ℕ) (fs : List Field) (b : Buf) (o v : ℕ)
    → off + 128 ≤ b.size
    → o + 4 ≤ 128
    → put_u32 (pokes off fs b) (off + o) v ≡ ok (poke 4 (pokes off fs b) (off + o) v)
put32-ok off fs b o v h k = put_u32-ok _ _ _ (omega (arith, size-pokes off fs b))

put_time-ok :
    (off : ℕ) (fs : List Field) (b : Buf) (o t : ℕ)
    → off + 128 ≤ b.size
    → o + 8 ≤ 128
    → write_inode_time (pokes off fs b) off o t
      ≡ ok (pokes off (field 4 o t ∷ field 4 (o + 4) 0 ∷ []) (pokes off fs b))
put_time-ok off fs b o t h k =
    write_inode_time-ok (pokes off fs b) off o t (omega (arith, size-pokes off fs b))

put_inode-ok :
    (b : Buf) (off mode uid gid nlink timestamp : ℕ)
    → off + 128 ≤ b.size
    → put_inode b off mode uid gid nlink timestamp
      ≡ ok (pokes off (written mode uid gid nlink timestamp) b)
unfolding put_inode
put_inode-ok b off mode uid gid nlink t h =
    let w = written mode uid gid nlink t in
    let first : put_u16 b off (as_u16 mode) ≡ ok (poke 2 b (off + 0) (as_u16 mode)) =
      put_u16-ok b off _ (omega arith) ∙ ap (λ o. ok (poke 2 b o (as_u16 mode))) (omega arith) in
    rw (
      first,
      put16-ok off (take 1 w) b 2 nlink h (omega arith),
      put16-ok off (take 2 w) b 4 (as_u16 uid) h (omega arith),
      put16-ok off (take 3 w) b 6 (as_u16 gid) h (omega arith),
      put_time-ok off (take 4 w) b 16 t h (omega arith),
      put_time-ok off (take 6 w) b 24 t h (omega arith),
      put_time-ok off (take 8 w) b 32 t h (omega arith),
      put32-ok off (take 10 w) b 112 mode h (omega arith),
      put32-ok off (take 11 w) b 116 uid h (omega arith),
      put32-ok off (take 12 w) b 120 gid h (omega arith),
      put32-ok off (take 13 w) b 124 ufs_eft_magic h (omega arith),
    )

-- Where all bytes are 0, so are the values read.
peek32-zero : (b : Buf) (o : ℕ) → ((i : ℕ) → i < 4 → b.byte (o + i) ≡ 0) → peek32 b o ≡ 0
unfolding peek32
peek32-zero b o h =
    let e : o + 0 ≡ o = omega arith in
    omega (
      arith,
      ap b.byte e,
      h 0 (omega arith),
      h 1 (omega arith),
      h 2 (omega arith),
      h 3 (omega arith),
    )

peek64-zero : (b : Buf) (o : ℕ) → ((i : ℕ) → i < 8 → b.byte (o + i) ≡ 0) → peek64 b o ≡ 0
unfolding peek64
peek64-zero b o h = omega (
  arith,
  h 0 (omega arith),
  h 1 (omega arith),
  h 2 (omega arith),
  h 3 (omega arith),
  h 4 (omega arith),
  h 5 (omega arith),
  h 6 (omega arith),
  h 7 (omega arith),
)

peeks-zero :
    (b : Buf) (o n : ℕ) → ((i : ℕ) → i < n * 4 → b.byte (o + i) ≡ 0) → peeks b o n ≡ replicate n 0
peeks-zero b o zero h = refl
peeks-zero b o (suc n) h =
    ap₂ (λ x xs. x ∷ xs) (peek32-zero b o (λ i k. h i (omega arith)))
      (peeks-zero b (o + 4) n (λ i k. ap b.byte (omega arith) ∙ h (4 + i) (omega arith)))

module _ (mode uid gid nlink timestamp : ℕ) where
  -- An inode without contents.
  abbrev pub fresh_inode : Inode
  fresh_inode = record {
    mode = mode;
    nlink = nlink;
    uid = uid;
    gid = gid;
    atime = timestamp;
    mtime = timestamp;
    ctime = timestamp;
    size = 0;
    direct_blocks = replicate 12 0;
    indirect_blocks = replicate 3 0;
    blocks = 0;
  }

  abbrev initialized : ℕ → Buf → Buf
  initialized off image = pokes off (written mode uid gid nlink timestamp) (cleared off image)

  zero_byte :
      (off n o : ℕ) (image : Buf)
      → is_apart n o (written mode uid gid nlink timestamp) ≡ true
      → o + n ≤ 128
      → (i : ℕ) → i < n
      → (initialized off image).byte (off + o + i) ≡ 0
  zero_byte off n o image h k i p =
      byte-pokes_apart off n o (written mode uid gid nlink timestamp) (cleared off image) i h p
      ∙ ap (cleared off image).byte (omega arith)
      ∙ overlay_in off 128 (λ _. 0) image.byte (o + i) (omega arith)

  initialized-fresh :
      (off : ℕ) (image : Buf)
      → mode < 2 ^ 32
      → uid < 2 ^ 32
      → gid < 2 ^ 32
      → nlink < 2 ^ 16
      → timestamp < 2 ^ 32
      → inode_at (initialized off image) off ≡ fresh_inode
  initialized-fresh off image hm hu hg hn ht =
      let w = written mode uid gid nlink timestamp in
      let b = cleared off image in
      rw (
        peek32-pokes off 112 mode w b refl,
        peek16-pokes off 2 nlink w b refl,
        peek32-pokes off 116 uid w b refl,
        peek32-pokes off 120 gid w b refl,
        peek32-pokes off 16 timestamp w b refl,
        peek32-pokes off 24 timestamp w b refl,
        peek32-pokes off 32 timestamp w b refl,
        peek64-zero (initialized off image) (off + 8) (zero_byte off 8 8 image refl (omega arith)),
        peeks-zero (initialized off image) (off + 40) 12
            (zero_byte off 48 40 image refl (omega arith)),
        peeks-zero (initialized off image) (off + 88) 3
            (zero_byte off 12 88 image refl (omega arith)),
        peek32-zero (initialized off image) (off + 104)
            (zero_byte off 4 104 image refl (omega arith)),
        mod-eq_of_lt hm,
        mod-eq_of_lt hu,
        mod-eq_of_lt hg,
        mod-eq_of_lt hn,
        mod-eq_of_lt ht,
      )

-- Where the 128 bytes of an inode lie in the image, initializing it does not panic. Reading it back
-- gives the mode, the owner, the link count and the three times that were written, and an inode without
-- contents: size 0, no blocks, every pointer 0. The size of the image and every byte outside the inode
-- are kept. The values must fit their fields.
pub read_inode-initialize_inode :
    (image : Buf) (ufs : Ufs) (i off mode uid gid nlink timestamp : ℕ)
    → inode_byte_offset ufs.sb ufs.start_offset i ≡ ok off
    → off + 128 ≤ image.size
    → mode < 2 ^ 32
    → uid < 2 ^ 32
    → gid < 2 ^ 32
    → nlink < 2 ^ 16
    → timestamp < 2 ^ 32
    → (image' : Buf) × (initialize_inode image ufs i mode uid gid nlink timestamp ≡ ok image')
      × (read_inode image' ufs i ≡ ok (some (fresh_inode mode uid gid nlink timestamp)))
      × (image'.size ≡ image.size)
      × ((a : ℕ) → (a < off) ⊎ (off + 128 ≤ a) → image'.byte a ≡ image.byte a)
unfolding initialize_inode clear_inode inode_offset
read_inode-initialize_inode image ufs i off mode uid gid nlink t e h hm hu hg hn ht =
    let w = written mode uid gid nlink t in
    let b = cleared off image in
    let size = size-pokes off w b in
    let n : off + 128 - off ≡ 128 = omega arith in
    (
      initialized mode uid gid nlink t off image,
      rw (
        e,
        fill_zero-ok image off (off + 128) (omega arith) h,
        n,
        put_inode-ok b off mode uid gid nlink t h,
      ),
      read_inode-ok (initialized mode uid gid nlink t off image) ufs i off e (omega (arith, size))
          ∙ ap (λ x. ok (some x)) (initialized-fresh mode uid gid nlink t off image hm hu hg hn ht),
      size,
      λ a k. byte-pokes_out off 128 w b a refl k ∙ overlay_out off 128 (λ _. 0) image.byte a k,
    )
