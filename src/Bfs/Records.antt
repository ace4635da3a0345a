-- ===== src/Bfs/Records.antt =====
-- What `put_dirent` writes: the fields of a record of the inode table.
use ufs_fuse.Base.{
  ℕ, ◌+◌, ◌%◌, ◌^◌, ◌≤◌, ◌<◌, ◌≡◌, ◌⊎◌, inl, refl, ◌∙◌, List, [], ◌∷◌, take, ok, ℤ, from_i32, arith,
}
use ufs_fuse.Core.Image.{Buf}
use ufs_fuse.Core.Codec.{put_u32, put_i32, peek16, peek32, poke, put_u16-ok, put_u32-ok, put_i32-ok}
use ufs_fuse.Core.Codec.Pokes.{
  Field, pokes, size-pokes, byte-pokes_out, peek16_ext, peek32_ext, peek16-pokes,
}
use ufs_fuse.Bfs.{put_vattr, put_dirent}

abbrev field : ℕ → ℕ → ℕ → Field
field n o v = record { width = n; at = o; value = v }

-- What `put_vattr` writes, and what `put_dirent` writes before it.
abbrev pub vattr : (file_type mode nlink timestamp : ℕ) → List Field
vattr file_type mode nlink timestamp =
    field 4 0 file_type
    ∷ field 4 4 mode
    ∷ field 4 8 0
    ∷ field 4 12 0
    ∷ field 4 16 nlink
    ∷ field 4 20 timestamp
    ∷ field 4 24 timestamp
    ∷ field 4 28 timestamp
    ∷ []

abbrev pub extent : (inode_number start_block end_block end_offset : ℕ) → List Field
extent inode_number start_block end_block end_offset =
    field 2 0 inode_number
    ∷ field 4 4 start_block
    ∷ field 4 8 end_block
    ∷ field 4 12 end_offset
    ∷ []

put32-ok :
    (off : ℕ) (fs : List Field) (b : Buf) (o v : ℕ)
    → off + 32 ≤ b.size
    → o + 4 ≤ 32
    → put_u32 (pokes off fs b) (off + o) v ≡ ok (poke 4 (pokes off fs b) (off + o) v)
put32-ok off fs b o v h k = put_u32-ok _ _ _ (omega (arith, size-pokes off fs b))

put_signed-ok :
    (off : ℕ) (fs : List Field) (b : Buf) (o : ℕ) (z : ℤ)
    → off + 32 ≤ b.size
    → o + 4 ≤ 32
    → put_i32 (pokes off fs b) (off + o) z ≡ ok (poke 4 (pokes off fs b) (off + o) (from_i32 z))
put_signed-ok off fs b o z h k = put_i32-ok _ _ _ (omega (arith, size-pokes off fs b))

put_vattr-ok :
    (b : Buf) (at file_type mode nlink : ℕ) (t : ℤ)
    → at + 32 ≤ b.size
    → put_vattr b at file_type mode nlink t
      ≡ ok (pokes at (vattr file_type mode nlink (from_i32 t)) b)
unfolding put_vattr
put_vattr-ok b at file_type mode nlink t h =
    let w = vattr file_type mode nlink (from_i32 t) in
    rw (
      put32-ok at [] b 0 file_type h (omega arith),
      put32-ok at (take 1 w) b 4 mode h (omega arith),
      put32-ok at (take 2 w) b 8 0 h (omega arith),
      put32-ok at (take 3 w) b 12 0 h (omega arith),
      put32-ok at (take 4 w) b 16 nlink h (omega arith),
      put_signed-ok at (take 5 w) b 20 t h (omega arith),
      put_signed-ok at (take 6 w) b 24 t h (omega arith),
      put_signed-ok at (take 7 w) b 28 t h (omega arith),
    )

module _ (b : Buf) (at n sblock eblock eoffset file_type mode nlink : ℕ) (t : ℤ) where
  abbrev head : List Field
  head = extent n sblock eblock eoffset

  abbrev tail : List Field
  tail = vattr file_type mode nlink (from_i32 t)

  abbrev head_put : Buf
  head_put = pokes at head b

  abbrev pub record_put : Buf
  record_put = pokes (at + 16) tail head_put

  pub put_dirent-ok :
      at + 64 ≤ b.size
      → put_dirent b at n sblock eblock eoffset file_type mode nlink t ≡ ok record_put
  unfolding put_dirent
  put_dirent-ok h = rw (
    put_u16-ok b (at + 0) n (omega arith),
    put32-ok at (take 1 head) b 4 sblock (omega arith) (omega arith),
    put32-ok at (take 2 head) b 8 eblock (omega arith) (omega arith),
    put32-ok at (take 3 head) b 12 eoffset (omega arith) (omega arith),
    put_vattr-ok head_put (at + 16) file_type mode nlink t (omega (arith, size-pokes at head b)),
  )

  pub size-record_put : record_put.size ≡ b.size
  size-record_put = size-pokes (at + 16) tail head_put ∙ size-pokes at head b

  byte-record_put : (a : ℕ) → (a < at + 16) → record_put.byte a ≡ head_put.byte a
  byte-record_put a h = byte-pokes_out (at + 16) 32 tail head_put a refl (inl h)

  pub byte-record_out : (a : ℕ) → (a < at) ⊎ (at + 64 ≤ a) → record_put.byte a ≡ b.byte a
  byte-record_out a h =
      byte-pokes_out (at + 16) 48 tail head_put a refl (omega arith)
      ∙ byte-pokes_out at 64 head b a refl h

  pub number_read : peek16 record_put (at + 0) ≡ n % 2 ^ 16
  number_read =
      peek16_ext (at + 0) head_put record_put (λ i k. byte-record_put _ (omega arith))
      ∙ peek16-pokes at 0 n head b refl

  pub word_read :
      (o v : ℕ)
      → o + 4 ≤ 16
      → peek32 head_put (at + o) ≡ v % 2 ^ 32
      → peek32 record_put (at + o) ≡ v % 2 ^ 32
  word_read o v h e =
      peek32_ext (at + o) head_put record_put (λ i k. byte-record_put _ (omega arith)) ∙ e
