-- ===== src/Core/Codec.antt =====
-- crates/svr4-fs-core/src/codec.rs: the little-endian field accessors. `u16::from_le_bytes` and

-- its like are written as the sum of the bytes by their place; `to_le_bytes` as the digits to the
-- base 256.
pub mod RoundTrip
pub mod Pokes
use ufs_fuse.Base.{
  ℕ, ◌+◌, ◌*◌, ◌/◌, ◌%◌, ◌^◌, ◌≤◌, ◌<◌, ◌≡◌, ◌⊎◌, inl, inr, refl, ◌∙◌, subst, ◌&&◌, Result, ok,
  ◌>>=◌, ℤ, to_i32, from_i32, arith, Bool-cases, leb, ltb,
}
use ufs_fuse.Core.Image.{Buf, IsBytes, get, slice, write_at, overlay}
use ufs_fuse.Core.Image.{get-ok, slice-ok, write_at-ok, overlay_in, overlay_out, overlay-IsBytes}

abbrev pub le16 : ℕ → ℕ → ℕ
le16 a b = a + 256 * b

abbrev pub le32 : ℕ → ℕ → ℕ → ℕ → ℕ
le32 a b c d = a + 256 * b + 65536 * c + 16777216 * d

unfoldable pub u16 : Buf → ℕ → Result ℕ
unfolding get
u16 buf offset = do a ← get buf offset; b ← get buf (offset + 1); ok (le16 a b)

unfoldable pub u32 : Buf → ℕ → Result ℕ
unfolding get
u32 buf offset = do
  a ← get buf offset
  b ← get buf (offset + 1)
  c ← get buf (offset + 2)
  d ← get buf (offset + 3)
  ok (le32 a b c d)

unfoldable pub i32 : Buf → ℕ → Result ℤ
unfolding get to_i32
i32 buf offset = do
  a ← get buf offset
  b ← get buf (offset + 1)
  c ← get buf (offset + 2)
  d ← get buf (offset + 3)
  ok (to_i32 (le32 a b c d))

unfoldable pub u64 : Buf → ℕ → Result ℕ
unfolding slice
u64 buf offset = do
  s ← slice buf offset (offset + 8)
  let at = s.byte
  ok (le32 (at 0) (at 1) (at 2) (at 3) + 2 ^ 32 * le32 (at 4) (at 5) (at 6) (at 7))

-- `value.to_le_bytes()` of a value of `n` bytes.
unfoldable pub to_le_bytes : ℕ → ℕ → Buf
to_le_bytes n value = record { size = n; byte = λ i. value / 256 ^ i % 256 }

unfoldable pub put_u16 : Buf → ℕ → ℕ → Result Buf
unfolding write_at to_le_bytes
put_u16 buf offset value = write_at buf offset (to_le_bytes 2 value)

unfoldable pub put_u32 : Buf → ℕ → ℕ → Result Buf
unfolding write_at to_le_bytes
put_u32 buf offset value = write_at buf offset (to_le_bytes 4 value)

unfoldable pub put_i32 : Buf → ℕ → ℤ → Result Buf
unfolding write_at to_le_bytes from_i32
put_i32 buf offset value = write_at buf offset (to_le_bytes 4 (from_i32 value))

unfoldable pub put_u64 : Buf → ℕ → ℕ → Result Buf
unfolding write_at to_le_bytes
put_u64 buf offset value = write_at buf offset (to_le_bytes 8 value)

-- The value that a reader returns in range.
unfoldable pub peek16 : Buf → ℕ → ℕ
peek16 b o = le16 (b.byte o) (b.byte (o + 1))

unfoldable pub peek32 : Buf → ℕ → ℕ
peek32 b o = le32 (b.byte o) (b.byte (o + 1)) (b.byte (o + 2)) (b.byte (o + 3))

unfoldable pub peek64 : Buf → ℕ → ℕ
peek64 b o =
    le32 (b.byte (o + 0)) (b.byte (o + 1)) (b.byte (o + 2)) (b.byte (o + 3))
    + 2 ^ 32 * le32 (b.byte (o + 4)) (b.byte (o + 5)) (b.byte (o + 6)) (b.byte (o + 7))

-- The buffer that a writer of `n` bytes returns in range.
pub poke : ℕ → Buf → ℕ → ℕ → Buf
unfolding to_le_bytes
poke n b o v = record b { byte = overlay o n (to_le_bytes n v).byte b.byte }

pub u16-ok : (b : Buf) (o : ℕ) → o + 2 ≤ b.size → u16 b o ≡ ok (peek16 b o)
unfolding u16 peek16
u16-ok b o h = rw (get-ok b o (omega arith), get-ok b (o + 1) (omega arith))

pub u32-ok : (b : Buf) (o : ℕ) → o + 4 ≤ b.size → u32 b o ≡ ok (peek32 b o)
unfolding u32 peek32
u32-ok b o h = rw (
  get-ok b o (omega arith),
  get-ok b (o + 1) (omega arith),
  get-ok b (o + 2) (omega arith),
  get-ok b (o + 3) (omega arith),
)

pub i32-ok : (b : Buf) (o : ℕ) → o + 4 ≤ b.size → i32 b o ≡ ok (to_i32 (peek32 b o))
unfolding i32 peek32
i32-ok b o h = rw (
  get-ok b o (omega arith),
  get-ok b (o + 1) (omega arith),
  get-ok b (o + 2) (omega arith),
  get-ok b (o + 3) (omega arith),
)

pub put_u16-ok : (b : Buf) (o v : ℕ) → o + 2 ≤ b.size → put_u16 b o v ≡ ok (poke 2 b o v)
unfolding put_u16 poke
put_u16-ok b o v h = write_at-ok b o (to_le_bytes 2 v) h

pub put_u32-ok : (b : Buf) (o v : ℕ) → o + 4 ≤ b.size → put_u32 b o v ≡ ok (poke 4 b o v)
unfolding put_u32 poke
put_u32-ok b o v h = write_at-ok b o (to_le_bytes 4 v) h

pub put_i32-ok :
    (b : Buf) (o : ℕ) (z : ℤ) → o + 4 ≤ b.size → put_i32 b o z ≡ ok (poke 4 b o (from_i32 z))
unfolding put_i32 poke
put_i32-ok b o z h = write_at-ok b o (to_le_bytes 4 (from_i32 z)) h

pub put_u64-ok : (b : Buf) (o v : ℕ) → o + 8 ≤ b.size → put_u64 b o v ≡ ok (poke 8 b o v)
unfolding put_u64 poke
put_u64-ok b o v h = write_at-ok b o (to_le_bytes 8 v) h

pub u64-ok : (b : Buf) (o : ℕ) → o + 8 ≤ b.size → u64 b o ≡ ok (peek64 b o)
unfolding u64 peek64
u64-ok b o h = rw (slice-ok b o (o + 8) (omega arith) h)

pub size-poke : (n : ℕ) (b : Buf) (o v : ℕ) → (poke n b o v).size ≡ b.size
unfolding poke
size-poke n b o v = refl

pub byte-poke_in :
    (n : ℕ) (b : Buf) (o v i : ℕ) → i < n → (poke n b o v).byte (o + i) ≡ v / 256 ^ i % 256
unfolding poke to_le_bytes
byte-poke_in n b o v i h = overlay_in o n (λ j. v / 256 ^ j % 256) b.byte i h

pub byte-poke_out :
    (n : ℕ) (b : Buf) (o v a : ℕ) → (a < o) ⊎ (o + n ≤ a) → (poke n b o v).byte a ≡ b.byte a
unfolding poke to_le_bytes
byte-poke_out n b o v a h = overlay_out o n (λ j. v / 256 ^ j % 256) b.byte a h

pub poke-IsBytes : (n : ℕ) (b : Buf) (o v : ℕ) → IsBytes b → IsBytes (poke n b o v)
unfolding poke to_le_bytes
poke-IsBytes n b o v h = overlay-IsBytes o n (λ j. v / 256 ^ j % 256) b.byte (λ i. omega arith) h
