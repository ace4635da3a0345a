-- ===== src/Core/Codec/RoundTrip.antt =====
-- What a writer of codec.rs writes is what the reader of the same width reads back.
use ufs_fuse.Base.{
  ℕ, ◌+◌, ◌-◌, ◌%◌, ◌^◌, ◌≤◌, ◌<◌, ◌≡◌, ◌⊎◌, inl, inr, ap, ◌∙◌, subst, ok, panic, ℤ, pos, negsuc,
  IsI32, to_i32, from_i32, arith,
}
use ufs_fuse.Core.Image.{Buf}
use ufs_fuse.Core.Codec.{
  u16, u32, i32, u64, put_u16, put_u32, put_i32, put_u64, peek16, peek32, peek64, poke, u16-ok,
  u32-ok, i32-ok, put_u16-ok, put_u32-ok, put_i32-ok, put_u64-ok, u64-ok, size-poke, byte-poke_in,
  byte-poke_out,
}

-- Outside the `n` bytes at `o` the two buffers hold the same.
abbrev pub SameOutside : ℕ → ℕ → Buf → Buf → Type 0
SameOutside o n b c = (c.size ≡ b.size) × ((a : ℕ) → (a < o) ⊎ (o + n ≤ a) → c.byte a ≡ b.byte a)

pub poke-SameOutside : (n : ℕ) (b : Buf) (o v : ℕ) → SameOutside o n b (poke n b o v)
poke-SameOutside n b o v = (size-poke n b o v, λ a h. byte-poke_out n b o v a h)

byte-poke_first : (n : ℕ) (b : Buf) (o v : ℕ) → 0 < n → (poke n b o v).byte o ≡ v % 256
byte-poke_first n b o v h =
    subst (λ a. (poke n b o v).byte a ≡ v % 256) (omega arith)
      (byte-poke_in n b o v 0 h ∙ omega arith)

pub peek16-poke_self : (b : Buf) (o v : ℕ) → peek16 (poke 2 b o v) o ≡ v % 2 ^ 16
unfolding peek16
peek16-poke_self b o v =
    omega (arith, byte-poke_first 2 b o v (omega arith), byte-poke_in 2 b o v 1 (omega arith))

pub peek32-poke_self : (b : Buf) (o v : ℕ) → peek32 (poke 4 b o v) o ≡ v % 2 ^ 32
unfolding peek32
peek32-poke_self b o v = omega (
  arith,
  byte-poke_first 4 b o v (omega arith),
  byte-poke_in 4 b o v 1 (omega arith),
  byte-poke_in 4 b o v 2 (omega arith),
  byte-poke_in 4 b o v 3 (omega arith),
)

pub peek64-poke_self : (b : Buf) (o v : ℕ) → peek64 (poke 8 b o v) o ≡ v % 2 ^ 64
unfolding peek64
peek64-poke_self b o v = omega (
  arith,
  byte-poke_in 8 b o v 0 (omega arith),
  byte-poke_in 8 b o v 1 (omega arith),
  byte-poke_in 8 b o v 2 (omega arith),
  byte-poke_in 8 b o v 3 (omega arith),
  byte-poke_in 8 b o v 4 (omega arith),
  byte-poke_in 8 b o v 5 (omega arith),
  byte-poke_in 8 b o v 6 (omega arith),
  byte-poke_in 8 b o v 7 (omega arith),
)

-- A read that stays clear of the written bytes is unchanged.
pub peek32-poke_ne :
    (n : ℕ) (b : Buf) (o v a : ℕ) → (a + 4 ≤ o) ⊎ (o + n ≤ a) → peek32 (poke n b o v) a ≡ peek32 b a
unfolding peek32
peek32-poke_ne n b o v a (inl h) = omega (
  arith,
  byte-poke_out n b o v a (inl (omega arith)),
  byte-poke_out n b o v (a + 1) (inl (omega arith)),
  byte-poke_out n b o v (a + 2) (inl (omega arith)),
  byte-poke_out n b o v (a + 3) (inl (omega arith)),
)
peek32-poke_ne n b o v a (inr h) = omega (
  arith,
  byte-poke_out n b o v a (inr (omega arith)),
  byte-poke_out n b o v (a + 1) (inr (omega arith)),
  byte-poke_out n b o v (a + 2) (inr (omega arith)),
  byte-poke_out n b o v (a + 3) (inr (omega arith)),
)

-- A 16-bit value written in range is read back, the size and every other byte are kept, and out of
-- range both the write and the read panic.
pub u16-put_u16 :
    (b : Buf) (o v : ℕ)
    → v < 2 ^ 16
    → (o + 2 ≤ b.size → (c : Buf) × (put_u16 b o v ≡ ok c) × (u16 c o ≡ ok v) × SameOutside o 2 b c)
      × (b.size < o + 2 → (put_u16 b o v ≡ panic) × (u16 b o ≡ panic))
unfolding u16 put_u16
u16-put_u16 b o v h = (
  λ k. (
    poke 2 b o v,
    put_u16-ok b o v k,
    u16-ok (poke 2 b o v) o (omega (arith, size-poke 2 b o v))
        ∙ ap ok (omega (arith, peek16-poke_self b o v)),
    poke-SameOutside 2 b o v,
  ),
  λ k. (ground arith, ground arith),
)

-- A 32-bit value written in range is read back, the size and every other byte are kept, and out of
-- range both the write and the read panic.
pub u32-put_u32 :
    (b : Buf) (o v : ℕ)
    → v < 2 ^ 32
    → (o + 4 ≤ b.size → (c : Buf) × (put_u32 b o v ≡ ok c) × (u32 c o ≡ ok v) × SameOutside o 4 b c)
      × (b.size < o + 4 → (put_u32 b o v ≡ panic) × (u32 b o ≡ panic))
unfolding u32 put_u32
u32-put_u32 b o v h = (
  λ k. (
    poke 4 b o v,
    put_u32-ok b o v k,
    u32-ok (poke 4 b o v) o (omega (arith, size-poke 4 b o v))
        ∙ ap ok (omega (arith, peek32-poke_self b o v)),
    poke-SameOutside 4 b o v,
  ),
  λ k. (ground arith, ground arith),
)

to_i32-from_i32 : (z : ℤ) → IsI32 z → (to_i32 (from_i32 z) ≡ z) × (from_i32 z < 2 ^ 32)
unfolding to_i32 from_i32
to_i32-from_i32 (pos n) h = (ground arith, omega arith)
to_i32-from_i32 (negsuc n) h =
    let e : 2 ^ 32 - 1 - (2 ^ 32 - 1 - n) ≡ n = omega arith in
    (ground (arith, ap negsuc e), omega arith)

-- A signed 32-bit value written in range is read back with its sign, the size and every other byte
-- are kept, and out of range both the write and the read panic.
pub i32-put_i32 :
    (b : Buf) (o : ℕ) (z : ℤ)
    → IsI32 z
    → (o + 4 ≤ b.size → (c : Buf) × (put_i32 b o z ≡ ok c) × (i32 c o ≡ ok z) × SameOutside o 4 b c)
      × (b.size < o + 4 → (put_i32 b o z ≡ panic) × (i32 b o ≡ panic))
unfolding i32 put_i32
i32-put_i32 b o z h = (
  λ k. (
    poke 4 b o (from_i32 z),
    put_i32-ok b o z k,
    i32-ok (poke 4 b o (from_i32 z)) o (omega (arith, size-poke 4 b o (from_i32 z)))
        ∙ ap (λ n. ok (to_i32 n))
            (omega (arith, peek32-poke_self b o (from_i32 z), (to_i32-from_i32 z h).1))
        ∙ ap ok (to_i32-from_i32 z h).0,
    poke-SameOutside 4 b o (from_i32 z),
  ),
  λ k. (ground arith, ground arith),
)

-- A 64-bit value written in range is read back, the size and every other byte are kept, and out of
-- range both the write and the read panic.
pub u64-put_u64 :
    (b : Buf) (o v : ℕ)
    → v < 2 ^ 64
    → (o + 8 ≤ b.size → (c : Buf) × (put_u64 b o v ≡ ok c) × (u64 c o ≡ ok v) × SameOutside o 8 b c)
      × (b.size < o + 8 → (put_u64 b o v ≡ panic) × (u64 b o ≡ panic))
unfolding u64 put_u64
u64-put_u64 b o v h = (
  λ k. (
    poke 8 b o v,
    put_u64-ok b o v k,
    u64-ok (poke 8 b o v) o (omega (arith, size-poke 8 b o v))
        ∙ ap ok (omega (arith, peek64-poke_self b o v)),
    poke-SameOutside 8 b o v,
  ),
  λ k. (ground arith, ground arith),
)
