-- ===== src/Core/Image.antt =====
-- crates/svr4-fs-core/src/image.rs: `VecImage`, and the `[u8]` slices that all crates work on.
-- A buffer is its size and its bytes; every access checks the size, as Rust's indexing does.
use ufs_fuse.Base.{
  ℕ, ◌+◌, ◌-◌, ◌≤◌, ◌<◌, ◌≡◌, ◌⊎◌, ap, ◌&&◌, Result, ok, panic, ltb, leb, ◌==◌, if◌then◌else◌,
  arith, true, false,
}

pub record Buf : Type 0 where
  pub size : ℕ
  pub byte : ℕ → ℕ

-- Every element is a `u8`.
abbrev pub IsBytes : Buf → Type 0
IsBytes b = (a : ℕ) → b.byte a < 256

-- `vec![0u8; n]`
unfoldable pub zeroed : ℕ → Buf
zeroed n = record { size = n; byte = λ _. 0 }

-- `buf[a]`
unfoldable pub get : Buf → ℕ → Result ℕ
get b a = if ltb a b.size then ok (b.byte a) else panic

-- The bytes of `b` with those from `off` on, `n` of them, replaced.
abbrev pub overlay : ℕ → ℕ → (ℕ → ℕ) → (ℕ → ℕ) → ℕ → ℕ
overlay off n new old a = elim (leb off a && ltb a (off + n)) [
  | true ↦ new (a - off)
  | false ↦ old a
]

-- `buf[a] = v`
unfoldable pub set : Buf → ℕ → ℕ → Result Buf
set b a v =
    if ltb a b.size
    then ok (record b { byte = λ c. elim (c == a) [ true ↦ v | false ↦ b.byte c ] })
    else panic

-- `buf[lo..hi]`
unfoldable pub slice : Buf → ℕ → ℕ → Result Buf
slice b lo hi =
    if leb lo hi && leb hi b.size
    then ok (record { size = hi - lo; byte = λ a. b.byte (lo + a) })
    else panic

-- `buf[off..off + src.len()].copy_from_slice(src)`: `VecImage::write_at`
unfoldable pub write_at : Buf → ℕ → Buf → Result Buf
write_at b off src =
    if leb (off + src.size) b.size
    then ok (record b { byte = overlay off src.size src.byte b.byte })
    else panic

-- `buf[lo..hi].fill(0)`
unfoldable pub fill_zero : Buf → ℕ → ℕ → Result Buf
fill_zero b lo hi =
    if leb lo hi && leb hi b.size
    then ok (record b { byte = overlay lo (hi - lo) (λ _. 0) b.byte })
    else panic

-- `VecImage::read_at` into a buffer of `len` bytes, and `read_vec`
unfoldable pub read_at : Buf → ℕ → ℕ → Result Buf
read_at b off len = slice b off (off + len)

pub get-ok : (b : Buf) (a : ℕ) → a < b.size → get b a ≡ ok (b.byte a)
unfolding get
get-ok b a h = ground arith

pub slice-ok :
    (b : Buf) (lo hi : ℕ)
    → lo ≤ hi
    → hi ≤ b.size
    → slice b lo hi ≡ ok (record { size = hi - lo; byte = λ a. b.byte (lo + a) })
unfolding slice
slice-ok b lo hi h k = ground arith

pub write_at-ok :
    (b : Buf) (off : ℕ) (src : Buf)
    → off + src.size ≤ b.size
    → write_at b off src ≡ ok (record b { byte = overlay off src.size src.byte b.byte })
unfolding write_at
write_at-ok b off src h = ground arith

pub fill_zero-ok :
    (b : Buf) (lo hi : ℕ)
    → lo ≤ hi
    → hi ≤ b.size
    → fill_zero b lo hi ≡ ok (record b { byte = overlay lo (hi - lo) (λ _. 0) b.byte })
unfolding fill_zero
fill_zero-ok b lo hi h k = ground arith

pub overlay_in :
    (off n : ℕ) (new old : ℕ → ℕ) (i : ℕ) → i < n → overlay off n new old (off + i) ≡ new i
overlay_in off n new old i h = let e : off + i - off ≡ i = omega arith in ground (arith, ap new e)

pub overlay_out :
    (off n : ℕ) (new old : ℕ → ℕ) (a : ℕ)
    → (a < off) ⊎ (off + n ≤ a)
    → overlay off n new old a ≡ old a
overlay_out off n new old a h = ground arith

pub overlay-IsBytes :
    (off n : ℕ) (new old : ℕ → ℕ)
    → ((i : ℕ) → new i < 256)
    → ((a : ℕ) → old a < 256)
    → (a : ℕ) → overlay off n new old a < 256
overlay-IsBytes off n new old hn ho a =
    elim (leb off a && ltb a (off + n))
      as (λ t. elim t [ true ↦ new (a - off) | false ↦ old a ] < 256) [
        | true ↦ hn (a - off)
        | false ↦ ho a
      ]
