-- ===== src/Ufs/Alloc/Edit.antt =====
-- What taking or freeing an inode does to the bytes: the edit of the block of its cylinder group, and
-- of the counts in the superblock.
use ufs_fuse.Base.{
  ℕ, ◌+◌, ◌/◌, ◌%◌, ◌^◌, ◌≤◌, ◌<◌, ◌≡◌, ◌⊎◌, refl, ap, ◌∙◌, Bool, true, false, ok, if◌then◌else◌,
  arith, ℤ, from_i32,
}
use ufs_fuse.Core.Image.{Buf, IsBytes}
use ufs_fuse.Core.Codec.{peek32, poke, u32-ok, put_u32-ok, size-poke, byte-poke_out, poke-IsBytes}
use ufs_fuse.Core.Codec.RoundTrip.{peek32-poke_self, peek32-poke_ne}
use ufs_fuse.Core.Consts.{ufs_cg_irotor_offset}
use ufs_fuse.Ufs.Bitmap.Laws.{bit, mark, byte-mark_ne}
use ufs_fuse.Ufs.Alloc.Group.{adjust_u32_at}

-- A count after `(current + delta) as u32`.
abbrev pub adjusted : ℕ → ℤ → ℕ
adjusted n delta = (n + from_i32 delta) % 2 ^ 32

pub bump : ℕ → ℤ → Buf → Buf
bump o d b = poke 4 b o (adjusted (peek32 b o) d)

pub adjust_u32_at-ok :
    (b : Buf) (o : ℕ) (d : ℤ) → o + 4 ≤ b.size → adjust_u32_at b o d ≡ ok (bump o d b)
unfolding adjust_u32_at bump
adjust_u32_at-ok b o d h = rw (u32-ok b o h) (put_u32-ok b o _ h)

module _ (o : ℕ) (d : ℤ) (b : Buf) where
  pub size-bump : (bump o d b).size ≡ b.size
  unfolding bump
  size-bump = size-poke 4 b o _

  pub bump-IsBytes : IsBytes b → IsBytes (bump o d b)
  unfolding bump
  bump-IsBytes h = poke-IsBytes 4 b o _ h

  pub peek32-bump_self : peek32 (bump o d b) o ≡ adjusted (peek32 b o) d
  unfolding bump
  peek32-bump_self = omega (arith, peek32-poke_self b o (adjusted (peek32 b o) d))

  pub peek32-bump_ne : (a : ℕ) → (a + 4 ≤ o) ⊎ (o + 4 ≤ a) → peek32 (bump o d b) a ≡ peek32 b a
  unfolding bump
  peek32-bump_ne a h = peek32-poke_ne 4 b o _ a h

  pub byte-bump : (a : ℕ) → (a < o) ⊎ (o + 4 ≤ a) → (bump o d b).byte a ≡ b.byte a
  unfolding bump
  byte-bump a h = byte-poke_out 4 b o _ a h

-- The same, if `on`.
pub bump_if : Bool → ℕ → ℤ → Buf → Buf
bump_if on o d b = if on then bump o d b else b

module _ (o : ℕ) (d : ℤ) (b : Buf) where
  pub size-bump_if : (on : Bool) → (bump_if on o d b).size ≡ b.size
  unfolding bump_if
  size-bump_if true = size-bump o d b
  size-bump_if false = refl

  pub bump_if-IsBytes : (on : Bool) → IsBytes b → IsBytes (bump_if on o d b)
  unfolding bump_if
  bump_if-IsBytes true h = bump-IsBytes o d b h
  bump_if-IsBytes false h = h

  pub peek32-bump_if_self :
      (on : Bool)
      → peek32 (bump_if on o d b) o ≡ (if on then adjusted (peek32 b o) d else peek32 b o)
  unfolding bump_if
  peek32-bump_if_self true = peek32-bump_self o d b
  peek32-bump_if_self false = refl

  pub peek32-bump_if_ne :
      (on : Bool) (a : ℕ) → (a + 4 ≤ o) ⊎ (o + 4 ≤ a) → peek32 (bump_if on o d b) a ≡ peek32 b a
  unfolding bump_if
  peek32-bump_if_ne true a h = peek32-bump_ne o d b a h
  peek32-bump_if_ne false a h = refl

  pub byte-bump_if :
      (on : Bool) (a : ℕ) → (a < o) ⊎ (o + 4 ≤ a) → (bump_if on o d b).byte a ≡ b.byte a
  unfolding bump_if
  byte-bump_if true a h = byte-bump o d b a h
  byte-bump_if false a h = refl

-- A bit of a map depends on one byte; four bytes that stay clear of a map are kept by its edits.
pub bit_ext :
    (map : ℕ) (b c : Buf) (k : ℕ)
    → c.byte (map + k / 8) ≡ b.byte (map + k / 8)
    → bit map c k ≡ bit map b k
unfolding bit
bit_ext map b c k h = rw h

pub peek32_ext :
    (b c : Buf) (o p : ℕ)
    → ((i : ℕ) → i < 4 → c.byte (o + i) ≡ b.byte (p + i))
    → peek32 c o ≡ peek32 b p
unfolding peek32
peek32_ext b c o p h = omega (arith, first, h 1 (omega arith), h 2 (omega arith), h 3 (omega arith))
  where
    first : c.byte o ≡ b.byte p
    first = ap c.byte (omega arith) ∙ h 0 (omega arith) ∙ ap b.byte (omega arith)

pub peek32-mark :
    (map : ℕ) (b : Buf) (k : ℕ) (on : Bool) (a : ℕ)
    → (a + 4 ≤ map) ⊎ (map + k / 8 < a)
    → peek32 (mark map b k on) a ≡ peek32 b a
peek32-mark map b k on a h =
    peek32_ext b (mark map b k on) a a (λ i l. byte-mark_ne map b k on (a + i) (omega arith))

-- The rotor is set when an inode is taken.
unfoldable pub spin : Bool → ℕ → Buf → Buf
spin on l b = if on then poke 4 b ufs_cg_irotor_offset l else b

module _ (l : ℕ) (b : Buf) where
  pub size-spin : (on : Bool) → (spin on l b).size ≡ b.size
  unfolding spin
  size-spin true = size-poke 4 b ufs_cg_irotor_offset l
  size-spin false = refl

  pub spin-IsBytes : (on : Bool) → IsBytes b → IsBytes (spin on l b)
  unfolding spin
  spin-IsBytes true h = poke-IsBytes 4 b ufs_cg_irotor_offset l h
  spin-IsBytes false h = h

  pub byte-spin : (on : Bool) (a : ℕ) → (a < 48) ⊎ (52 ≤ a) → (spin on l b).byte a ≡ b.byte a
  unfolding spin
  byte-spin true a h = byte-poke_out 4 b ufs_cg_irotor_offset l a h
  byte-spin false a h = refl

-- `if on { adjust_u32_at(b, o, d) }`
pub adjust_if-ok :
    (on : Bool) (b : Buf) (o : ℕ) (d : ℤ)
    → o + 4 ≤ b.size
    → (if on then adjust_u32_at b o d else ok b) ≡ ok (bump_if on o d b)
unfolding bump_if
adjust_if-ok true b o d h = adjust_u32_at-ok b o d h
adjust_if-ok false b o d h = refl
