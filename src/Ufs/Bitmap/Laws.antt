-- ===== src/Ufs/Bitmap/Laws.antt =====
-- Setting one bit of a map sets that bit and leaves every other bit and byte alone.
use ufs_fuse.Base.{
  ℕ, ◌+◌, ◌/◌, ◌%◌, ◌<◌, ◌≡◌, ◌≢◌, refl, ap, Bool, true, false, ok, lt→ltb, ◌==◌, if◌then◌else◌,
  arith, ℕ_discrete,
}
use ufs_fuse.Core.Image.{Buf, IsBytes, set, get-ok}
use ufs_fuse.Ufs.Bitmap.{test_bit, with_bit, get_state, set_state}
use ufs_fuse.Ufs.Bitmap.Bits.{test_bit-with_bit, with_bit-lt}

-- The bit that `get_state` reads in range.
unfoldable pub bit : ℕ → Buf → ℕ → Bool
bit map cg i = test_bit (cg.byte (map + i / 8)) (i % 8)

-- The buffer that `set_state` returns in range.
pub mark : ℕ → Buf → ℕ → Bool → Buf
mark map cg i on = record cg {
  byte = λ c. elim (c == map + i / 8) [
    | true ↦ with_bit (cg.byte (map + i / 8)) (i % 8) on
    | false ↦ cg.byte c
  ];
}

pub get_state-ok :
    (map : ℕ) (cg : Buf) (i : ℕ) → map + i / 8 < cg.size → get_state map cg i ≡ ok (bit map cg i)
unfolding get_state bit
get_state-ok map cg i h = rw (get-ok cg (map + i / 8) h)

pub set_state-ok :
    (map : ℕ) (cg : Buf) (i : ℕ) (on : Bool)
    → map + i / 8 < cg.size
    → set_state map cg i on ≡ ok (mark map cg i on)
unfolding set_state mark set
set_state-ok map cg i on h = rw (get-ok cg (map + i / 8) h, lt→ltb _ _ h)

pub size-mark : (map : ℕ) (cg : Buf) (i : ℕ) (on : Bool) → (mark map cg i on).size ≡ cg.size
unfolding mark
size-mark map cg i on = refl

pub byte-mark_ne :
    (map : ℕ) (cg : Buf) (i : ℕ) (on : Bool) (a : ℕ)
    → a ≢ map + i / 8
    → (mark map cg i on).byte a ≡ cg.byte a
unfolding mark
byte-mark_ne map cg i on a h = ground arith

byte-mark_self :
    (map : ℕ) (cg : Buf) (i : ℕ) (on : Bool) (a : ℕ)
    → a ≡ map + i / 8
    → (mark map cg i on).byte a ≡ with_bit (cg.byte (map + i / 8)) (i % 8) on
unfolding mark
byte-mark_self map cg i on a h = ground arith

pub mark-IsBytes :
    (map : ℕ) (cg : Buf) (i : ℕ) (on : Bool) → IsBytes cg → IsBytes (mark map cg i on)
mark-IsBytes map cg i on h a = ground (
  arith,
  h (map + i / 8),
  h a,
  byte-mark_ne map cg i on a,
  byte-mark_self map cg i on a,
  with_bit-lt (cg.byte (map + i / 8)) (i % 8) on,
)

-- The map after one bit was set.
pub bit-mark :
    (map : ℕ) (cg : Buf) (i : ℕ) (on : Bool) (j : ℕ)
    → IsBytes cg
    → bit map (mark map cg i on) j ≡ (if i == j then on else bit map cg j)
unfolding bit
bit-mark map cg i on j h = elim (ℕ_discrete (j / 8) (i / 8)) [
  | yes e ↦
      let same = byte-mark_self map cg i on (map + j / 8) (omega arith) in
      let old = ap (λ a. test_bit (cg.byte (map + a)) (j % 8)) e in
      ground (
        arith,
        same,
        old,
        h (map + i / 8),
        test_bit-with_bit (cg.byte (map + i / 8)) (i % 8) (j % 8) on,
      )
  | no ne ↦ ground (arith, byte-mark_ne map cg i on (map + j / 8))
]
