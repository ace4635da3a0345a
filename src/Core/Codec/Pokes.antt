-- ===== src/Core/Codec/Pokes.antt =====
-- Several fields written to one record, and what a later read of a field gives.
use ufs_fuse.Base.{
  ℕ, ◌+◌, ◌%◌, ◌^◌, ◌≤◌, ◌<◌, ◌≡◌, ◌⊎◌, inl, inr, refl, ap, ◌∙◌, Bool, true, false, ◌&&◌, ◌||◌,
  Option, none, some, List, [], ◌∷◌, Option-cases, leb, ◌==◌, if◌then◌else◌, arith, leb→le, ==_iff,
  subst, sym,
}
use ufs_fuse.Core.Image.{Buf, IsBytes}
use ufs_fuse.Core.Codec.{peek16, peek32, poke, size-poke, byte-poke_out, poke-IsBytes}
use ufs_fuse.Core.Codec.RoundTrip.{peek16-poke_self, peek32-poke_self}

-- A field of `width` bytes at `at` of the record, and its value.
pub record Field : Type 0 where
  pub width : ℕ
  pub at : ℕ
  pub value : ℕ

-- The fields are written one after another to the record at `off`.
abbrev pub pokes : ℕ → List Field → Buf → Buf
pokes off [] b = b
pokes off (f ∷ fs) b = pokes off fs (poke f.width b (off + f.at) f.value)

-- No field overlaps the `n` bytes at `o`.
abbrev pub is_apart : ℕ → ℕ → List Field → Bool
is_apart n o [] = true
is_apart n o (f ∷ fs) = (leb (o + n) f.at || leb (f.at + f.width) o) && is_apart n o fs

-- Every field lies in the first `n` bytes.
abbrev pub is_inside : ℕ → List Field → Bool
is_inside n [] = true
is_inside n (f ∷ fs) = leb (f.at + f.width) n && is_inside n fs

abbrev later_or : Option ℕ → Option ℕ → Option ℕ
later_or (some v) w = some v
later_or none w = w

-- The value that stands in the field of width `n` at `o` after all writes.
abbrev pub value_at : ℕ → ℕ → List Field → Option ℕ
value_at n o [] = none
value_at n o (f ∷ fs) =
    later_or (value_at n o fs)
      (if (f.width == n) && ((f.at == o) && is_apart n o fs) then some f.value else none)

pub size-pokes : (off : ℕ) (fs : List Field) (b : Buf) → (pokes off fs b).size ≡ b.size
size-pokes off [] b = refl
size-pokes off (f ∷ fs) b = size-pokes off fs _ ∙ size-poke f.width b (off + f.at) f.value

pub byte-pokes_apart :
    (off n o : ℕ) (fs : List Field) (b : Buf) (i : ℕ)
    → is_apart n o fs ≡ true
    → i < n
    → (pokes off fs b).byte (off + o + i) ≡ b.byte (off + o + i)
byte-pokes_apart off n o [] b i h k = refl
byte-pokes_apart off n o (f ∷ fs) b i h k =
    let (here, rest) = both (leb (o + n) f.at) (leb (f.at + f.width) o) (is_apart n o fs) h in
    byte-pokes_apart off n o fs _ i rest k
    ∙ byte-poke_out f.width b (off + f.at) f.value (off + o + i) (side here)
  where
    both : (x y z : Bool) → ((x || y) && z) ≡ true → ((x ≡ true) ⊎ (y ≡ true)) × (z ≡ true)
    both true y z e = (inl refl, e)
    both false true z e = (inr refl, e)
    both false false z e = absurd (cc)

    side :
        (leb (o + n) f.at ≡ true) ⊎ (leb (f.at + f.width) o ≡ true)
        → (off + o + i < off + f.at) ⊎ (off + f.at + f.width ≤ off + o + i)
    side (inl e) = inl (omega (arith, leb→le (o + n) f.at e))
    side (inr e) = inr (omega (arith, leb→le (f.at + f.width) o e))

&&-true : (x y : Bool) → (x && y) ≡ true → (x ≡ true) × (y ≡ true)
&&-true true y e = (refl, e)
&&-true false y e = absurd (cc)

-- Bytes outside the record are kept.
pub byte-pokes_out :
    (off n : ℕ) (fs : List Field) (b : Buf) (a : ℕ)
    → is_inside n fs ≡ true
    → (a < off) ⊎ (off + n ≤ a)
    → (pokes off fs b).byte a ≡ b.byte a
byte-pokes_out off n [] b a h k = refl
byte-pokes_out off n (f ∷ fs) b a h k =
    let (here, rest) = &&-true (leb (f.at + f.width) n) (is_inside n fs) h in
    byte-pokes_out off n fs _ a rest k
    ∙ byte-poke_out f.width b (off + f.at) f.value a (omega (arith, leb→le (f.at + f.width) n here))

pub pokes-IsBytes : (off : ℕ) (fs : List Field) (b : Buf) → IsBytes b → IsBytes (pokes off fs b)
pokes-IsBytes off [] b h = h
pokes-IsBytes off (f ∷ fs) b h =
    pokes-IsBytes off fs _ (poke-IsBytes f.width b (off + f.at) f.value h)

-- A write to the record, and what is written to it later.
module _ (n off o v : ℕ) (Reads : Buf → Type 0) (self : (b : Buf) → Reads (poke n b (off + o) v))
    (ext : (b c : Buf)
      → ((i : ℕ) → i < n → c.byte (off + o + i) ≡ b.byte (off + o + i))
      → Reads b
      → Reads c) where
  stands :
      (f : Field) (fs : List Field) (b : Buf)
      → (if (f.width == n) && ((f.at == o) && is_apart n o fs) then some f.value else none) ≡ some v
      → Reads (pokes off (f ∷ fs) b)
  stands f fs b h =
      let (w, a, p, e) = parts (f.width == n) (f.at == o) (is_apart n o fs) h in
      let width = (==_iff f.width n).0 w in
      let at = (==_iff f.at o).0 a in
      let same : poke f.width b (off + f.at) f.value ≡ poke n b (off + o) v =
        rw (width, at, e) refl in
      ext _ _ (λ i k. byte-pokes_apart off n o fs _ i p k) (subst Reads (sym same) (self b))
    where
      parts :
          (x y z : Bool)
          → (if x && (y && z) then some f.value else none) ≡ some v
          → (x ≡ true) × (y ≡ true) × (z ≡ true) × (f.value ≡ v)
      parts true true true e = (refl, refl, refl, cc)
      parts true true false e = absurd (cc)
      parts true false z e = absurd (cc)
      parts false y z e = absurd (cc)

  reads_value : (fs : List Field) (b : Buf) → value_at n o fs ≡ some v → Reads (pokes off fs b)
  reads_value [] b h = absurd (cc)
  reads_value (f ∷ fs) b h = elim (Option-cases (value_at n o fs)) [
    | inl e ↦ stands f fs b (sym (rw e refl) ∙ h)
    | inr (w, e) ↦ reads_value fs _ (e ∙ (sym (rw e refl) ∙ h))
  ]

pub peek16_ext :
    (o : ℕ) (b c : Buf)
    → ((i : ℕ) → i < 2 → c.byte (o + i) ≡ b.byte (o + i))
    → peek16 c o ≡ peek16 b o
unfolding peek16
peek16_ext o b c h =
    let e : o + 0 ≡ o = omega arith in
    omega (arith, ap c.byte e, ap b.byte e, h 0 (omega arith), h 1 (omega arith))

pub peek32_ext :
    (o : ℕ) (b c : Buf)
    → ((i : ℕ) → i < 4 → c.byte (o + i) ≡ b.byte (o + i))
    → peek32 c o ≡ peek32 b o
unfolding peek32
peek32_ext o b c h =
    let e : o + 0 ≡ o = omega arith in
    omega (
      arith,
      ap c.byte e,
      ap b.byte e,
      h 0 (omega arith),
      h 1 (omega arith),
      h 2 (omega arith),
      h 3 (omega arith),
    )

-- A field that was written last of all that touch it is read back.
pub peek16-pokes :
    (off o v : ℕ) (fs : List Field) (b : Buf)
    → value_at 2 o fs ≡ some v
    → peek16 (pokes off fs b) (off + o) ≡ v % 2 ^ 16
peek16-pokes off o v =
    reads_value 2 off o v (λ b. peek16 b (off + o) ≡ v % 2 ^ 16)
      (λ b. peek16-poke_self b (off + o) v) (λ b c h e. peek16_ext (off + o) b c h ∙ e)

pub peek32-pokes :
    (off o v : ℕ) (fs : List Field) (b : Buf)
    → value_at 4 o fs ≡ some v
    → peek32 (pokes off fs b) (off + o) ≡ v % 2 ^ 32
peek32-pokes off o v =
    reads_value 4 off o v (λ b. peek32 b (off + o) ≡ v % 2 ^ 32)
      (λ b. peek32-poke_self b (off + o) v) (λ b c h e. peek32_ext (off + o) b c h ∙ e)

-- A field that nothing was written to is as before.
pub peek32-pokes_apart :
    (off o : ℕ) (fs : List Field) (b : Buf)
    → is_apart 4 o fs ≡ true
    → peek32 (pokes off fs b) (off + o) ≡ peek32 b (off + o)
peek32-pokes_apart off o fs b h =
    peek32_ext (off + o) b (pokes off fs b) (λ i k. byte-pokes_apart off 4 o fs b i h k)
