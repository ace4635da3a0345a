-- ===== src/Ufs/Dir/Tidy.antt =====
-- A directory block as the list of its records: what the bytes hold when every record has room for its
-- name and the records fill the block.
use ufs_fuse.Base.{
  ℕ, zero, suc, ◌+◌, ◌*◌, ◌≤◌, ◌<◌, ◌≡◌, refl, sym, ap, ap₂, ◌∙◌, subst, not, ◌&&◌, Option, none,
  some, List, [], ◌∷◌, ◌++◌, length, ok, ◌>>=◌, ◌==◌, if◌then◌else◌, arith, le→leb, lt→leb, ==_refl,
  ==_ne, ℕ_discrete,
}
use ufs_fuse.Core.Image.{Buf}
use ufs_fuse.Core.Codec.{peek16, peek32}
use ufs_fuse.Ufs.Dir.{
  DirEntryHeader, check_header, list_from, name_bytes, same_bytes, scan_loop, scan_block,
}
use ufs_fuse.Ufs.Dir.Records.{name_bytes-ok, header_at, header-ok}
use ufs_fuse.Ufs.Dir.Scan.{same_bytes-length_ne}

pub record Entry : Type 0 where
  pub inode : ℕ
  pub record_length : ℕ
  pub name : List ℕ

-- The bytes at `c` are those of the record.
abbrev pub Stored : Buf → ℕ → Entry → Type 0
Stored b c r =
    (peek32 b c ≡ r.inode)
    × (peek16 b (c + 4) ≡ r.record_length)
    × (peek16 b (c + 6) ≡ length r.name)
    × (list_from b.byte (length r.name) (c + 8) ≡ r.name)

-- The record has room for its name.
abbrev pub IsRoomy : Entry → Type 0
IsRoomy r = (8 + length r.name ≤ r.record_length) × (length r.name ≤ 255)

-- The records follow one another from `c` to `e`.
abbrev pub Tidy : Buf → ℕ → List Entry → ℕ → Type 0
Tidy b c [] e = c ≡ e
Tidy b c (r ∷ rs) e = Stored b c r × IsRoomy r × Tidy b (c + r.record_length) rs e

abbrev pub total : List Entry → ℕ
total [] = 0
total (r ∷ rs) = r.record_length + total rs

pub Tidy-le : (b : Buf) (c : ℕ) (rs : List Entry) (e : ℕ) → Tidy b c rs e → c + total rs ≡ e
Tidy-le b c [] e t = omega arith
Tidy-le b c (r ∷ rs) e (s, w, t) = omega (arith, Tidy-le b (c + r.record_length) rs e t)

pub list_from_ext :
    (f g : ℕ → ℕ) (n a c : ℕ)
    → ((i : ℕ) → i < n → g (c + i) ≡ f (a + i))
    → list_from g n c ≡ list_from f n a
unfolding list_from
list_from_ext f g zero a c h = refl
list_from_ext f g (suc n) a c h =
    ap₂ (λ x xs. x ∷ xs) (ap g (omega arith) ∙ h 0 (omega arith) ∙ ap f (omega arith))
      (list_from_ext f g n (a + 1) (c + 1)
        (λ i k. ap g (omega arith) ∙ h (1 + i) (omega arith) ∙ ap f (omega arith)))

-- The record is where its bytes are.
pub Stored-ext :
    (b b' : Buf) (c c' : ℕ) (r : Entry)
    → ((i : ℕ) → i < 8 + length r.name → b'.byte (c' + i) ≡ b.byte (c + i))
    → Stored b c r
    → Stored b' c' r
unfolding peek16 peek32
Stored-ext b b' c c' r h (i, l, n, s) = (
  omega (
    arith,
    ap b'.byte z',
    ap b.byte z,
    h 0 (omega arith),
    h 1 (omega arith),
    h 2 (omega arith),
    h 3 (omega arith),
    i,
  ),
  ap₂ (λ x y. x + 256 * y) (h 4 (omega arith)) (two 4 (omega arith)) ∙ l,
  ap₂ (λ x y. x + 256 * y) (h 6 (omega arith)) (two 6 (omega arith)) ∙ n,
  list_from_ext b.byte b'.byte (length r.name) (c + 8) (c' + 8)
        (λ i k. ap b'.byte (omega arith) ∙ h (8 + i) (omega arith) ∙ ap b.byte (omega arith))
      ∙ s,
)
  where
    z : c + 0 ≡ c
    z = omega arith

    z' : c' + 0 ≡ c'
    z' = omega arith

    two : (k : ℕ) → k < 7 → b'.byte (c' + k + 1) ≡ b.byte (c + k + 1)
    two k p = ap b'.byte (omega arith) ∙ h (k + 1) (omega arith) ∙ ap b.byte (omega arith)

pub Tidy-ext :
    (b b' : Buf) (c : ℕ) (rs : List Entry) (e : ℕ)
    → ((a : ℕ) → c ≤ a → a < e → b'.byte a ≡ b.byte a)
    → Tidy b c rs e
    → Tidy b' c rs e
Tidy-ext b b' c [] e h t = t
Tidy-ext b b' c (r ∷ rs) e h (s, w, t) =
    let l = Tidy-le b (c + r.record_length) rs e t in
    (
      Stored-ext b b' c c r (λ i k. h (c + i) (omega arith) (omega (arith, w.0))) s,
      w,
      Tidy-ext b b' (c + r.record_length) rs e (λ a p q. h a (omega arith) q) t,
    )

pub Tidy-join :
    (b : Buf) (c : ℕ) (xs ys : List Entry) (m e : ℕ)
    → Tidy b c xs m
    → Tidy b m ys e
    → Tidy b c (xs ++ ys) e
Tidy-join b c [] ys m e t u = subst (λ x. Tidy b x ys e) (sym t) u
Tidy-join b c (x ∷ xs) ys m e (s, w, t) u = (s, w, Tidy-join b (c + x.record_length) xs ys m e t u)

pub Tidy-split :
    (b : Buf) (c : ℕ) (xs ys : List Entry) (e : ℕ)
    → Tidy b c (xs ++ ys) e
    → Tidy b c xs (c + total xs) × Tidy b (c + total xs) ys e
Tidy-split b c [] ys e t = let z : c ≡ c + 0 = omega arith in (z, subst (λ x. Tidy b x ys e) z t)
Tidy-split b c (x ∷ xs) ys e (s, w, t) =
    let (p, q) = Tidy-split b (c + x.record_length) xs ys e t in
    let a : c + x.record_length + total xs ≡ c + (x.record_length + total xs) = omega arith in
    ((s, w, subst (Tidy b (c + x.record_length) xs) a p), subst (λ m. Tidy b m ys e) a q)

-- The header of the first record.
abbrev pub header_of : Entry → DirEntryHeader
header_of r = record {
  inode = r.inode;
  record_length = r.record_length;
  name_length = length r.name;
}

pub Tidy-header :
    (b : Buf) (max : ℕ) (fits : max ≤ b.size) (c : ℕ) (r : Entry) (rs : List Entry)
    → Tidy b c (r ∷ rs) max
    → header_at b max fits c ≡ some (header_of r)
unfolding check_header
Tidy-header b max fits c r rs ((i, l, n, s), w, t) =
    let k = Tidy-le b (c + r.record_length) rs max t in rw (i, l, n) (ground arith)

-- The inode number of the first record in use with the name.
unfoldable pub find_entry : List ℕ → List Entry → Option ℕ
find_entry name [] = none
find_entry name (r ∷ rs) =
    if not (r.inode == 0) && same_bytes r.name name then some r.inode else find_entry name rs

module _ (b : Buf) (max : ℕ) (fits : max ≤ b.size) (name : List ℕ) where
  compare_lem :
      (c : ℕ) (r : Entry) (rs : List Entry) (rest : Option ℕ)
      → Tidy b c (r ∷ rs) max
      → (if not (r.inode == 0) && (length r.name == length name)
          then (do
            raw ← name_bytes b (c + 8) (length name)
            if same_bytes raw name then ok (some r.inode) else ok rest)
          else ok rest)
        ≡ ok (if not (r.inode == 0) && same_bytes r.name name then some r.inode else rest)
  compare_lem c r rs rest ((_, _, _, s), w, t) =
      let k = Tidy-le b (c + r.record_length) rs max t in
      elim (ℕ_discrete (length r.name) (length name)) [
        | no ne ↦
            rw (==_ne (length r.name) (length name) ne, same_bytes-length_ne r.name name ne)
              (ground arith)
        | yes e ↦
            let raw : list_from b.byte (length name) (c + 8) ≡ r.name =
              ap (λ n. list_from b.byte n (c + 8)) (sym e) ∙ s in
            rw
              (
                e,
                ==_refl (length name),
                name_bytes-ok b (c + 8) (length name) (omega (arith, w.0, e)),
                raw,
              )
              (ground arith)
      ]

  scan_loop-Tidy :
      (fuel c : ℕ) (rs : List Entry)
      → Tidy b c rs max
      → max ≤ c + fuel
      → scan_loop b name max fuel c ≡ ok (find_entry name rs)
  unfolding scan_loop find_entry
  scan_loop-Tidy zero c [] t h = refl
  scan_loop-Tidy zero c (r ∷ rs) (s, w, t) h =
      absurd (omega (arith, w.0, Tidy-le b (c + r.record_length) rs max t))
  scan_loop-Tidy (suc fuel) c [] t h = rw (lt→leb (c + 8) max (omega arith))
  scan_loop-Tidy (suc fuel) c (r ∷ rs) (s, w, t) h =
      let k = Tidy-le b (c + r.record_length) rs max t in
      let room : c + 8 ≤ max = omega (arith, w.0) in
      rw
        (
          le→leb (c + 8) max room,
          header-ok b max fits c room,
          Tidy-header b max fits c r rs (s, w, t),
          scan_loop-Tidy fuel (c + r.record_length) rs t (omega (arith, w.0)),
        )
        (compare_lem c r rs (find_entry name rs) (s, w, t))

  pub scan_block-Tidy :
      (rs : List Entry) → Tidy b 0 rs max → scan_block b name max ≡ ok (find_entry name rs)
  unfolding scan_block
  scan_block-Tidy rs t = scan_loop-Tidy max 0 rs t (omega arith)
