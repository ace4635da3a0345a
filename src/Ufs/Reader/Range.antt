-- ===== src/Ufs/Reader/Range.antt =====
-- The bytes that `read_data_range` returns.
use ufs_fuse.Base.{
  ℕ, zero, suc, ◌+◌, ◌-◌, ◌*◌, ◌/◌, ◌%◌, ◌≤◌, ◌<◌, ◌≡◌, inl, inr, refl, sym, ap, ap₂, ◌∙◌, subst,
  false, ◌&&◌, List, [], ◌∷◌, length, min, ok, ltb, leb, ◌==◌, arith, Bool-cases, dec_lt, lt→ltb,
  le→ltb,
}
use native.Mathlib.Nat.{
  mod-lt, div-add-mod', mul-add-div, mul-add-mod_self_right, mul_comm, div-eq_of_lt, mod-eq_of_lt,
  mul-le-mul_right,
}
use ufs_fuse.Core.Image.{Buf, zeroed, slice-ok}
use ufs_fuse.Ufs.Superblock.{Ufs, data_block_offset}
use ufs_fuse.Ufs.Bitmap.{div_ceil}
use ufs_fuse.Ufs.Reader.{extend, range_loop, read_data_range}

module _ (image : Buf) (ufs : Ufs) (addr : ℕ → ℕ) where
  -- The blocks, the first with the index `i`, lie at `addr i`, `addr (i + 1)` and so on, in the image.
  abbrev pub Located : ℕ → List ℕ → Type 0
  Located i [] = Unit {0}
  Located i (b ∷ bs) =
      (data_block_offset ufs.sb ufs.start_offset b ≡ ok (addr i))
      × (addr i + ufs.sb.bsize ≤ image.size)
      × Located (i + 1) bs

  -- The byte at place `p` of the file.
  abbrev pub file_byte : ℕ → ℕ
  file_byte p = image.byte (addr (p / ufs.sb.bsize) + p % ufs.sb.bsize)

  -- `acc` holds the bytes of the file from `lo` up to `hi`.
  abbrev pub Holds : ℕ → ℕ → Buf → Type 0
  Holds lo hi acc =
      (acc.size ≡ hi - lo) × ((j : ℕ) → j < acc.size → acc.byte j ≡ file_byte (lo + j))

  module _ (hb : 0 < ufs.sb.bsize) (lo hi first last : ℕ) where
    abbrev bs : ℕ
    bs = ufs.sb.bsize

    at_place : (i r : ℕ) → r < bs → file_byte (i * bs + r) ≡ image.byte (addr i + r)
    at_place i r h =
        let q : (i * bs + r) / bs ≡ i =
          rw (mul_comm i bs, mul-add-div {m = bs} hb i r, div-eq_of_lt h) (omega arith) in
        let m : (i * bs + r) % bs ≡ r = mul-add-mod_self_right i bs r ∙ mod-eq_of_lt h in
        ap₂ (λ x y. image.byte (addr x + y)) q m

    -- What is read from the block with the index `i`.
    abbrev piece : ℕ → Buf
    piece i =
        let s = addr i + (lo - i * bs) in
        record { size = addr i + min bs (hi - i * bs) - s; byte = λ a. image.byte (s + a) }

    extended :
        (i : ℕ) (acc : Buf)
        → lo - i * bs < min bs (hi - i * bs)
        → Holds lo (min hi (i * bs)) acc
        → Holds lo (min hi ((i + 1) * bs)) (extend acc (piece i))
    unfolding extend
    extended i acc h (size, bytes) = (omega arith, more)
      where
        more :
            (j : ℕ)
            → j < (extend acc (piece i)).size
            → (extend acc (piece i)).byte j ≡ file_byte (lo + j)
        more j k = elim (dec_lt j acc.size) [
          | yes p ↦ rw (lt→ltb j acc.size p) (bytes j p)
          | no p ↦
              let r = lo + j - i * bs in
              let e : lo + j ≡ i * bs + r = omega arith in
              rw (le→ltb j acc.size (omega arith))
                (ap image.byte (omega arith) ∙ sym (ap file_byte e ∙ at_place i r (omega arith)))
        ]

    -- A block that is skipped holds nothing of the range.
    skipped :
        (i n : ℕ) (acc : Buf)
        → lo / bs ≡ first
        → last ≡ min (i + suc n) (div_ceil hi bs)
        → (leb first i && ltb i last && ltb (lo - i * bs) (min bs (hi - i * bs))) ≡ false
        → Holds lo (min hi (i * bs)) acc
        → Holds lo (min hi ((i + 1) * bs)) acc
    skipped i n acc p q t (size, bytes) = (size ∙ same, bytes)
      where
        before : i < first → (i + 1) * bs ≤ lo
        before k =
            omega (
              arith,
              mul-le-mul_right {m = i + 1} {n = lo / bs} bs (omega arith),
              div-add-mod' lo bs,
            )

        beyond : last ≤ i → hi ≤ i * bs
        beyond k = omega (
          arith,
          mul-le-mul_right {m = div_ceil hi bs} {n = i} bs (omega arith),
          div-add-mod' (hi + bs - 1) bs,
          mod-lt (hi + bs - 1) hb,
        )

        same : min hi (i * bs) - lo ≡ min hi ((i + 1) * bs) - lo
        same = elim (dec_lt i first) [
          | yes k ↦ omega (arith, before k)
          | no k ↦ elim (dec_lt i last) [
            | no m ↦ omega (arith, beyond (omega arith))
            | yes m ↦
                let none_there : min bs (hi - i * bs) ≤ lo - i * bs = ground (arith, t) in
                omega arith
          ]
        ]

    range_loop_lem :
        (xs : List ℕ) (i : ℕ) (acc : Buf)
        → Located i xs
        → lo / bs ≡ first
        → last ≡ min (i + length xs) (div_ceil hi bs)
        → Holds lo (min hi (i * bs)) acc
        → (out : Buf) × (range_loop image ufs lo hi first last xs i acc ≡ ok out)
          × Holds lo (min hi ((i + length xs) * bs)) out
    unfolding range_loop
    range_loop_lem [] i acc l p q h =
        let e : i ≡ i + 0 = omega arith in
        (acc, refl, subst (λ n. Holds lo (min hi (n * bs)) acc) e h)
    range_loop_lem (x ∷ xs) i acc (o, c, l) p q h =
        let e : i + 1 + length xs ≡ i + suc (length xs) = omega arith in
        let q' = q ∙ ap (λ n. min n (div_ceil hi bs)) (sym e) in
        let to_end = λ (out : Buf). subst (λ n. Holds lo (min hi (n * bs)) out) e in
        elim (Bool-cases (leb first i && ltb i last && ltb (lo - i * bs) (min bs (hi - i * bs)))) [
          | inl t ↦
              let some_bytes : lo - i * bs < min bs (hi - i * bs) = ground (arith, t) in
              let (out, r, w) =
                range_loop_lem xs (i + 1) (extend acc (piece i)) l p q'
                  (extended i acc some_bytes h) in
              let read =
                slice-ok image (addr i + (lo - i * bs)) (addr i + min bs (hi - i * bs))
                  (omega arith) (omega arith) in
              (out, rw (t, o, read) r, to_end out w)
          | inr t ↦
              let same = skipped i (length xs) acc p q t h in
              let (out, r, w) = range_loop_lem xs (i + 1) acc l p q' same in
              (out, rw t r, to_end out w)
        ]

-- Where the block size is not 0 and every block lies inside the image, reading a range does not panic, and gives the bytes of the
-- file from `offset` on, `size` of them or as many as the blocks hold: byte `j` is at place
-- `(offset + j) % bsize` of block `(offset + j) / bsize`.
pub read_data_range_lem :
    (image : Buf) (ufs : Ufs) (addr : ℕ → ℕ) (blocks : List ℕ) (offset size : ℕ)
    → 0 < ufs.sb.bsize
    → Located image ufs addr 0 blocks
    → (out : Buf) × (read_data_range image ufs blocks offset size ≡ ok out)
      × (out.size ≡ min size (length blocks * ufs.sb.bsize - offset))
      × ((j : ℕ) → j < out.size → out.byte j ≡ file_byte image ufs addr (offset + j))
unfolding read_data_range zeroed
read_data_range_lem image ufs addr blocks offset zero hb l =
    (zeroed 0, refl, omega arith, λ j k. absurd (omega arith))
read_data_range_lem image ufs addr blocks offset (suc size) hb l =
    let (out, r, w) =
      range_loop_lem image ufs addr hb offset (offset + suc size) (offset / ufs.sb.bsize)
        (min (length blocks) (div_ceil (offset + suc size) ufs.sb.bsize)) blocks 0 (zeroed 0) l refl
        (omega arith) (omega arith, λ j k. absurd (omega arith)) in
    let some_bytes : (suc size == 0) ≡ false = ground arith in
    (out, rw some_bytes r, omega (arith, w.0), w.1)
