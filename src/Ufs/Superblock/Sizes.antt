-- ===== src/Ufs/Superblock/Sizes.antt =====
-- The allocation sizes of a file, against a closed form.
use ufs_fuse.Base.{
  ℕ, zero, suc, ◌+◌, ◌-◌, ◌*◌, ◌/◌, ◌%◌, ◌≤◌, ◌<◌, ◌≡◌, refl, sym, ap, ◌∙◌, List, [], ◌∷◌, ◌++◌,
  ltb, ◌==◌, if◌then◌else◌, min, arith, dec_lt, length, length-append, replicate, length-replicate,
  sum, sum-append, sum-replicate,
}
use native.Mathlib.Nat.{
  div-eq_of_lt, mod-eq_of_lt, mod-eq-sub-mod, add-div_right, div-add-mod, div-add-mod', mod-lt,
  mul-add-div,
}
use ufs_fuse.Core.Consts.{ufs_ndaddr}
use ufs_fuse.Ufs.Superblock.{Superblock, fragroundup, sizes_loop, allocation_byte_sizes}

module _ (sb : Superblock) where
  -- The last, partial block: a whole block in a file that needs indirect blocks, and otherwise as
  -- many fragments as hold it.
  abbrev pub tail_sizes : ℕ → ℕ → List ℕ
  tail_sizes needed_blocks zero = []
  tail_sizes needed_blocks (suc t) =
      (if ltb ufs_ndaddr needed_blocks then sb.bsize else fragroundup sb (suc t)) ∷ []

  abbrev pub closed_form : ℕ → ℕ → List ℕ
  closed_form needed_blocks remaining =
      replicate (remaining / sb.bsize) sb.bsize ++ tail_sizes needed_blocks (remaining % sb.bsize)

  sizes_loop-zero : (fuel n : ℕ) → sizes_loop sb fuel n 0 ≡ []
  unfolding sizes_loop
  sizes_loop-zero zero n = refl
  sizes_loop-zero (suc fuel) n = refl

  tail_sizes-pos :
      (n t : ℕ)
      → 0 < t
      → tail_sizes n t ≡ (if ltb ufs_ndaddr n then sb.bsize else fragroundup sb t) ∷ []
  tail_sizes-pos n zero h = absurd (omega arith)
  tail_sizes-pos n (suc t) h = refl

  module _ (hb : 0 < sb.bsize) (n : ℕ) where
    closed_form-zero : closed_form n 0 ≡ []
    closed_form-zero = rw (div-eq_of_lt hb, mod-eq_of_lt hb)

    closed_form-short :
        (r : ℕ)
        → 0 < r
        → r < sb.bsize
        → closed_form n r ≡ (if ltb ufs_ndaddr n then sb.bsize else fragroundup sb r) ∷ []
    closed_form-short r h p = rw (div-eq_of_lt p, mod-eq_of_lt p) (tail_sizes-pos n r h)

    closed_form-long :
        (r : ℕ) → sb.bsize ≤ r → closed_form n r ≡ sb.bsize ∷ closed_form n (r - sb.bsize)
    closed_form-long r p =
        let q : r / sb.bsize ≡ suc ((r - sb.bsize) / sb.bsize) =
          ap (λ x. x / sb.bsize) (omega arith) ∙ add-div_right (r - sb.bsize) hb ∙ omega arith in
        rw (q, mod-eq-sub-mod p)

    pub sizes_loop_lem : (fuel r : ℕ) → r ≤ fuel → sizes_loop sb fuel n r ≡ closed_form n r
    unfolding sizes_loop
    sizes_loop_lem zero r h =
        let e : r ≡ 0 = omega arith in sym (ap (closed_form n) e ∙ closed_form-zero)
    sizes_loop_lem (suc fuel) zero h = sym closed_form-zero
    sizes_loop_lem (suc fuel) (suc r) h = elim (dec_lt (suc r) sb.bsize) [
      | yes p ↦
          let e : suc r - sb.bsize ≡ 0 = omega arith in
          let stop = ap (sizes_loop sb fuel n) e ∙ sizes_loop-zero fuel n in
          let whole : min sb.bsize (suc r) ≡ suc r = omega arith in
          ground (arith, closed_form-short (suc r), stop, ap (fragroundup sb) whole)
      | no p ↦ ground (arith, closed_form-long (suc r), sizes_loop_lem fuel (suc r - sb.bsize))
    ]

-- With a fragment size that is not 0, rounding up to fragments covers the size, with less than a
-- fragment to spare.
pub fragroundup_bounds :
    (sb : Superblock) (t : ℕ)
    → 0 < sb.fsize
    → (t ≤ fragroundup sb t) × (fragroundup sb t < t + sb.fsize)
unfolding fragroundup
fragroundup_bounds sb t h =
    ground (arith, div-add-mod' (t + sb.fsize - 1) sb.fsize, mod-lt (t + sb.fsize - 1) h)

-- With a block size that is not 0, the allocation sizes of a file of `size` bytes are: a whole block for each whole block of data, then
-- for a partial last block either another whole block, if the file needs more than the 12 direct
-- blocks, or the fragments that hold it. The loop of the source ends, and computes this.
pub allocation_byte_sizes_lem :
    (sb : Superblock) (size : ℕ)
    → 0 < sb.bsize
    → allocation_byte_sizes sb size ≡ closed_form sb ((size + sb.bsize - 1) / sb.bsize) size
unfolding allocation_byte_sizes
allocation_byte_sizes_lem sb zero hb = sym (closed_form-zero sb hb _)
allocation_byte_sizes_lem sb (suc m) hb =
    ground (arith, sizes_loop_lem sb hb ((suc m + sb.bsize - 1) / sb.bsize) (suc m) (suc m))

-- The number of blocks that hold `size` bytes, in the form that the closed form counts.
div_ceil_lem :
    (size b : ℕ) → 0 < b → (size + b - 1) / b ≡ size / b + (if size % b == 0 then 0 else 1)
div_ceil_lem size b h =
    let q = size / b in
    let r = size % b in
    let split : size + b - 1 ≡ b * q + (r + b - 1) = omega (arith, div-add-mod size b) in
    let regroup = ap (λ x. x / b) split ∙ mul-add-div h q (r + b - 1) in
    elim (dec_lt 0 r) [
      | yes p ↦
          let e : (r + b - 1) / b ≡ 1 + (r - 1) / b =
            ap (λ x. x / b) (omega arith) ∙ mul-add-div h 1 (r - 1) in
          ground (arith, regroup, e, mod-lt size h, div-eq_of_lt {n = r - 1} {m = b})
      | no p ↦ ground (arith, regroup, div-eq_of_lt {n = r + b - 1} {m = b})
    ]

module _ (sb : Superblock) (n : ℕ) (hb : 0 < sb.bsize) (hf : 0 < sb.fsize) where
  tail_sizes_bounds :
      (t : ℕ)
      → t < sb.bsize
      → (t ≤ sum (tail_sizes sb n t))
        × (length (tail_sizes sb n t) ≡ (if t == 0 then 0 else 1))
        × (sum (tail_sizes sb n t) < t + (if ltb ufs_ndaddr n then sb.bsize else sb.fsize))
  tail_sizes_bounds zero h = (omega arith, refl, ground arith)
  tail_sizes_bounds (suc t) h = ground (arith, fragroundup_bounds sb (suc t) hf)

-- Where the block and the fragment size are not 0:
-- a file of `size` bytes gets one allocation for each block that it needs. Together they hold the
-- file, and they exceed it by less than a fragment if the 12 direct blocks are enough, and by less
-- than a block otherwise.
pub allocation_byte_sizes_bounds :
    (sb : Superblock) (size : ℕ)
    → 0 < sb.bsize
    → 0 < sb.fsize
    → let needed = (size + sb.bsize - 1) / sb.bsize in
      let sizes = allocation_byte_sizes sb size in
      (length sizes ≡ needed)
      × (size ≤ sum sizes)
      × (sum sizes < size + (if ltb ufs_ndaddr needed then sb.bsize else sb.fsize))
allocation_byte_sizes_bounds sb size hb hf =
    let b = sb.bsize in
    let needed = (size + b - 1) / b in
    let whole = replicate (size / b) b in
    let t = tail_sizes sb needed (size % b) in
    let bounds = tail_sizes_bounds sb needed hb hf (size % b) (mod-lt size hb) in
    let split = div-add-mod' size b in
    let counted = length-replicate (size / b) b in
    let held = sum-replicate (size / b) b in
    rw (allocation_byte_sizes_lem sb size hb) (
      length-append whole t ∙ omega (arith, counted, bounds.1, div_ceil_lem size b hb),
      omega (arith, sum-append whole t, held, bounds.0, split),
      omega (arith, sum-append whole t, held, bounds.2, split),
    )
