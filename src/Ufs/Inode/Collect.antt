-- ===== src/Ufs/Inode/Collect.antt =====
-- A walk of an indirect tree under a limit yields the first blocks of the walk without one.
use ufs_fuse.Base.{
  ℕ, zero, suc, ◌-◌, ◌<◌, ◌≡◌, inl, inr, refl, sym, ap, ◌∙◌, Bool, true, false, Option, none, some,
  List, [], ◌∷◌, ◌++◌, append-nil, append_assoc, Result, ok, >>=-eq-ok, Result-cases, ok-injective,
  map_ok, Bool-cases, tests, leb, ◌==◌, if◌then◌else◌, arith, length, length-append, take,
  take-append_le, take-append, take_all, length-take,
}
use ufs_fuse.Core.Image.{Buf}
use ufs_fuse.Ufs.Superblock.{Ufs}
use ufs_fuse.Ufs.Inode.{
  collect_loop, collect_indirect_data_blocks, read_pointer_block, room, is_full, truncate, is_zero,
}

module _ (last : Bool) (child : ℕ → Option ℕ → Result (List ℕ)) where
  -- What the loop finds at one pointer without a limit.
  abbrev found : ℕ → Result (List ℕ)
  found pointer = if last then ok (pointer ∷ []) else child pointer none

  loop_nil : (max : Option ℕ) (blocks : List ℕ) → collect_loop last child max [] blocks ≡ ok blocks
  unfolding collect_loop
  loop_nil max blocks = refl

  step_zero :
      (max : Option ℕ) (pointer : ℕ) (pointers blocks : List ℕ)
      → (pointer == 0) ≡ true
      → collect_loop last child max (pointer ∷ pointers) blocks
        ≡ collect_loop last child max pointers blocks
  unfolding collect_loop
  step_zero max pointer pointers blocks e = rw e

  step_inv :
      (pointer : ℕ) (pointers blocks xs : List ℕ)
      → (pointer == 0) ≡ false
      → collect_loop last child none (pointer ∷ pointers) blocks ≡ ok xs
      → (ys : List ℕ) × (found pointer ≡ ok ys)
        × (collect_loop last child none pointers (blocks ++ ys) ≡ ok xs)
  unfolding collect_loop is_full room truncate
  step_inv pointer pointers blocks xs e h = go last refl
    where
      go :
          (b : Bool)
          → last ≡ b
          → (ys : List ℕ) × (found pointer ≡ ok ys)
            × (collect_loop last child none pointers (blocks ++ ys) ≡ ok xs)
      go true l = (pointer ∷ [], ground arith, ground arith)
      go false l = elim (Result-cases (child pointer none)) [
        | inl p ↦ absurd (ground arith)
        | inr (ys, p) ↦ (ys, ground arith, ground arith)
      ]

  -- The loop's result begins with what had been collected before.
  loop_prefix :
      (pointers blocks xs : List ℕ)
      → collect_loop last child none pointers blocks ≡ ok xs
      → (rest : List ℕ) × (xs ≡ blocks ++ rest)
  unfolding collect_loop
  loop_prefix [] blocks xs h = ([], sym (ok-injective h) ∙ sym (append-nil blocks))
  loop_prefix (pointer ∷ pointers) blocks xs h = elim (Bool-cases (pointer == 0)) [
    | inl e ↦ loop_prefix pointers blocks xs (rw (step_zero none pointer pointers blocks e) at h)
    | inr e ↦
        let (ys, _, k) = step_inv pointer pointers blocks xs e h in
        let (rest, q) = loop_prefix pointers (blocks ++ ys) xs k in
        (ys ++ rest, q ∙ append_assoc blocks ys rest)
  ]

  module _ (m : ℕ)
      (limited : (pointer k : ℕ) (ys : List ℕ)
        → child pointer none ≡ ok ys
        → child pointer (some k) ≡ ok (take k ys)) where
    found_limited :
        (pointer : ℕ) (blocks ys : List ℕ)
        → length blocks < m
        → found pointer ≡ ok ys
        → (if last
            then ok (blocks ++ pointer ∷ [])
            else map_ok (λ zs. blocks ++ zs) (child pointer (some (m - length blocks))))
          ≡ ok (take m (blocks ++ ys))
    found_limited pointer blocks ys h e = go last refl
      where
        cut : take m (blocks ++ ys) ≡ blocks ++ take (m - length blocks) ys
        cut = take-append m blocks ys (omega arith)

        go :
            (b : Bool)
            → last ≡ b
            → (if last
                then ok (blocks ++ pointer ∷ [])
                else map_ok (λ zs. blocks ++ zs) (child pointer (some (m - length blocks))))
              ≡ ok (take m (blocks ++ ys))
        go true l =
            let one : ys ≡ pointer ∷ [] = ground arith in
            let whole =
              take_all m (blocks ++ pointer ∷ [])
                (omega (arith, length-append blocks (pointer ∷ []))) in
            rw (l, one) (ap ok (sym whole))
        go false l =
            let from : child pointer none ≡ ok ys = ground arith in
            rw (l, limited pointer (m - length blocks) ys from, cut)

    step_limited :
        (pointer : ℕ) (pointers blocks ys : List ℕ)
        → (pointer == 0) ≡ false
        → length blocks < m
        → found pointer ≡ ok ys
        → collect_loop last child (some m) (pointer ∷ pointers) blocks ≡ (
            let full = take m (blocks ++ ys) in
            if leb m (length full)
            then ok (take m full)
            else collect_loop last child (some m) pointers full)
    unfolding collect_loop room is_full truncate
    step_limited pointer pointers blocks ys e h f = rw (e, found_limited pointer blocks ys h f)

    loop_take :
        (pointers blocks xs : List ℕ)
        → length blocks < m
        → collect_loop last child none pointers blocks ≡ ok xs
        → collect_loop last child (some m) pointers blocks ≡ ok (take m xs)
    loop_take [] blocks xs h e =
        let same = ok-injective (sym (loop_nil none blocks) ∙ e) in
        loop_nil (some m) blocks ∙ ap ok (sym (take_all m blocks (omega arith)) ∙ ap (take m) same)
    loop_take (pointer ∷ pointers) blocks xs h e = elim (Bool-cases (pointer == 0)) [
      | inl z ↦
          step_zero (some m) pointer pointers blocks z
          ∙ loop_take pointers blocks xs h (sym (step_zero none pointer pointers blocks z) ∙ e)
      | inr z ↦
          let (ys, f, k) = step_inv pointer pointers blocks xs z e in
          let (rest, q) = loop_prefix pointers (blocks ++ ys) xs k in
          let step = step_limited pointer pointers blocks ys z h f in
          let size = length-take m (blocks ++ ys) in
          elim (Bool-cases (leb m (length (take m (blocks ++ ys))))) [
            | inl l ↦
                step
                ∙ rw l (
                    ap ok (
                      take_all m (take m (blocks ++ ys)) (omega (arith, size))
                      ∙ sym (take-append_le m (blocks ++ ys) rest (omega (tests, size, l)))
                      ∙ ap (take m) (sym q)))
            | inr l ↦
                let short : length (blocks ++ ys) < m = omega (tests, size, l) in
                step
                ∙ rw l (
                    rw (take_all m (blocks ++ ys) (omega arith))
                      (loop_take pointers (blocks ++ ys) xs short k))
          ]
    ]

is_zero-suc : (m : ℕ) → is_zero (some (suc m)) ≡ false
unfolding is_zero
is_zero-suc m = ground arith

none_taken : (m : ℕ) (xs : List ℕ) → [] ≡ xs → ok [] ≡ ok (take m xs)
none_taken m xs h = ap ok (sym (take_all m [] (omega arith)) ∙ ap (take m) h)

module _ (image : Buf) (ufs : Ufs) where
  -- Under a limit of `m` blocks the walk of an indirect tree returns the first `m` blocks of the walk
  -- with no limit, wherever that one does not panic.
  pub collect_indirect_data_blocks-take :
      (levels fs_block m : ℕ) (xs : List ℕ)
      → collect_indirect_data_blocks image ufs levels fs_block none ≡ ok xs
      → collect_indirect_data_blocks image ufs levels fs_block (some m) ≡ ok (take m xs)
  unfolding collect_indirect_data_blocks is_zero
  collect_indirect_data_blocks-take zero b m xs e = none_taken m xs (ok-injective e)
  collect_indirect_data_blocks-take (suc l) b zero xs e = ground arith
  collect_indirect_data_blocks-take (suc l) b (suc m) xs e = elim (Bool-cases (b == 0)) [
    | inl z ↦ rw z (none_taken (suc m) xs (ok-injective (rw z at e)))
    | inr z ↦
        let (ps, r, k) = >>=-eq-ok (read_pointer_block image ufs b) _ (rw z at e) in
        let child = collect_indirect_data_blocks image ufs l in
        let below = λ (p n : ℕ) (ys : List ℕ). collect_indirect_data_blocks-take l p n ys in
        rw (z, is_zero-suc m, r) (loop_take (l == 0) child (suc m) below ps [] xs (omega arith) k)
  ]
