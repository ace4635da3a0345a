-- ===== src/Ufs/Inode/Tree.antt =====
-- What an indirect tree names, said of the tree alone, and that the walk without a limit finds it.
use ufs_fuse.Base.{
  ℕ, zero, suc, ◌≡◌, inl, inr, refl, sym, ap, Bool, true, false, none, List, [], ◌∷◌, ◌++◌,
  append-nil, append_assoc, Result, ok, panic, ◌>>=◌, map_ok, Result-cases, Bool-cases, ◌==◌, ==_ne,
  if◌then◌else◌, arith, Option,
}
use ufs_fuse.Core.Image.{Buf}
use ufs_fuse.Ufs.Superblock.{Ufs}
use ufs_fuse.Ufs.Inode.{
  collect_loop, collect_indirect_data_blocks, read_pointer_block, room, is_full, truncate, is_zero,
}

-- The lists that the pointers give, one behind the other.
unfoldable pub gather : (ℕ → Result (List ℕ)) → List ℕ → Result (List ℕ)
gather f [] = ok []
gather f (pointer ∷ pointers) = do xs ← f pointer; ys ← gather f pointers; ok (xs ++ ys)

-- The blocks of the file that a pointer names. The pointer 0 names none; any other names its block at
-- depth 0, and at a greater depth what the pointers that its block holds name.
unfoldable pub named : Buf → Ufs → (depth pointer : ℕ) → Result (List ℕ)
named image ufs zero pointer = ok (if pointer == 0 then [] else pointer ∷ [])
named image ufs (suc depth) pointer =
    let below = do
      pointers ← read_pointer_block image ufs pointer
      gather (named image ufs depth) pointers
    in if pointer == 0 then ok [] else below

module _ (last : Bool) (child : ℕ → Option ℕ → Result (List ℕ)) (f : ℕ → Result (List ℕ))
    (none_at_zero : (p : ℕ) → (p == 0) ≡ true → f p ≡ ok [])
    (found : (p : ℕ) (blocks : List ℕ)
      → (p == 0) ≡ false
      → (if last then ok (blocks ++ p ∷ []) else map_ok (λ ys. blocks ++ ys) (child p none))
        ≡ map_ok (λ ys. blocks ++ ys) (f p)) where
  loop-gather :
      (ps blocks : List ℕ)
      → collect_loop last child none ps blocks ≡ map_ok (λ ys. blocks ++ ys) (gather f ps)
  unfolding collect_loop gather is_full room truncate
  loop-gather [] blocks = ap ok (sym (append-nil blocks))
  loop-gather (p ∷ ps) blocks = elim (Bool-cases (p == 0)) [
    | inl z ↦ elim (Result-cases (gather f ps)) [
      | inl e ↦ rw (z, none_at_zero p z, loop-gather ps blocks, e) refl
      | inr (ys, e) ↦ rw (z, none_at_zero p z, loop-gather ps blocks, e) refl
    ]
    | inr z ↦ elim (Result-cases (f p)) [
      | inl e ↦ rw (z, found p blocks z, e) refl
      | inr (xs, e) ↦ elim (Result-cases (gather f ps)) [
        | inl g ↦ rw (z, found p blocks z, e, loop-gather ps (blocks ++ xs), g) refl
        | inr (ys, g) ↦
            rw (z, found p blocks z, e, loop-gather ps (blocks ++ xs), g)
              (ap ok (append_assoc blocks xs ys))
      ]
    ]
  ]

module _ (image : Buf) (ufs : Ufs) where
  named_zero : (d p : ℕ) → (p == 0) ≡ true → named image ufs d p ≡ ok []
  unfolding named
  named_zero zero p z = rw z refl
  named_zero (suc d) p z = rw z refl

  -- The body of the loop for the levels below, once those are known to be walked right.
  found_below :
      (d p : ℕ) (blocks : List ℕ)
      → ((e : ℕ)
          → d ≡ suc e
          → collect_indirect_data_blocks image ufs d p none ≡ named image ufs d p)
      → (p == 0) ≡ false
      → (if d == 0
          then ok (blocks ++ p ∷ [])
          else map_ok (λ ys. blocks ++ ys) (collect_indirect_data_blocks image ufs d p none))
        ≡ map_ok (λ ys. blocks ++ ys) (named image ufs d p)
  unfolding named
  found_below zero p blocks h z = rw z refl
  found_below (suc d) p blocks h z = rw (==_ne (suc d) 0 (λ e. omega arith), h d refl) refl

  -- Without a limit the code's walk finds what the tree names, panics included.
  pub collect-named :
      (d e p : ℕ)
      → d ≡ suc e
      → collect_indirect_data_blocks image ufs d p none ≡ named image ufs d p
  unfolding collect_indirect_data_blocks named is_zero
  collect-named zero e p h = absurd (omega arith)
  collect-named (suc d) e p h = elim (Bool-cases (p == 0)) [
    | inl z ↦ rw z refl
    | inr z ↦ elim (Result-cases (read_pointer_block image ufs p)) [
      | inl r ↦ rw (z, r) refl
      | inr (ps, r) ↦
          let walked =
            loop-gather (d == 0) (collect_indirect_data_blocks image ufs d) (named image ufs d)
              (named_zero d) (λ q blocks n. found_below d q blocks (λ e k. collect-named d e q k) n)
              ps [] in
          rw (z, r, walked) (same (gather (named image ufs d) ps))
    ]
  ]
    where
      same : (m : Result (List ℕ)) → map_ok (λ ys. [] ++ ys) m ≡ m
      same panic = refl
      same (ok ys) = refl
