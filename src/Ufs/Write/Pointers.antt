-- ===== src/Ufs/Write/Pointers.antt =====
-- write.rs: the indirect pointer trees.
use ufs_fuse.Base.{ℕ, zero, suc, ◌+◌, List, [], ◌∷◌, ◌++◌, length, take, drop, panic}
use ufs_fuse.Core.Consts.{ufs_ndaddr}
use ufs_fuse.Ufs.Superblock.{Ufs}
use ufs_fuse.Ufs.Alloc.Blocks.{allocate_block}
use ufs_fuse.Ufs.Write.Monad.{W, give, computes, writes, ◌>>=◌, ◌>>◌}
use ufs_fuse.Ufs.Write.Fields.{pow_usize, write_pointer_block, write_block_lists}

-- The loop over the chunks of `child_capacity` blocks, on fuel: the child roots and the number of
-- pointer blocks. A round takes at least one block where the capacity is not 0; for 0 the loop of the
-- source does not end.
unfoldable pub build_children :
    (List ℕ → W (ℕ × ℕ)) → (child_capacity fuel : ℕ) → List ℕ → List ℕ → ℕ → W (List ℕ × ℕ)
build_children child child_capacity fuel [] child_roots total = give (child_roots, total)
build_children child child_capacity zero (b ∷ bs) child_roots total = computes panic
build_children child child_capacity (suc fuel) (b ∷ bs) child_roots total = do
  (child_root, child_count) ← child (take child_capacity (b ∷ bs))
  build_children child child_capacity fuel (drop child_capacity (b ∷ bs))
      (child_roots ++ child_root ∷ []) (total + child_count)

-- The root block of a tree of `levels` over the blocks, and how many pointer blocks it has.
unfoldable pub build_pointer_tree : Ufs → (inode_number levels : ℕ) → List ℕ → W (ℕ × ℕ)
build_pointer_tree ufs inode_number levels [] = give (0, 0)
build_pointer_tree ufs inode_number zero (b ∷ bs) = computes panic
build_pointer_tree ufs inode_number (suc zero) (b ∷ bs) = do
  root_block ← λ image. allocate_block image ufs inode_number
  writes (λ image. write_pointer_block image ufs root_block (take ufs.sb.nindir (b ∷ bs)))
  give (root_block, 1)
build_pointer_tree ufs inode_number (suc (suc l)) (b ∷ bs) = do
  child_capacity ← computes (pow_usize ufs.sb.nindir (suc l))
  (child_roots, total) ←
      build_children (build_pointer_tree ufs inode_number (suc l)) child_capacity (length (b ∷ bs))
        (b ∷ bs) [] 1
  root_block ← λ image. allocate_block image ufs inode_number
  writes (λ image. write_pointer_block image ufs root_block child_roots)
  give (root_block, total)

-- `for levels in 1..4`, with `n` rounds left: the roots, and how many pointer blocks there are.
unfoldable pub build_roots :
    Ufs → (inode_number n levels : ℕ) → List ℕ → List ℕ → ℕ → W (List ℕ × ℕ)
build_roots ufs inode_number zero levels remaining roots total = give (roots, total)
build_roots ufs inode_number (suc n) levels remaining roots total = do
  level_capacity ← computes (pow_usize ufs.sb.nindir levels)
  (root_block, pointer_blocks) ←
      build_pointer_tree ufs inode_number levels (take level_capacity remaining)
  build_roots ufs inode_number n (levels + 1) (drop level_capacity remaining)
      (roots ++ root_block ∷ []) (total + pointer_blocks)

unfoldable pub build_inode_pointer_structure : Ufs → ℕ → List ℕ → W ℕ
build_inode_pointer_structure ufs inode_number data_blocks = do
  (roots, total) ← build_roots ufs inode_number 3 1 (drop ufs_ndaddr data_blocks) [] 0
  writes (λ image. write_block_lists image ufs inode_number (take ufs_ndaddr data_blocks) roots)
  give total
