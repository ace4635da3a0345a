-- ===== src/Ufs/Inode/Blocks.antt =====
-- The data blocks of an inode are the first blocks, as many as its size needs, of all that its
-- pointers name.
use ufs_fuse.Base.{
  ℕ, ◌+◌, ◌≤◌, ◌≡◌, Bool, true, false, List, [], ◌∷◌, ◌++◌, Result, ok, ◌>>=◌, ◌==◌, if◌then◌else◌,
  length, take,
}
use ufs_fuse.Core.Image.{Buf}
use ufs_fuse.Ufs.Superblock.{Ufs}
use ufs_fuse.Ufs.Inode.{Inode}
use ufs_fuse.Ufs.Inode.Tree.{named}

-- The pointers that are in use.
unfoldable pub nonzero : List ℕ → List ℕ
nonzero [] = []
nonzero (b ∷ bs) = if b == 0 then nonzero bs else b ∷ nonzero bs

module _ (image : Buf) (ufs : Ufs) where
  -- What the indirect roots name, the first at depth `levels`.
  unfoldable pub all_indirect : ℕ → List ℕ → Result (List ℕ)
  all_indirect levels [] = ok []
  all_indirect levels (root ∷ roots) = do
    below ← named image ufs levels root
    rest ← all_indirect (levels + 1) roots
    ok (below ++ rest)

  -- All blocks that the pointers of an inode name, in logical order.
  unfoldable pub all_blocks : Inode → Result (List ℕ)
  all_blocks inode = do
    below ← all_indirect 1 inode.indirect_blocks
    ok (nonzero inode.direct_blocks ++ below)

-- What the direct loop leaves: as many blocks as are needed, or else all there are, and no more than
-- are needed.
abbrev Found : ℕ → List ℕ → List ℕ → Bool × List ℕ → Type 0
Found n target rest (true, found) = found ≡ take n (target ++ rest)
Found n target rest (false, found) = (found ≡ target) × (length found ≤ n)
