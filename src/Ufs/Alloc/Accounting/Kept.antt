-- ===== src/Ufs/Alloc/Accounting/Kept.antt =====
-- `allocate_inode` and `free_inode` keep the accounts in order, and allocation finds a free inode.
use ufs_fuse.Base.{
  ℕ, ◌+◌, ◌^◌, ◌≤◌, ◌<◌, ◌≡◌, inl, inr, sym, ap, ◌∙◌, Bool, true, false, Option, Result, ok,
  ok-injective, done, arith, pos, negsuc, from_i32, Bool-cases, le-sum_to,
}
use ufs_fuse.Core.Image.{Buf}
use ufs_fuse.Ufs.Superblock.{Ufs}
use ufs_fuse.Ufs.Alloc.Inodes.{allocate_inode}
use ufs_fuse.Ufs.Alloc.Edit.{adjusted}
use ufs_fuse.Ufs.Alloc.Mounted.{is_used, Changed}
use ufs_fuse.Ufs.Alloc.InodeLaws.{IsTaken, IsExhausted, allocate_inode_lem}
use ufs_fuse.Ufs.Alloc.Accounting.{free_one, free_in_group, IsCounted, edited-IsCounted}

-- Two calls that come to the same have the same reply and leave the same image.
pub same_reply {ℓ} :
    {A : Type ℓ} {m : Result (A × Buf)} {a b : A} {x y : Buf}
    → m ≡ ok (a, x)
    → m ≡ ok (b, y)
    → (a ≡ b) × (x ≡ y)
same_reply p q = let e = ok-injective (sym p ∙ q) in (ap (λ t. t.0) e, ap (λ t. t.1) e)

one_less : (n : ℕ) → n < 2 ^ 32 + 1 → 1 ≤ n → adjusted n (negsuc 0) + 1 ≡ n
unfolding from_i32
one_less n h p = omega arith

one_more : (n : ℕ) → n + 1 < 2 ^ 32 → adjusted n (pos 1) ≡ n + 1
unfolding from_i32
one_more n h = omega arith

module _ (ufs : Ufs) (base : ℕ → ℕ) (image : Buf) (w : IsCounted ufs base image) where
  pub taken-IsCounted :
      (dir : Bool) (i : ℕ) (image' : Buf)
      → IsTaken ufs base dir image i image'
      → IsCounted ufs base image'
  taken-IsCounted dir i image' (g, l, e, hg, hl, free, c) =
      edited-IsCounted ufs base true dir (negsuc 0) (pos 1) image image' g l hg hl w.formatted c w
        (λ n h p. rw free (
          omega (
            arith,
            one_less n (omega (arith, h, ap free_one free)) (omega (arith, p, ap free_one free)),
          )))

  pub released-IsCounted :
      (dir : Bool) (g l : ℕ) (image' : Buf)
      → g < ufs.sb.ncg
      → l < ufs.sb.ipg
      → is_used image (base g) l ≡ true
      → Changed false dir (pos 1) (negsuc 0) ufs base g l image image'
      → IsCounted ufs base image'
  released-IsCounted dir g l image' hg hl used c =
      edited-IsCounted ufs base false dir (pos 1) (negsuc 0) image image' g l hg hl w.formatted c w
        (λ n h p. rw used (omega (arith, one_more n (omega (arith, h, ap free_one used)))))

  -- A group that counts none as free has none.
  pub exhausted_used :
      (dir : Bool) (g k : ℕ)
      → g < ufs.sb.ncg
      → k < ufs.sb.ipg
      → IsExhausted ufs base dir image g
      → is_used image (base g) k ≡ true
  unfolding free_in_group
  exhausted_used dir g k hg hk (inr all) = all k hk
  exhausted_used dir g k hg hk (inl none_free) = elim (Bool-cases (is_used image (base g) k)) [
    | inl u ↦ u
    | inr u ↦
        let one = le-sum_to (λ j. free_one (is_used image (base g) j)) ufs.sb.ipg k hk in
        absurd (omega (arith, one, ap free_one u, w.group g hg, none_free))
  ]

-- On a formatted file system with fewer than 2 ^ 32 inodes, where the counts of free inodes are those
-- of the maps and some inode is free, `allocate_inode`
-- succeeds, with any preferred inode and for a directory or not, and gives an inode that was free.
pub allocate_inode_finds :
    (ufs : Ufs) (base : ℕ → ℕ) (image : Buf) (preferred : Option ℕ) (dir : Bool) (g k : ℕ)
    → IsCounted ufs base image
    → g < ufs.sb.ncg
    → k < ufs.sb.ipg
    → is_used image (base g) k ≡ false
    → (i : ℕ) × (image' : Buf) × (allocate_inode image ufs preferred dir ≡ ok (done i, image'))
      × IsTaken ufs base dir image i image'
allocate_inode_finds ufs base image preferred dir g k w hg hk free =
    elim (allocate_inode_lem image ufs base preferred dir w.formatted) [
      | inl t ↦ t
      | inr (e, all) ↦
          let used = exhausted_used ufs base image w dir g k hg hk (all g hg) in absurd (cc)
    ]
