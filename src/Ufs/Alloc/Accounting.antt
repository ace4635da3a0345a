-- ===== src/Ufs/Alloc/Accounting.antt =====
-- The accounts of a file system: its counts of free inodes against its maps of used inodes, and that
-- `allocate_inode` and `free_inode` keep them.
pub mod Kept
pub mod Machine
use ufs_fuse.Base.{
  ℕ, zero, suc, ◌+◌, ◌*◌, ◌/◌, ◌%◌, ◌^◌, ◌≤◌, ◌<◌, ◌≡◌, ◌≢◌, ◌⊎◌, inl, inr, refl, sym, ap, ◌∙◌,
  subst, Bool, true, false, ◌&&◌, Option, ok, Reply, done, failed, no_free_inodes, ◌==◌,
  if◌then◌else◌, arith, ℤ, pos, negsuc, from_i32, ==_refl, ==_ne, ℕ_discrete, sum_to, sum_to-same,
  sum_to-one, sum_to_le, le-sum_to,
}
use ufs_fuse.Core.Image.{Buf}
use ufs_fuse.Core.Codec.{peek32}
use ufs_fuse.Core.Consts.{ufs_cg_cs_nifree_offset, ufs_fs_cstotal_nifree_offset}
use ufs_fuse.Ufs.Superblock.{Ufs}
use ufs_fuse.Ufs.Alloc.Inodes.{allocate_inode, free_inode}
use ufs_fuse.Ufs.Alloc.Edit.{adjusted, peek32_ext}
use ufs_fuse.Ufs.Alloc.Mounted.{Formatted, is_used, Changed}
use ufs_fuse.Ufs.Alloc.InodeLaws.{IsTaken, IsExhausted, allocate_inode_lem}
use ufs_fuse.Ufs.Alloc.FreeLaws.{free_inode_lem}

-- What an inode adds to the count of free ones.
abbrev pub free_one : Bool → ℕ
free_one true = 0
free_one false = 1

module _ (ufs : Ufs) (base : ℕ → ℕ) where
  -- How many inodes of group `g` are not in use by its map, and how many of all groups.
  unfoldable pub free_in_group : Buf → ℕ → ℕ
  free_in_group image g = sum_to (λ k. free_one (is_used image (base g) k)) ufs.sb.ipg

  unfoldable pub free_in_all : Buf → ℕ
  free_in_all image = sum_to (free_in_group image) ufs.sb.ncg

  -- The accounts are in order: the count of free inodes of every group, and that of the superblock, are
  -- those of the maps.
  pub record IsCounted (image : Buf) : Type 0 where
    pub formatted : Formatted image ufs base
    pub few : ufs.sb.ncg * ufs.sb.ipg < 2 ^ 32
    pub group :
        (g : ℕ)
        → g < ufs.sb.ncg
        → peek32 image (base g + ufs_cg_cs_nifree_offset) ≡ free_in_group image g
    pub total : peek32 image (ufs.super_offset + ufs_fs_cstotal_nifree_offset) ≡ free_in_all image

  module _ (on dir : Bool) (d e' : ℤ) (image image' : Buf) (g l : ℕ) (hg : g < ufs.sb.ncg)
      (hl : l < ufs.sb.ipg) (f : Formatted image ufs base)
      (c : Changed on dir d e' ufs base g l image image') where
    pub used_other :
        (h k : ℕ)
        → h < ufs.sb.ncg
        → k < ufs.sb.ipg
        → (h ≢ g) ⊎ (k ≢ l)
        → is_used image' (base h) k ≡ is_used image (base h) k
    used_other h k p q (inl ne) = c.used h k p q ∙ (rw (==_ne g h (λ e. ne (sym e))) refl)
    used_other h k p q (inr ne) = c.used h k p q ∙ (rw (==_ne l k (λ e. ne (sym e))) (ground arith))

    pub used_self : is_used image' (base g) l ≡ on
    used_self = c.used g l hg hl ∙ (rw (==_refl g, ==_refl l) refl)

    free_in_group_other :
        (h : ℕ) → h < ufs.sb.ncg → h ≢ g → free_in_group image' h ≡ free_in_group image h
    unfolding free_in_group
    free_in_group_other h p ne =
        sum_to-same _ _ ufs.sb.ipg (λ k q. ap free_one (used_other h k p q (inl ne)))

    pub free_in_group_edit :
        free_in_group image' g + free_one (is_used image (base g) l)
        ≡ free_in_group image g + free_one on
    unfolding free_in_group
    free_in_group_edit =
        sum_to-one (λ k. free_one (is_used image' (base g) k))
          (λ k. free_one (is_used image (base g) k)) ufs.sb.ipg l hl
          (λ k q ne. ap free_one (used_other g k hg q (inr ne)))
        ∙ ap (λ b. free_in_group image g + free_one b) used_self

    pub free_in_all_edit :
        free_in_all image' + free_in_group image g ≡ free_in_all image + free_in_group image' g
    unfolding free_in_all
    free_in_all_edit =
        sum_to-one (free_in_group image') (free_in_group image) ufs.sb.ncg g hg free_in_group_other

    nifree_other :
        (h : ℕ)
        → h < ufs.sb.ncg
        → h ≢ g
        → peek32 image' (base h + ufs_cg_cs_nifree_offset)
          ≡ peek32 image (base h + ufs_cg_cs_nifree_offset)
    nifree_other h p ne =
        let away = f.apart g h hg p (λ e. ne (sym e)) in
        let clear = f.clear h p in
        let large = f.bsize_ge in
        let o = base h + ufs_cg_cs_nifree_offset in
        peek32_ext image image' o o
          (λ i b. c.elsewhere (o + i) (omega arith) (omega arith) (omega arith))

    free_in_group_le : (h : ℕ) → free_in_group image' h ≤ ufs.sb.ipg
    unfolding free_in_group
    free_in_group_le h = omega (
      arith,
      sum_to_le (λ k. free_one (is_used image' (base h) k)) 1 ufs.sb.ipg
          (λ k p. free_one_le (is_used image' (base h) k)),
    )
      where
        free_one_le : (b : Bool) → free_one b ≤ 1
        free_one_le true = omega arith
        free_one_le false = omega arith

    free_in_all_le : free_in_all image' ≤ ufs.sb.ncg * ufs.sb.ipg
    unfolding free_in_all
    free_in_all_le =
        sum_to_le (free_in_group image') ufs.sb.ipg ufs.sb.ncg (λ h p. free_in_group_le h)

    -- The edit moves the counts as it moves the map.
    pub edited-IsCounted :
        IsCounted image
        → ((n : ℕ)
            → n + free_one on < 2 ^ 32 + free_one (is_used image (base g) l)
            → free_one (is_used image (base g) l) ≤ n + free_one on
            → adjusted n d + free_one (is_used image (base g) l) ≡ n + free_one on)
        → IsCounted image'
    edited-IsCounted w moved = record {
      formatted = c.formatted;
      few = w.few;
      group = λ h p. elim (ℕ_discrete h g) [
        | yes e ↦
            subst (λ x. peek32 image' (base x + ufs_cg_cs_nifree_offset) ≡ free_in_group image' x)
              (sym e) at_group
        | no ne ↦ nifree_other h p ne ∙ w.group h p ∙ sym (free_in_group_other h p ne)
      ];
      total = omega (arith, c.total_nifree, w.total, whole, free_in_all_edit, free_in_group_edit);
    }
      where
        n : ℕ
        n = peek32 image (base g + ufs_cg_cs_nifree_offset)

        large : ufs.sb.ipg < 2 ^ 32
        large = omega (arith, f.ipg_le)

        at_group : peek32 image' (base g + ufs_cg_cs_nifree_offset) ≡ free_in_group image' g
        at_group =
            let same =
              moved (free_in_group image g)
                (omega (arith, free_in_group_edit, free_in_group_le g, large))
                (omega (arith, free_in_group_edit)) in
            omega
              (arith, c.nifree ∙ ap (λ x. adjusted x d) (w.group g hg), same, free_in_group_edit)

        whole :
            adjusted (free_in_all image) d + free_one (is_used image (base g) l)
            ≡ free_in_all image + free_one on
        whole =
            moved (free_in_all image)
              (omega (arith, free_in_group_edit, free_in_all_edit, free_in_all_le, w.few))
              (omega (arith, free_in_group_edit, free_in_all_edit))
