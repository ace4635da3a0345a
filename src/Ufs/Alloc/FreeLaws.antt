-- ===== src/Ufs/Alloc/FreeLaws.antt =====
-- `free_inode`, and that it undoes `allocate_inode`.
use ufs_fuse.Base.{
  ℕ, ◌+◌, ◌*◌, ◌/◌, ◌%◌, ◌^◌, ◌<◌, ◌≡◌, inl, inr, refl, sym, ap, ◌∙◌, subst, Bool, true, false,
  ◌&&◌, Option, Result, ok, Reply, done, failed, already_free, ◌==◌, if◌then◌else◌, arith, pos,
  negsuc, from_i32, ==_refl, ==_ne, ℕ_discrete, ap₂,
}
use native.Mathlib.Nat.{
  mod-lt, mod-eq_of_lt, div-eq_of_lt, mul-add-div, mul-add-mod_self_right, mul_comm,
}
use ufs_fuse.Core.Image.{Buf, IsBytes}
use ufs_fuse.Core.Codec.{peek32}
use ufs_fuse.Core.Consts.{ufs_cg_cs_nifree_offset, ufs_fs_cstotal_nifree_offset}
use ufs_fuse.Ufs.Superblock.{Ufs, itog}
use ufs_fuse.Ufs.Alloc.Inodes.{allocate_inode, free_inode}
use ufs_fuse.Ufs.Alloc.Edit.{adjusted}
use ufs_fuse.Ufs.Alloc.Mounted.{Formatted, is_used, edit_image, Changed}
use ufs_fuse.Ufs.Alloc.Edited.{edit_image-Changed}
use ufs_fuse.Ufs.Alloc.Steps.{read_cg_block-ok, magic-ok, is_inode_used-ok, release_inode-ok}
use ufs_fuse.Ufs.Alloc.InodeLaws.{IsTaken, allocate_inode_lem}

module _ (image : Buf) (ufs : Ufs) (base : ℕ → ℕ) (i : ℕ) (dir : Bool) where
  -- Freeing an inode of a formatted file system does not panic. A used inode becomes free, and no
  -- other changes its state; the counts of free inodes of its group and of the superblock rise by
  -- one, for a directory the counts of directories fall by one, no byte outside the block of the
  -- group and the counts changes, and the file system is still formatted. An inode that is already
  -- free is refused, and nothing changes.
  pub free_inode_lem :
      Formatted image ufs base
      → i / ufs.sb.ipg < ufs.sb.ncg
      → let g = i / ufs.sb.ipg in
        let l = i % ufs.sb.ipg in
        (is_used image (base g) l ≡ true
          → (image' : Buf) × (free_inode image ufs i dir ≡ ok (done tt, image'))
            × Changed false dir (pos 1) (negsuc 0) ufs base g l image image')
        × (is_used image (base g) l ≡ false
            → free_inode image ufs i dir ≡ ok (failed already_free, image))
  unfolding free_inode
  free_inode_lem f hg =
      let g = i / ufs.sb.ipg in
      let l = i % ufs.sb.ipg in
      let hl = mod-lt i f.ipg_pos in
      (
        λ used. (
          edit_image false dir (pos 1) (negsuc 0) ufs (base g) l image,
          rw (
            read_cg_block-ok image ufs base f g hg,
            magic-ok image ufs base f g hg,
            is_inode_used-ok image ufs base f g hg l hl,
            used,
            release_inode-ok image ufs base f g hg l hl dir,
          ),
          edit_image-Changed false dir (pos 1) (negsuc 0) ufs base image f g l hg hl,
        ),
        λ free. rw (
          read_cg_block-ok image ufs base f g hg,
          magic-ok image ufs base f g hg,
          is_inode_used-ok image ufs base f g hg l hl,
          free,
        ),
      )

peek32-lt : (b : Buf) (o : ℕ) → IsBytes b → peek32 b o < 2 ^ 32
unfolding peek32
peek32-lt b o h = omega (arith, h o, h (o + 1), h (o + 2), h (o + 3))

-- One less and one more is the count again.
adjusted_back : (n : ℕ) → n < 2 ^ 32 → adjusted (adjusted n (negsuc 0)) (pos 1) ≡ n
unfolding from_i32
adjusted_back n h = omega arith

pub number_lem : (g l n : ℕ) → l < n → ((g * n + l) / n ≡ g) × ((g * n + l) % n ≡ l)
number_lem g l n h = (
  rw (mul_comm g n, mul-add-div {m = n} (omega arith) g l, div-eq_of_lt h) (omega arith),
  mul-add-mod_self_right g n l ∙ mod-eq_of_lt h,
)

done-injective :
    {a b : ℕ} {x y : Buf}
    → ◌≡◌ {A = Result (Reply ℕ × Buf)} (ok (done a, x)) (ok (done b, y))
    → (a ≡ b) × (x ≡ y)
done-injective h = (cc, cc)

module _ (image : Buf) (ufs : Ufs) (base : ℕ → ℕ) (dir : Bool) (i : ℕ) (image1 : Buf) where
  -- The image is formatted, its map of used inodes is that of `image`, and so are the counts of free
  -- inodes in group `g` and in the superblock.
  abbrev pub IsRestored : ℕ → Buf → Type 0
  IsRestored g image2 =
      Formatted image2 ufs base
      × ((h k : ℕ)
          → h < ufs.sb.ncg
          → k < ufs.sb.ipg
          → is_used image2 (base h) k ≡ is_used image (base h) k)
      × (peek32 image2 (base g + ufs_cg_cs_nifree_offset)
          ≡ peek32 image (base g + ufs_cg_cs_nifree_offset))
      × (peek32 image2 (ufs.super_offset + ufs_fs_cstotal_nifree_offset)
          ≡ peek32 image (ufs.super_offset + ufs_fs_cstotal_nifree_offset))

  restored :
      (g l : ℕ)
      → Formatted image ufs base
      → g < ufs.sb.ncg
      → l < ufs.sb.ipg
      → is_used image (base g) l ≡ false
      → (c : Changed true dir (negsuc 0) (pos 1) ufs base g l image image1) → (image2 : Buf)
      → Changed false dir (pos 1) (negsuc 0) ufs base g l image1 image2
      → IsRestored g image2
  restored g l f hg hl free c image2 d = (
    d.formatted,
    λ h k p q. d.used h k p q ∙ back h k (c.used h k p q),
    d.nifree ∙ ap (λ n. adjusted n (pos 1)) c.nifree ∙ adjusted_back _ (peek32-lt image _ f.bytes),
    d.total_nifree
        ∙ ap (λ n. adjusted n (pos 1)) c.total_nifree
        ∙ adjusted_back _ (peek32-lt image _ f.bytes),
  )
    where
      back :
          (h k : ℕ)
          → is_used image1 (base h) k
            ≡ (if (g == h) && (l == k) then true else is_used image (base h) k)
          → (if (g == h) && (l == k) then false else is_used image1 (base h) k)
            ≡ is_used image (base h) k
      back h k e = elim (ℕ_discrete g h) [
        | no ne ↦ rw (==_ne g h ne) (e ∙ (rw (==_ne g h ne) refl))
        | yes p ↦ elim (ℕ_discrete l k) [
          | no ne ↦
              rw (ap (λ x. g == x) (sym p) ∙ ==_refl g, ==_ne l k ne)
                (e ∙ (rw (ap (λ x. g == x) (sym p) ∙ ==_refl g, ==_ne l k ne) refl))
          | yes q ↦
              rw (ap (λ x. g == x) (sym p) ∙ ==_refl g, ap (λ x. l == x) (sym q) ∙ ==_refl l)
                (sym free ∙ ap₂ (λ x y. is_used image (base x) y) p q)
        ]
      ]

  undone :
      Formatted image ufs base
      → IsTaken ufs base dir image i image1
      → (image2 : Buf) × (free_inode image1 ufs i dir ≡ ok (done tt, image2))
        × IsRestored (itog ufs.sb i) image2
  unfolding itog
  undone f (g, l, e, hg, hl, free, c) =
      let (eg, el) = number_lem g l ufs.sb.ipg hl in
      let gi = i / ufs.sb.ipg in
      let li = i % ufs.sb.ipg in
      let p : g ≡ gi = sym (rw e eg) in
      let q : l ≡ li = sym (rw e el) in
      let hgi = subst (λ x. x < ufs.sb.ncg) p hg in
      let hli = subst (λ x. x < ufs.sb.ipg) q hl in
      let freei =
        subst (λ x. is_used image (base x) li ≡ false) p
          (subst (λ x. is_used image (base g) x ≡ false) q free) in
      let ci =
        subst (λ x. Changed true dir (negsuc 0) (pos 1) ufs base x li image image1) p
          (subst (λ x. Changed true dir (negsuc 0) (pos 1) ufs base g x image image1) q c) in
      let used = ci.used gi li hgi hli ∙ (rw (==_refl gi, ==_refl li) refl) in
      let (image2, r, d) = (free_inode_lem image1 ufs base i dir c.formatted hgi).0 used in
      (image2, r, restored gi li f hgi hli freei ci image2 d)

  -- Freeing the inode that an allocation on a formatted file system gave, with the same directory
  -- flag, succeeds and undoes it: the file system is formatted, every inode is in use exactly when
  -- it was before the allocation, and so are the counts of free inodes of the group and of the
  -- superblock.
  pub free_inode-allocate_inode :
      (preferred : Option ℕ)
      → Formatted image ufs base
      → allocate_inode image ufs preferred dir ≡ ok (done i, image1)
      → (image2 : Buf) × (free_inode image1 ufs i dir ≡ ok (done tt, image2))
        × IsRestored (itog ufs.sb i) image2
  free_inode-allocate_inode preferred f e =
      elim (allocate_inode_lem image ufs base preferred dir f) [
        | inl (i', image', e', t) ↦
            let (p, q) = done-injective (sym e' ∙ e) in
            undone f (
              subst (IsTaken ufs base dir image i) q
                (subst (λ x. IsTaken ufs base dir image x image') p t))
        | inr (e', _) ↦ absurd (cc)
      ]
