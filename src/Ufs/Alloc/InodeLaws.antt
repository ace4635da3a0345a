-- ===== src/Ufs/Alloc/InodeLaws.antt =====
-- What `allocate_inode` and `free_inode` do to a formatted file system.
use ufs_fuse.Base.{
  ℕ, zero, suc, ◌+◌, ◌*◌, ◌%◌, ◌<◌, ◌≡◌, ◌⊎◌, inl, inr, refl, sym, ap₂, ◌∙◌, subst, Bool, true,
  false, Option, none, some, ok, ◌>>=◌, Reply, done, failed, no_free_inodes, arith, pos, negsuc,
  ==_ne, ℕ_discrete,
}
use native.Mathlib.Nat.{mod-lt, mod-add-mod}
use ufs_fuse.Core.Image.{Buf}
use ufs_fuse.Core.Codec.{peek32}
use ufs_fuse.Core.Consts.{ufs_cg_cs_nifree_offset}
use ufs_fuse.Ufs.Superblock.{Ufs}
use ufs_fuse.Ufs.Alloc.Inodes.{
  take_inode, try_group, allocate_inode_loop, allocate_inode, start_group, local_index,
}
use ufs_fuse.Ufs.Alloc.Mounted.{Formatted, is_used, edit_image, Changed}
use ufs_fuse.Ufs.Alloc.Edited.{edit_image-Changed}
use ufs_fuse.Ufs.Alloc.Steps.{
  wrap, block, Search, Local, magic-ok, nifree-ok, read_allocatable_cg_block-ok, choose_inode_lem,
  take_inode-ok,
}

module _ (ufs : Ufs) (base : ℕ → ℕ) (dir : Bool) (image : Buf) where
  -- Group `g` cannot give an inode: it counts none as free, or all are used.
  abbrev pub IsExhausted : ℕ → Type 0
  IsExhausted g =
      (peek32 image (base g + ufs_cg_cs_nifree_offset) ≡ 0)
      ⊎ ((k : ℕ) → k < ufs.sb.ipg → is_used image (base g) k ≡ true)

  -- Inode `i` was free, and is now taken.
  abbrev pub IsTaken : ℕ → Buf → Type 0
  IsTaken i image' =
      (g l : ℕ) × (i ≡ g * ufs.sb.ipg + l)
      × (g < ufs.sb.ncg)
      × (l < ufs.sb.ipg)
      × (is_used image (base g) l ≡ false)
      × Changed true dir (negsuc 0) (pos 1) ufs base g l image image'

  module _ (f : Formatted image ufs base) where
    -- What one round comes to in group `g`.
    abbrev Round : ℕ → Option ℕ × Buf → Type 0
    Round g (none, image') = (image' ≡ image) × IsExhausted g
    Round g (some i, image') = IsTaken i image'

    -- The end of a round, after the search.
    reply :
        (g : ℕ) (preferred : Option ℕ) (hg : g < ufs.sb.ncg) (r : Option ℕ)
        → Search image ufs base f g hg r
        → (t : Option ℕ × Buf) × ((elim r [
          | none ↦ ok (none, image)
          | some l ↦ take_inode image ufs g (block image ufs base f g hg) l dir >>= λ image'.
              ok (some (g * ufs.sb.ipg + l), image')
        ])
            ≡ ok t)
          × Round g t
    reply g preferred hg none s = ((none, image), refl, (refl, inr s))
    reply g preferred hg (some l) s = (
      (some (g * ufs.sb.ipg + l), edit_image true dir (negsuc 0) (pos 1) ufs (base g) l image),
      rw (take_inode-ok image ufs base f g hg l s.0 dir),
      (
        g,
        l,
        refl,
        hg,
        s.0,
        s.1,
        edit_image-Changed true dir (negsuc 0) (pos 1) ufs base image f g l hg s.0,
      ),
    )

    try_group_lem :
        (g : ℕ) (preferred : Option ℕ) (hg : g < ufs.sb.ncg)
        → Local image ufs base f g hg preferred
        → (r : Option ℕ × Buf) × (try_group image ufs g preferred dir ≡ ok r) × Round g r
    unfolding try_group
    try_group_lem g preferred hg h =
        elim (ℕ_discrete (peek32 image (base g + ufs_cg_cs_nifree_offset)) 0) [
          | yes e ↦ (
            (none, image),
            rw (
              read_allocatable_cg_block-ok image ufs base f g hg,
              magic-ok image ufs base f g hg,
              nifree-ok image ufs base f g hg,
              e,
            ),
            (refl, inl e),
          )
          | no ne ↦
              let (r, c, s) = choose_inode_lem image ufs base f g hg preferred h in
              let go = reply g preferred hg r s in
              (
                go.0,
                rw
                    (
                      read_allocatable_cg_block-ok image ufs base f g hg,
                      magic-ok image ufs base f g hg,
                      nifree-ok image ufs base f g hg,
                      ==_ne _ _ ne,
                      c,
                    )
                    go.1,
                go.2,
              )
        ]

    -- `for attempt in 0..n`: a taken inode, or no change and only exhausted groups.
    abbrev Rounds : ℕ → ℕ → ℕ → Reply ℕ × Buf → Type 0
    Rounds start n attempt (done i, image') = IsTaken i image'
    Rounds start n attempt (failed e, image') =
        (e ≡ no_free_inodes)
        × (image' ≡ image)
        × ((j : ℕ) → j < n → IsExhausted ((start + (attempt + j)) % ufs.sb.ncg))

    more-Rounds :
        (start n attempt : ℕ) (r : Reply ℕ × Buf)
        → IsExhausted ((start + attempt) % ufs.sb.ncg)
        → Rounds start n (attempt + 1) r
        → Rounds start (suc n) attempt r
    more-Rounds start n attempt (done i, image') h r = r
    more-Rounds start n attempt (failed e, image') h r = (r.0, r.1, all)
      where
        all : (j : ℕ) → j < suc n → IsExhausted ((start + (attempt + j)) % ufs.sb.ncg)
        all zero k = subst (λ x. IsExhausted ((start + x) % ufs.sb.ncg)) (omega arith) h
        all (suc j) k =
            subst (λ x. IsExhausted ((start + x) % ufs.sb.ncg)) (omega arith) (r.2 j (omega arith))

    after-Round :
        (start n attempt : ℕ) (r : Option ℕ × Buf)
        → Round ((start + attempt) % ufs.sb.ncg) r
        → ((t : Reply ℕ × Buf) × (allocate_inode_loop image ufs start n (attempt + 1) none dir
              ≡ ok t)
            × Rounds start n (attempt + 1) t)
        → (t : Reply ℕ × Buf) × ((elim r.0 [
          | none ↦ allocate_inode_loop r.1 ufs start n (attempt + 1) none dir
          | some inode_number ↦ ok (done inode_number, r.1)
        ])
            ≡ ok t)
          × Rounds start (suc n) attempt t
    after-Round start n attempt (none, image') s (t, e, w) =
        (t, rw s.0 e, more-Rounds start n attempt t s.1 w)
    after-Round start n attempt (some i, image') s rest = ((done i, image'), refl, s)

    allocate_inode_loop_lem :
        (start n attempt : ℕ) (preferred : Option ℕ)
        → Local image ufs base f ((start + attempt) % ufs.sb.ncg) (mod-lt _ f.ncg_pos) preferred
        → (r : Reply ℕ × Buf) × (allocate_inode_loop image ufs start n attempt preferred dir ≡ ok r)
          × Rounds start n attempt r
    unfolding allocate_inode_loop
    allocate_inode_loop_lem start zero attempt preferred h =
        ((failed no_free_inodes, image), refl, (refl, refl, λ j k. absurd (omega arith)))
    allocate_inode_loop_lem start (suc n) attempt preferred h =
        let g = (start + attempt) % ufs.sb.ncg in
        let (r, e, s) = try_group_lem g preferred (mod-lt _ f.ncg_pos) h in
        let rest = allocate_inode_loop_lem start n (attempt + 1) none tt in
        let (t, q, w) = after-Round start n attempt r s rest in (t, rw e q, w)

    pub allocate_inode-Rounds :
        (preferred : Option ℕ)
        → (r : Reply ℕ × Buf) × (allocate_inode image ufs preferred dir ≡ ok r)
          × Rounds (start_group ufs preferred) ufs.sb.ncg 0 r
    unfolding allocate_inode local_index start_group
    allocate_inode-Rounds none = allocate_inode_loop_lem 0 ufs.sb.ncg 0 none tt
    allocate_inode-Rounds (some i) =
        allocate_inode_loop_lem (start_group ufs (some i)) ufs.sb.ncg 0 (some (i % ufs.sb.ipg))
          (mod-lt i f.ipg_pos)

-- On a formatted file system allocation does not panic and comes to one of two ends. It takes an
-- inode that was free: then that inode and no other changes its state, the counts of free inodes of
-- its group and of the superblock fall by one, for a directory the counts of directories rise by one,
-- no byte outside the block of the group and the counts changes, and the file system is still
-- formatted. Or it fails, changes nothing, and every group counts no free inode or has all in use.
pub allocate_inode_lem :
    (image : Buf) (ufs : Ufs) (base : ℕ → ℕ) (preferred : Option ℕ) (dir : Bool)
    → Formatted image ufs base
    → ((i : ℕ) × (image' : Buf) × (allocate_inode image ufs preferred dir ≡ ok (done i, image'))
        × IsTaken ufs base dir image i image')
      ⊎ ((allocate_inode image ufs preferred dir ≡ ok (failed no_free_inodes, image))
          × ((g : ℕ) → g < ufs.sb.ncg → IsExhausted ufs base dir image g))
allocate_inode_lem image ufs base preferred dir f =
    let (r, e, w) = allocate_inode-Rounds ufs base dir image f preferred in ends r e w
  where
    n : ℕ
    n = ufs.sb.ncg

    start : ℕ
    start = start_group ufs preferred

    everywhere :
        ((j : ℕ) → j < n → IsExhausted ufs base dir image ((start + (0 + j)) % n))
        → (g : ℕ) → g < n
        → IsExhausted ufs base dir image g
    everywhere all g h =
        let (j, k, e) = wrap n (start % n) g (mod-lt start f.ncg_pos) h in
        subst (IsExhausted ufs base dir image) (sym (mod-add-mod start n (0 + j)) ∙ e) (all j k)

    ends :
        (r : Reply ℕ × Buf)
        → allocate_inode image ufs preferred dir ≡ ok r
        → Rounds ufs base dir image f start n 0 r
        → ((i : ℕ) × (image' : Buf) × (allocate_inode image ufs preferred dir ≡ ok (done i, image'))
            × IsTaken ufs base dir image i image')
          ⊎ ((allocate_inode image ufs preferred dir ≡ ok (failed no_free_inodes, image))
              × ((g : ℕ) → g < ufs.sb.ncg → IsExhausted ufs base dir image g))
    ends (done i, image') e w = inl (i, image', e, w)
    ends (failed x, image') e w = inr (e ∙ ap₂ (λ a b. ok (failed a, b)) w.0 w.1, everywhere w.2)
