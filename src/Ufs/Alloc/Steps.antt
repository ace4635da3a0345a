-- ===== src/Ufs/Alloc/Steps.antt =====
-- The steps of `allocate_inode` and `free_inode` on a formatted file system.
use ufs_fuse.Base.{
  ℕ, zero, suc, ◌+◌, ◌-◌, ◌%◌, ◌≤◌, ◌<◌, ◌≡◌, inl, inr, refl, sym, ap, ◌∙◌, Bool, true, false,
  Option, none, some, Result, ok, ◌>>=◌, if◌then◌else◌, arith, ℤ, pos, negsuc, Bool-cases, dec_lt,
}
use native.Mathlib.Nat.{mod-lt, mod-eq_of_lt, mod-eq-sub-mod}
use ufs_fuse.Core.Image.{Buf, slice-ok, write_at-ok}
use ufs_fuse.Core.Codec.{u32, peek32, u32-ok, put_u32-ok}
use ufs_fuse.Core.Consts.{
  ufs_cg_cs_ndir_offset, ufs_cg_cs_nifree_offset, ufs_cg_irotor_offset, ufs_cg_iused_offset,
  ufs_cg_magic, ufs_cg_magic_offset, ufs_fs_cstotal_ndir_offset, ufs_fs_cstotal_nifree_offset,
}
use ufs_fuse.Ufs.Superblock.{Ufs}
use ufs_fuse.Ufs.Bitmap.{is_inode_used, set_inode_state}
use ufs_fuse.Ufs.Bitmap.Laws.{mark, size-mark, get_state-ok, set_state-ok}
use ufs_fuse.Ufs.Alloc.Group.{
  read_cg_block, write_cg_block, read_allocatable_cg_block, adjust_cg_free_inodes,
  adjust_cg_directory_count, adjust_superblock_free_inodes, adjust_superblock_directory_count,
}
use ufs_fuse.Ufs.Alloc.Inodes.{find_free_inode, choose_inode, take_inode, release_inode}
use ufs_fuse.Ufs.Alloc.Edit.{bump, adjust_u32_at-ok, adjust_if-ok, size-bump, spin, size-spin}
use ufs_fuse.Ufs.Alloc.Change.{edit_group, size-edit_group, place}
use ufs_fuse.Ufs.Alloc.Mounted.{Formatted, is_used, window, bit-window, peek32-window, edit_image}

-- From any place on, `n` steps round a circle of `n` come to every place.
pub wrap : (n start k : ℕ) → start < n → k < n → (j : ℕ) × (j < n) × ((start + (0 + j)) % n ≡ k)
wrap n start k hs hk = elim (dec_lt k start) [
  | yes p ↦
      let sum : start + (0 + (k + n - start)) ≡ k + n = omega arith in
      let less : k + n - n ≡ k = omega arith in
      (
        k + n - start,
        omega arith,
        ap (λ x. x % n) sum
            ∙ mod-eq-sub-mod {n = k + n} {m = n} (omega arith)
            ∙ ap (λ x. x % n) less
            ∙ mod-eq_of_lt hk,
      )
  | no p ↦
      let sum : start + (0 + (k - start)) ≡ k = omega arith in
      (k - start, omega arith, ap (λ x. x % n) sum ∙ mod-eq_of_lt hk)
]

module _ (image : Buf) (ufs : Ufs) (base : ℕ → ℕ) (f : Formatted image ufs base) (g : ℕ)
    (hg : g < ufs.sb.ncg) where
  abbrev pub block : Buf
  block = window (base g) ufs.sb.bsize image

  pub read_cg_block-ok : read_cg_block image ufs g ≡ ok block
  unfolding read_cg_block
  read_cg_block-ok =
      rw
        (
          f.located g hg,
          slice-ok image (base g) (base g + ufs.sb.bsize) (omega arith) (f.inside g hg),
        )
        (ap (λ n. ok (window (base g) n image)) (omega arith))

  block-u32 : (o : ℕ) → o + 4 ≤ 4096 → u32 block o ≡ ok (peek32 image (base g + o))
  block-u32 o h =
      u32-ok block o (omega (arith, f.bsize_ge))
      ∙ ap ok (peek32-window (base g) ufs.sb.bsize image o)

  pub magic-ok : u32 block ufs_cg_magic_offset ≡ ok ufs_cg_magic
  magic-ok = block-u32 ufs_cg_magic_offset (omega arith) ∙ ap ok (f.magic g hg)

  pub nifree-ok :
      u32 block ufs_cg_cs_nifree_offset ≡ ok (peek32 image (base g + ufs_cg_cs_nifree_offset))
  nifree-ok = block-u32 ufs_cg_cs_nifree_offset (omega arith)

  irotor-ok : u32 block ufs_cg_irotor_offset ≡ ok (peek32 image (base g + ufs_cg_irotor_offset))
  irotor-ok = block-u32 ufs_cg_irotor_offset (omega arith)

  pub read_allocatable_cg_block-ok : read_allocatable_cg_block image ufs g ≡ ok (block, image)
  unfolding read_allocatable_cg_block
  read_allocatable_cg_block-ok = rw (read_cg_block-ok, magic-ok)

  pub is_inode_used-ok :
      (k : ℕ) → k < ufs.sb.ipg → is_inode_used block k ≡ ok (is_used image (base g) k)
  unfolding is_inode_used
  is_inode_used-ok k h =
      get_state-ok ufs_cg_iused_offset block k (omega (arith, f.bsize_ge, f.ipg_le))
      ∙ ap ok (bit-window ufs_cg_iused_offset (base g) ufs.sb.bsize image k)

  -- What a search of the group may come to: an inode that is free, or none since all are used.
  abbrev pub Search : Option ℕ → Type 0
  Search none = (k : ℕ) → k < ufs.sb.ipg → is_used image (base g) k ≡ true
  Search (some l) = (l < ufs.sb.ipg) × (is_used image (base g) l ≡ false)

  -- The same of a search of `n` candidates from `o` on.
  abbrev SearchFrom : ℕ → ℕ → ℕ → Option ℕ → Type 0
  SearchFrom start n o none =
      (j : ℕ) → j < n → is_used image (base g) ((start + (o + j)) % ufs.sb.ipg) ≡ true
  SearchFrom start n o (some l) = (l < ufs.sb.ipg) × (is_used image (base g) l ≡ false)

  widen_none :
      (start n o : ℕ)
      → is_used image (base g) ((start + o) % ufs.sb.ipg) ≡ true
      → SearchFrom start n (o + 1) none
      → SearchFrom start (suc n) o none
  widen_none start n o used s zero h =
      ap (λ x. is_used image (base g) ((start + x) % ufs.sb.ipg)) (omega arith) ∙ used
  widen_none start n o used s (suc j) h =
      ap (λ x. is_used image (base g) ((start + x) % ufs.sb.ipg)) (omega arith) ∙ s j (omega arith)

  widen :
      (start n o : ℕ) (r : Option ℕ)
      → is_used image (base g) ((start + o) % ufs.sb.ipg) ≡ true
      → SearchFrom start n (o + 1) r
      → SearchFrom start (suc n) o r
  widen start n o (some l) used s = s
  widen start n o none used s = widen_none start n o used s

  find_free_inode_lem :
      (start n o : ℕ)
      → (r : Option ℕ) × (find_free_inode block ufs.sb.ipg start n o ≡ ok r)
        × SearchFrom start n o r
  unfolding find_free_inode
  find_free_inode_lem start zero o = (none, refl, λ j h. absurd (omega arith))
  find_free_inode_lem start (suc n) o =
      let c = (start + o) % ufs.sb.ipg in
      let c_in = mod-lt (start + o) f.ipg_pos in
      elim (Bool-cases (is_used image (base g) c)) [
        | inr free ↦ (some c, rw (is_inode_used-ok c c_in, free), (c_in, free))
        | inl used ↦
            let (r, e, s) = find_free_inode_lem start n (o + 1) in
            (r, rw (is_inode_used-ok c c_in, used) e, widen start n o r used s)
      ]

  all_searched :
      (start : ℕ) (r : Option ℕ) → start < ufs.sb.ipg → SearchFrom start ufs.sb.ipg 0 r → Search r
  all_searched start (some l) hs s = s
  all_searched start none hs s = λ k hk.
      let (j, hj, e) = wrap ufs.sb.ipg start k hs hk in
      ap (λ x. is_used image (base g) x) (sym e) ∙ s j hj

  abbrev search : Result (Option ℕ)
  search =
      find_free_inode block ufs.sb.ipg (peek32 image (base g + ufs_cg_irotor_offset) % ufs.sb.ipg)
        ufs.sb.ipg 0

  search_lem : (r : Option ℕ) × (search ≡ ok r) × Search r
  search_lem =
      let start = peek32 image (base g + ufs_cg_irotor_offset) % ufs.sb.ipg in
      let (r, e, s) = find_free_inode_lem start ufs.sb.ipg 0 in
      (r, e, all_searched start r (mod-lt _ f.ipg_pos) s)

  -- The preferred inode is in the group.
  abbrev pub Local : Option ℕ → Type 0
  Local none = Unit
  Local (some p) = p < ufs.sb.ipg

  pub choose_inode_lem :
      (preferred : Option ℕ)
      → Local preferred
      → (r : Option ℕ) × (choose_inode block ufs preferred ≡ ok r) × Search r
  unfolding choose_inode
  choose_inode_lem none h = let (r, e, s) = search_lem in (r, rw irotor-ok e, s)
  choose_inode_lem (some p) h = elim (Bool-cases (is_used image (base g) p)) [
    | inl used ↦ let (r, e, s) = search_lem in (r, rw (irotor-ok, is_inode_used-ok p h, used) e, s)
    | inr free ↦ (some p, rw (irotor-ok, is_inode_used-ok p h, free), (h, free))
  ]

  -- A preferred inode that is free is taken.
  pub choose_inode-preferred :
      (p : ℕ)
      → p < ufs.sb.ipg
      → is_used image (base g) p ≡ false
      → choose_inode block ufs (some p) ≡ ok (some p)
  unfolding choose_inode
  choose_inode-preferred p h free = rw (irotor-ok, is_inode_used-ok p h, free)

  module _ (l : ℕ) (hl : l < ufs.sb.ipg) (dir : Bool) where
    abbrev marked : Bool → Buf
    marked on = mark ufs_cg_iused_offset block l on

    set_inode_state-ok : (on : Bool) → set_inode_state block l on ≡ ok (marked on)
    unfolding set_inode_state
    set_inode_state-ok on =
        set_state-ok ufs_cg_iused_offset block l on (omega (arith, f.bsize_ge, f.ipg_le))

    size_marked : (on : Bool) → 4096 ≤ (marked on).size
    size_marked on = omega (arith, size-mark ufs_cg_iused_offset block l on, f.bsize_ge)

    size_placed : (b : Buf) → (place (base g) b image).size ≡ image.size
    unfolding place
    size_placed b = refl

    write_cg_block-ok :
        (b : Buf)
        → b.size ≡ ufs.sb.bsize
        → write_cg_block image ufs g b ≡ ok (place (base g) b image)
    unfolding write_cg_block place
    write_cg_block-ok b e =
        rw (f.located g hg) (write_at-ok image (base g) b (omega (arith, f.inside g hg)))

    -- The counts of the block, and then those of the superblock.
    counts-ok :
        (on : Bool) (d e : ℤ)
        → (do
          b ← adjust_cg_free_inodes (spin on l (marked on)) d
          b ← if dir then adjust_cg_directory_count b e else ok b
          image ← write_cg_block image ufs g b
          image ← adjust_superblock_free_inodes image ufs d
          if dir then adjust_superblock_directory_count image ufs e else ok image)
          ≡ ok (edit_image on dir d e ufs (base g) l image)
    unfolding adjust_cg_free_inodes adjust_cg_directory_count adjust_superblock_free_inodes
        adjust_superblock_directory_count edit_image edit_group
    counts-ok on d e =
        let small : l < 2048 = omega (arith, f.ipg_le) in
        let spun = spin on l (marked on) in
        let size_spun = size-spin l (marked on) on in
        let b = bump ufs_cg_cs_nifree_offset d spun in
        let size_b = size-bump ufs_cg_cs_nifree_offset d spun in
        let edited = edit_group on dir d e l block in
        let size_edited = size-edit_group on dir d e l block small in
        let placed = place (base g) edited image in
        let so = ufs.super_offset in
        let bumped = bump (so + ufs_fs_cstotal_nifree_offset) d placed in
        rw
          (
            adjust_u32_at-ok spun ufs_cg_cs_nifree_offset d
                (omega (arith, size_spun, size_marked on)),
            adjust_if-ok dir b ufs_cg_cs_ndir_offset e
                (omega (arith, size_b, size_spun, size_marked on)),
            write_cg_block-ok edited size_edited,
            adjust_u32_at-ok placed (so + ufs_fs_cstotal_nifree_offset) d
                (omega (arith, size_placed edited, f.super_inside)),
          )
          (adjust_if-ok dir bumped (so + ufs_fs_cstotal_ndir_offset) e (
            omega (
              arith,
              size-bump (so + ufs_fs_cstotal_nifree_offset) d placed,
              size_placed edited,
              f.super_inside,
            )))

    pub take_inode-ok :
        take_inode image ufs g block l dir
        ≡ ok (edit_image true dir (negsuc 0) (pos 1) ufs (base g) l image)
    unfolding take_inode spin
    take_inode-ok =
        rw
          (
            set_inode_state-ok true,
            put_u32-ok (marked true) ufs_cg_irotor_offset l (omega (arith, size_marked true)),
          )
          (counts-ok true (negsuc 0) (pos 1))

    pub release_inode-ok :
        release_inode image ufs g block l dir
        ≡ ok (edit_image false dir (pos 1) (negsuc 0) ufs (base g) l image)
    unfolding release_inode spin
    release_inode-ok = rw (set_inode_state-ok false) (counts-ok false (pos 1) (negsuc 0))
