-- ===== src/Ufs/Alloc/Runs.antt =====
-- Runs of fragments: marking one, testing one, and the search for a free one.
use ufs_fuse.Base.{
  ℕ, zero, suc, ◌+◌, ◌*◌, ◌/◌, ◌≤◌, ◌<◌, ◌≡◌, inl, inr, refl, ◌∙◌, subst, Bool, true, false, ◌&&◌,
  Option, none, some, ok, ltb, leb, ◌==◌, if◌then◌else◌, arith, Bool-cases, dec_lt, le→leb, lt→leb,
  ℕ_discrete,
}
use ufs_fuse.Core.Image.{Buf, IsBytes}
use ufs_fuse.Core.Consts.{ufs_cg_free_offset}
use ufs_fuse.Ufs.Bitmap.{is_frag_free, set_frag_state}
use ufs_fuse.Ufs.Bitmap.Laws.{
  bit, mark, get_state-ok, set_state-ok, size-mark, mark-IsBytes, bit-mark,
}
use ufs_fuse.Ufs.Alloc.Group.{set_frag_run}
use ufs_fuse.Ufs.Alloc.Blocks.{is_run_free, find_free_run}

-- Whether fragment `j` is free.
abbrev pub is_free : Buf → ℕ → Bool
is_free cg j = bit ufs_cg_free_offset cg j

-- The map has room for the fragments below `n`.
abbrev pub HasRoom : Buf → ℕ → Type 0
HasRoom cg n = ufs_cg_free_offset + n / 8 < cg.size

-- In a group whose block holds bytes, marking a run of fragments inside the map does not panic. It sets the state of exactly these
-- fragments, and keeps the size of the group's block and every other fragment.
pub set_frag_run_lem :
    (cg : Buf) (i n : ℕ) (free : Bool)
    → IsBytes cg
    → HasRoom cg (i + n)
    → (c : Buf) × (set_frag_run cg i n free ≡ ok c)
      × (c.size ≡ cg.size)
      × IsBytes c
      × ((j : ℕ) → is_free c j ≡ (if leb i j && ltb j (i + n) then free else is_free cg j))
unfolding set_frag_run set_frag_state
set_frag_run_lem cg i zero free b r = (cg, refl, refl, b, λ j. ground arith)
set_frag_run_lem cg i (suc n) free b r =
    let m = mark ufs_cg_free_offset cg i free in
    let size = size-mark ufs_cg_free_offset cg i free in
    let (c, e, s, bs, bits) =
      set_frag_run_lem m (i + 1) n free (mark-IsBytes ufs_cg_free_offset cg i free b)
        (omega arith) in
    (
      c,
      rw (set_state-ok ufs_cg_free_offset cg i free (omega arith)) e,
      s ∙ size,
      bs,
      λ j. bits j ∙ merge j (bit-mark ufs_cg_free_offset cg i free j b),
    )
  where
    merge :
        (j : ℕ)
        → is_free (mark ufs_cg_free_offset cg i free) j ≡ (if i == j then free else is_free cg j)
        → (if leb (i + 1) j && ltb j (i + 1 + n)
            then free
            else is_free (mark ufs_cg_free_offset cg i free) j)
          ≡ (if leb i j && ltb j (i + suc n) then free else is_free cg j)
    merge j e = ground (arith, e)

-- All `n` fragments from `i` on are free, or one of them is not.
abbrev pub RunState : Buf → ℕ → ℕ → Bool → Type 0
RunState cg i n true = (j : ℕ) → i ≤ j → j < i + n → is_free cg j ≡ true
RunState cg i n false = (j : ℕ) × (i ≤ j) × (j < i + n) × (is_free cg j ≡ false)

pub is_run_free_lem :
    (cg : Buf) (i n : ℕ)
    → HasRoom cg (i + n)
    → (b : Bool) × (is_run_free cg i n ≡ ok b) × RunState cg i n b
unfolding is_run_free is_frag_free
is_run_free_lem cg i zero r = (true, refl, λ j k l. absurd (omega arith))
is_run_free_lem cg i (suc n) r =
    let here = get_state-ok ufs_cg_free_offset cg i (omega arith) in
    elim (Bool-cases (is_free cg i)) [
      | inr taken ↦ (false, rw (here, taken), (i, omega arith, omega arith, taken))
      | inl free ↦
          let (b, e, s) = is_run_free_lem cg (i + 1) n (omega arith) in
          (b, rw (here, free) e, more free b s)
    ]
  where
    more : is_free cg i ≡ true → (b : Bool) → RunState cg (i + 1) n b → RunState cg i (suc n) b
    more free true s = λ j k l. elim (ℕ_discrete j i) [
      | yes e ↦ rw e free
      | no ne ↦ s j (omega arith) (omega arith)
    ]
    more free false (j, k, l, t) = (j, omega arith, omega arith, t)

module _ (cg : Buf) (frag ndblk : ℕ) (pos_frag : 0 < frag) (room : HasRoom cg ndblk) where
  -- The search from `i` on found the first block that is free as a whole, or there is none up to
  -- `ndblk`. The blocks are `i`, `i + frag`, `i + 2 * frag` and so on.
  abbrev pub Found : ℕ → Option ℕ → Type 0
  Found i none = (m : ℕ) → i + m * frag + frag ≤ ndblk → RunState cg (i + m * frag) frag false
  Found i (some k) =
      (n : ℕ) × (k ≡ i + n * frag)
      × (k + frag ≤ ndblk)
      × RunState cg k frag true
      × ((m : ℕ) → m < n → RunState cg (i + m * frag) frag false)

  later : (i : ℕ) (r : Option ℕ) → RunState cg i frag false → Found (i + frag) r → Found i r
  later i none t f = all
    where
      all : (m : ℕ) → i + m * frag + frag ≤ ndblk → RunState cg (i + m * frag) frag false
      all zero h = subst (λ a. RunState cg a frag false) (omega arith) t
      all (suc m) h = subst (λ a. RunState cg a frag false) (omega arith) (f m (omega arith))
  later i (some k) t (n, e, h, s, before) = (suc n, omega arith, h, s, all)
    where
      all : (m : ℕ) → m < suc n → RunState cg (i + m * frag) frag false
      all zero h = subst (λ a. RunState cg a frag false) (omega arith) t
      all (suc m) h = subst (λ a. RunState cg a frag false) (omega arith) (before m (omega arith))

  -- Where a block has fragments, the map has room for the `ndblk` fragments of the group, and the fuel,
  -- which is not 0, reaches beyond them, the search for a free block ends and does not panic. It returns the
  -- first block, counted in steps of a block from where it starts, of which every fragment is free and
  -- which lies below the number of fragments of the group; it returns none if every such block has a
  -- fragment in use.
  pub find_free_run_lem :
      (fuel i : ℕ)
      → ndblk < i + fuel
      → 0 < fuel
      → (r : Option ℕ) × (find_free_run cg frag ndblk fuel i ≡ ok r) × Found i r
  unfolding find_free_run
  find_free_run_lem zero i h p = absurd (omega arith)
  find_free_run_lem (suc fuel) i h p = elim (dec_lt ndblk (i + frag)) [
    | yes out ↦ (none, rw (lt→leb (i + frag) ndblk out), λ m k. absurd (omega arith))
    | no in_range ↦
        let fits : i + frag ≤ ndblk = omega arith in
        let (b, e, s) = is_run_free_lem cg i frag (omega arith) in
        go fits (find_free_run_lem fuel (i + frag) (omega arith) (omega arith)) b e s
  ]
    where
      go :
          i + frag ≤ ndblk
          → ((r : Option ℕ) × (find_free_run cg frag ndblk fuel (i + frag) ≡ ok r)
              × Found (i + frag) r)
          → (b : Bool) → is_run_free cg i frag ≡ ok b
          → RunState cg i frag b
          → (r : Option ℕ) × (find_free_run cg frag ndblk (suc fuel) i ≡ ok r) × Found i r
      go fits rest true e s = (
        some i,
        rw (le→leb (i + frag) ndblk fits, e),
        (0, omega arith, fits, s, λ m k. absurd (omega arith)),
      )
      go fits (r, q, f) false e s = (r, rw (le→leb (i + frag) ndblk fits, e) q, later i r s f)
