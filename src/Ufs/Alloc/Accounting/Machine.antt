-- ===== src/Ufs/Alloc/Accounting/Machine.antt =====
-- The allocator of inodes as an abstract machine: a set of inode numbers, and the requests that add one
-- to it or take one away. The code refines it.
use ufs_fuse.Base.{
  ℕ, ◌+◌, ◌*◌, ◌/◌, ◌%◌, ◌<◌, ◌≡◌, ◌≢◌, ◌⊎◌, inl, inr, refl, sym, ap₂, ◌∙◌, subst, Bool, true,
  false, Option, List, [], ◌∷◌, Result, ok, ◌>>=◌, Reply, done, failed, already_free,
  no_free_inodes, Bool-cases, ℕ_discrete, ℤ, pos, negsuc,
}
use native.Mathlib.Nat.{mod-lt, div-add-mod', div-lt_iff_lt-mul}
use ufs_fuse.Core.Image.{Buf}
use ufs_fuse.Ufs.Superblock.{Ufs}
use ufs_fuse.Ufs.Alloc.Inodes.{allocate_inode, free_inode}
use ufs_fuse.Ufs.Alloc.Mounted.{is_used, Changed}
use ufs_fuse.Ufs.Alloc.InodeLaws.{IsTaken, allocate_inode_lem}
use ufs_fuse.Ufs.Alloc.FreeLaws.{free_inode_lem, number_lem}
use ufs_fuse.Ufs.Alloc.Accounting.{IsCounted, used_self, used_other}
use ufs_fuse.Ufs.Alloc.Accounting.Kept.{taken-IsCounted, released-IsCounted, exhausted_used}

pub data Request : Type 0 where
  alloc : Option ℕ → Bool → Request
  free : ℕ → Bool → Request

abbrev pub Answer : Request → Type 0
Answer (alloc preferred dir) = Reply ℕ
Answer (free i dir) = Reply (Unit {0})

abbrev pub Answers : List Request → Type 0
Answers [] = Unit {0}
Answers (q ∷ qs) = Answer q × Answers qs

-- The calls of the code, one after another.
module _ (ufs : Ufs) where
  unfoldable pub serve : (q : Request) → Buf → Result (Answer q × Buf)
  serve (alloc preferred dir) image = allocate_inode image ufs preferred dir
  serve (free i dir) image = free_inode image ufs i dir

  unfoldable pub run : (qs : List Request) → Buf → Result (Answers qs × Buf)
  run [] image = ok (tt, image)
  run (q ∷ qs) image = do
    (a, image) ← serve q image
    (rest, image) ← run qs image
    ok ((a, rest), image)

-- The abstract machine: the used ones of the inodes below `n`.
module _ (n : ℕ) where
  abbrev pub Same : (ℕ → Bool) → (ℕ → Bool) → Type 0
  Same U V = (j : ℕ) → j < n → V j ≡ U j

  -- Only inode `i` differs, and is now in use or not.
  abbrev pub Moved : ℕ → Bool → (ℕ → Bool) → (ℕ → Bool) → Type 0
  Moved i on U V = (V i ≡ on) × ((j : ℕ) → j < n → j ≢ i → V j ≡ U j)

  -- An allocation gives some inode that is not in use, and fails only where all are. Freeing takes
  -- away an inode that is in use, and is refused for any other.
  abbrev pub Allowed : (q : Request) → Answer q → (ℕ → Bool) → (ℕ → Bool) → Type 0
  Allowed (alloc preferred dir) (done i) U V = (i < n) × (U i ≡ false) × Moved i true U V
  Allowed (alloc preferred dir) (failed e) U V =
      (e ≡ no_free_inodes) × ((j : ℕ) → j < n → U j ≡ true) × Same U V
  Allowed (free i dir) (done _) U V = (U i ≡ true) × Moved i false U V
  Allowed (free i dir) (failed e) U V = (e ≡ already_free) × (U i ≡ false) × Same U V

  abbrev pub AllowedRun : (qs : List Request) → Answers qs → (ℕ → Bool) → (ℕ → Bool) → Type 0
  AllowedRun [] _ U V = Same U V
  AllowedRun (q ∷ qs) (a, rest) U W = (V : ℕ → Bool) × Allowed q a U V × AllowedRun qs rest V W

  -- A request names an inode that there is.
  abbrev pub IsValid : Request → Type 0
  IsValid (alloc preferred dir) = Unit {0}
  IsValid (free i dir) = i < n

  abbrev pub AllValid : List Request → Type 0
  AllValid [] = Unit {0}
  AllValid (q ∷ qs) = IsValid q × AllValid qs

module _ (ufs : Ufs) (base : ℕ → ℕ) where
  abbrev pub inodes : ℕ
  inodes = ufs.sb.ncg * ufs.sb.ipg

  -- The set that an image stands for.
  abbrev pub used_set : Buf → ℕ → Bool
  used_set image j = is_used image (base (j / ufs.sb.ipg)) (j % ufs.sb.ipg)

  module _ (image : Buf) (w : IsCounted ufs base image) where
    number : (j : ℕ) → j < inodes → (j / ufs.sb.ipg < ufs.sb.ncg) × (j % ufs.sb.ipg < ufs.sb.ipg)
    number j h = (
      (div-lt_iff_lt-mul {x = j} {y = ufs.sb.ncg} w.formatted.ipg_pos).1 h,
      mod-lt j w.formatted.ipg_pos,
    )

    moved :
        (on dir : Bool) (d e' : ℤ) (i : ℕ) (image' : Buf)
        → i < inodes
        → Changed on dir d e' ufs base (i / ufs.sb.ipg) (i % ufs.sb.ipg) image image'
        → Moved inodes i on (used_set image) (used_set image')
    moved on dir d e' i image' hi c =
        let (hg, hl) = number i hi in
        (
          used_self ufs base on dir d e' image image' (i / ufs.sb.ipg) (i % ufs.sb.ipg) hg hl
              w.formatted c,
          λ j hj ne.
              let (hh, hk) = number j hj in
              used_other ufs base on dir d e' image image' (i / ufs.sb.ipg) (i % ufs.sb.ipg) hg hl
                w.formatted c (j / ufs.sb.ipg) (j % ufs.sb.ipg) hh hk (apart i j ne),
        )
      where
        apart :
            (i j : ℕ)
            → j ≢ i
            → (j / ufs.sb.ipg ≢ i / ufs.sb.ipg) ⊎ (j % ufs.sb.ipg ≢ i % ufs.sb.ipg)
        apart i j ne = elim (ℕ_discrete (j / ufs.sb.ipg) (i / ufs.sb.ipg)) [
          | no p ↦ inl p
          | yes p ↦ inr (λ q. ne (
              sym (div-add-mod' j ufs.sb.ipg)
              ∙ ap₂ (λ x y. x * ufs.sb.ipg + y) p q
              ∙ div-add-mod' i ufs.sb.ipg))
        ]

    abbrev Served : (q : Request) → Type 0
    Served q =
        (a : Answer q) × (image' : Buf) × (serve ufs q image ≡ ok (a, image'))
        × IsCounted ufs base image'
        × Allowed inodes q a (used_set image) (used_set image')

    serve_lem : (q : Request) → IsValid inodes q → Served q
    unfolding serve
    serve_lem (alloc preferred dir) v =
        elim (allocate_inode_lem image ufs base preferred dir w.formatted) [
          | inl (i, image', e, t) ↦ (
            done i,
            image',
            e,
            taken-IsCounted ufs base image w dir i image' t,
            taken dir i image' t,
          )
          | inr (e, all) ↦ (
            failed no_free_inodes,
            image,
            e,
            w,
            (
              refl,
              λ j h.
                  let (hg, hl) = number j h in
                  exhausted_used ufs base image w dir (j / ufs.sb.ipg) (j % ufs.sb.ipg) hg hl
                    (all (j / ufs.sb.ipg) hg),
              λ j h. refl,
            ),
          )
        ]
      where
        taken :
            (dir : Bool) (i : ℕ) (image' : Buf)
            → IsTaken ufs base dir image i image'
            → (i < inodes)
              × (used_set image i ≡ false)
              × Moved inodes i true (used_set image) (used_set image')
        taken dir i image' (g, l, e, hg, hl, unused, c) =
            let (eg, el) = number_lem g l ufs.sb.ipg hl in
            let p : g ≡ i / ufs.sb.ipg = sym (rw e eg) in
            let q : l ≡ i % ufs.sb.ipg = sym (rw e el) in
            let hi : i < inodes =
              (div-lt_iff_lt-mul {x = i} {y = ufs.sb.ncg} w.formatted.ipg_pos).0
                (subst (λ x. x < ufs.sb.ncg) p hg) in
            (
              hi,
              ap₂ (λ x y. is_used image (base x) y) (sym p) (sym q) ∙ unused,
              moved true dir (negsuc 0) (pos 1) i image' hi (
                  subst
                    (λ x.
                      Changed true dir (negsuc 0) (pos 1) ufs base x (i % ufs.sb.ipg) image image')
                    p
                    (subst (λ x. Changed true dir (negsuc 0) (pos 1) ufs base g x image image') q
                      c)),
            )
    serve_lem (free i dir) v =
        let (hg, hl) = number i v in
        let l = free_inode_lem image ufs base i dir w.formatted hg in
        elim (Bool-cases (used_set image i)) [
          | inl u ↦
              let (image', e, c) = l.0 u in
              (
                done tt,
                image',
                e,
                released-IsCounted ufs base image w dir (i / ufs.sb.ipg) (i % ufs.sb.ipg) image' hg
                    hl u c,
                (u, moved false dir (pos 1) (negsuc 0) i image' v c),
              )
          | inr u ↦ (failed already_free, image, l.1 u, w, (refl, u, λ j h. refl))
        ]

  -- Where the file system is formatted, has fewer than 2 ^ 32 inodes and its counts of free inodes, of
  -- each group and of the superblock, are those of its maps of used inodes, any sequence
  -- of allocations and of frees of inodes that exist runs to its end without a panic, and is a run of
  -- the abstract machine on the set of used inodes with the same replies: an allocation adds some
  -- inode that was not in the set and fails only where all are in it, a free takes an inode out and is
  -- refused only where it is not in the set, and a refused call changes nothing. The counts are still
  -- those of the maps at the end.
  pub run-AllowedRun :
      (qs : List Request) (image : Buf)
      → IsCounted ufs base image
      → AllValid inodes qs
      → (answers : Answers qs) × (image' : Buf) × (run ufs qs image ≡ ok (answers, image'))
        × IsCounted ufs base image'
        × AllowedRun inodes qs answers (used_set image) (used_set image')
  unfolding run
  run-AllowedRun [] image w v = (tt, image, refl, w, λ j h. refl)
  run-AllowedRun (q ∷ qs) image w (v, vs) =
      let (a, image1, e, w1, s) = serve_lem image w q v in
      let (answers, image2, e2, w2, r) = run-AllowedRun qs image1 w1 vs in
      ((a, answers), image2, rw (e, e2) refl, w2, (used_set image1, s, r))
