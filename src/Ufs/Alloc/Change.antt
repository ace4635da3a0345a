-- ===== src/Ufs/Alloc/Change.antt =====
-- The block of a cylinder group, and the image, after an inode was taken or freed.
use ufs_fuse.Base.{
  ℕ, ◌+◌, ◌/◌, ◌≤◌, ◌<◌, ◌≡◌, ◌≢◌, ◌⊎◌, inl, inr, ap, ◌∙◌, Bool, ◌==◌, if◌then◌else◌, arith, ℤ,
}
use ufs_fuse.Core.Image.{Buf, IsBytes, overlay}
use ufs_fuse.Core.Codec.{peek32}
use ufs_fuse.Core.Consts.{
  ufs_cg_irotor_offset, ufs_cg_cs_ndir_offset, ufs_cg_cs_nifree_offset, ufs_cg_iused_offset,
}
use ufs_fuse.Ufs.Bitmap.Laws.{bit, mark, byte-mark_ne, size-mark, mark-IsBytes, bit-mark}
use ufs_fuse.Ufs.Alloc.Edit.{
  adjusted, bump, bump_if, size-bump, bump-IsBytes, peek32-bump_self, peek32-bump_ne, byte-bump,
  size-bump_if, bump_if-IsBytes, peek32-bump_if_self, peek32-bump_if_ne, byte-bump_if, bit_ext,
  peek32_ext, peek32-mark, spin, size-spin, spin-IsBytes, byte-spin,
}

-- `on`: the inode is taken. `d` goes to the count of free inodes and, for a directory, `e` to the
-- count of directories.
module _ (on dir : Bool) (d e : ℤ) where
  unfoldable pub edit_group : ℕ → Buf → Buf
  edit_group l b =
      bump_if dir ufs_cg_cs_ndir_offset e
        (bump ufs_cg_cs_nifree_offset d (spin on l (mark ufs_cg_iused_offset b l on)))

  module _ (l : ℕ) (b : Buf) (small : l < 2048) where
    pub size-edit_group : (edit_group l b).size ≡ b.size
    unfolding edit_group
    size-edit_group =
        size-bump_if ufs_cg_cs_ndir_offset e _ dir
        ∙ size-bump ufs_cg_cs_nifree_offset d _
        ∙ size-spin l _ on
        ∙ size-mark ufs_cg_iused_offset b l on

    pub edit_group-IsBytes : IsBytes b → IsBytes (edit_group l b)
    unfolding edit_group
    edit_group-IsBytes h = bump_if-IsBytes ufs_cg_cs_ndir_offset e _ dir (
        bump-IsBytes ufs_cg_cs_nifree_offset d _
          (spin-IsBytes l _ on (mark-IsBytes ufs_cg_iused_offset b l on h)))

    -- From the map of used inodes on, only the map has changed.
    byte-edit_group :
        (a : ℕ) → 52 ≤ a → (edit_group l b).byte a ≡ (mark ufs_cg_iused_offset b l on).byte a
    unfolding edit_group
    byte-edit_group a h =
        byte-bump_if ufs_cg_cs_ndir_offset e _ dir a (inr (omega arith))
        ∙ byte-bump ufs_cg_cs_nifree_offset d _ a (inr (omega arith))
        ∙ byte-spin l _ on a (inr h)

    -- Apart from one byte of the map, only the rotor and the two counts have changed.
    pub byte-edit_group_kept :
        (a : ℕ)
        → a ≢ ufs_cg_iused_offset + l / 8
        → (a < ufs_cg_irotor_offset) ⊎ (ufs_cg_irotor_offset + 4 ≤ a)
        → (a < ufs_cg_cs_nifree_offset) ⊎ (ufs_cg_cs_nifree_offset + 4 ≤ a)
        → (a < ufs_cg_cs_ndir_offset) ⊎ (ufs_cg_cs_ndir_offset + 4 ≤ a)
        → (edit_group l b).byte a ≡ b.byte a
    unfolding edit_group
    byte-edit_group_kept a m r n d' =
        byte-bump_if ufs_cg_cs_ndir_offset e _ dir a d'
        ∙ byte-bump ufs_cg_cs_nifree_offset d _ a n
        ∙ byte-spin l _ on a r
        ∙ byte-mark_ne ufs_cg_iused_offset b l on a m

    pub bit-edit_group :
        (k : ℕ)
        → IsBytes b
        → bit ufs_cg_iused_offset (edit_group l b) k
          ≡ (if l == k then on else bit ufs_cg_iused_offset b k)
    bit-edit_group k h =
        bit_ext ufs_cg_iused_offset (mark ufs_cg_iused_offset b l on) (edit_group l b) k
          (byte-edit_group (ufs_cg_iused_offset + k / 8) (omega arith))
        ∙ bit-mark ufs_cg_iused_offset b l on k h

    pub magic-edit_group : peek32 (edit_group l b) 980 ≡ peek32 b 980
    magic-edit_group =
        peek32_ext (mark ufs_cg_iused_offset b l on) (edit_group l b) 980 980
          (λ i h. byte-edit_group (980 + i) (omega arith))
        ∙ peek32-mark ufs_cg_iused_offset b l on 980 (inr (omega arith))

    peek32-spin-mark :
        (a : ℕ) → a + 4 ≤ 48 → peek32 (spin on l (mark ufs_cg_iused_offset b l on)) a ≡ peek32 b a
    peek32-spin-mark a h =
        peek32_ext (mark ufs_cg_iused_offset b l on) _ a a
          (λ i k. byte-spin l _ on (a + i) (inl (omega arith)))
        ∙ peek32-mark ufs_cg_iused_offset b l on a (inl (omega arith))

    pub nifree-edit_group :
        peek32 (edit_group l b) ufs_cg_cs_nifree_offset
        ≡ adjusted (peek32 b ufs_cg_cs_nifree_offset) d
    unfolding edit_group
    nifree-edit_group =
        peek32-bump_if_ne ufs_cg_cs_ndir_offset e _ dir ufs_cg_cs_nifree_offset (inr (omega arith))
        ∙ peek32-bump_self ufs_cg_cs_nifree_offset d _
        ∙ ap (λ n. adjusted n d) (peek32-spin-mark ufs_cg_cs_nifree_offset (omega arith))

    pub ndir-edit_group : peek32 (edit_group l b) ufs_cg_cs_ndir_offset ≡ (
        if dir then adjusted (peek32 b ufs_cg_cs_ndir_offset) e else peek32 b ufs_cg_cs_ndir_offset)
    unfolding edit_group
    ndir-edit_group =
        peek32-bump_if_self ufs_cg_cs_ndir_offset e _ dir
        ∙ ap (λ n. if dir then adjusted n e else n)
            (peek32-bump_ne ufs_cg_cs_nifree_offset d _ ufs_cg_cs_ndir_offset (inl (omega arith))
              ∙ peek32-spin-mark ufs_cg_cs_ndir_offset (omega arith))

-- `src` written over `image` from `at` on.
unfoldable pub place : ℕ → Buf → Buf → Buf
place at src image = record image { byte = overlay at src.size src.byte image.byte }
