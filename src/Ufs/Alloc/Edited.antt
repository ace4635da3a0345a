-- ===== src/Ufs/Alloc/Edited.antt =====
-- What the edit of one inode changes in a formatted file system.
use ufs_fuse.Base.{
  ℕ, ◌+◌, ◌/◌, ◌≤◌, ◌<◌, ◌≡◌, ◌≢◌, ◌⊎◌, inl, inr, sym, ap, subst, ◌∙◌, ==_refl, ==_ne, Bool, ◌==◌,
  ◌&&◌, if◌then◌else◌, arith, ℤ, ℕ_discrete,
}
use ufs_fuse.Core.Image.{Buf, IsBytes, overlay_in, overlay_out, overlay-IsBytes}
use ufs_fuse.Core.Codec.{peek32}
use ufs_fuse.Core.Consts.{
  ufs_cg_cs_ndir_offset, ufs_cg_cs_nifree_offset, ufs_cg_iused_offset, ufs_cg_magic,
  ufs_cg_magic_offset, ufs_fs_cstotal_ndir_offset, ufs_fs_cstotal_nifree_offset,
}
use ufs_fuse.Ufs.Superblock.{Ufs}
use ufs_fuse.Ufs.Alloc.Edit.{
  adjusted, size-bump, bump-IsBytes, peek32-bump_self, peek32-bump_ne, byte-bump, size-bump_if,
  bump_if-IsBytes, peek32-bump_if_self, peek32-bump_if_ne, byte-bump_if, bit_ext, peek32_ext,
}
use ufs_fuse.Ufs.Alloc.Change.{
  edit_group, size-edit_group, edit_group-IsBytes, bit-edit_group, magic-edit_group,
  nifree-edit_group, ndir-edit_group, byte-edit_group_kept, place,
}
use ufs_fuse.Ufs.Alloc.Mounted.{
  Formatted, is_used, window, bit-window, peek32-window, edit_image, Changed,
}

module _ (on dir : Bool) (d e' : ℤ) (ufs : Ufs) (base : ℕ → ℕ) (image : Buf)
    (f : Formatted image ufs base) (g l : ℕ) (hg : g < ufs.sb.ncg) (hl : l < ufs.sb.ipg) where
  abbrev old : Buf
  old = window (base g) ufs.sb.bsize image

  abbrev new : Buf
  new = edit_group on dir d e' l old

  abbrev after : Buf
  after = edit_image on dir d e' ufs (base g) l image

  small : l < 2048
  small = omega (arith, f.ipg_le)

  size_new : new.size ≡ ufs.sb.bsize
  size_new = size-edit_group on dir d e' l old small

  placed_in : (a : ℕ) → a < ufs.sb.bsize → (place (base g) new image).byte (base g + a) ≡ new.byte a
  unfolding place
  placed_in a h = overlay_in (base g) new.size new.byte image.byte a (omega (arith, size_new))

  placed_out :
      (a : ℕ)
      → (a < base g) ⊎ (base g + ufs.sb.bsize ≤ a)
      → (place (base g) new image).byte a ≡ image.byte a
  unfolding place
  placed_out a h = overlay_out (base g) new.size new.byte image.byte a (omega (arith, size_new))

  byte_after :
      (a : ℕ)
      → (a < ufs.super_offset + 192) ⊎ (ufs.super_offset + 196 ≤ a)
      → (a < ufs.super_offset + 200) ⊎ (ufs.super_offset + 204 ≤ a)
      → after.byte a ≡ (place (base g) new image).byte a
  unfolding edit_image
  byte_after a h k =
      byte-bump_if _ e' _ dir a (omega (arith, h)) ∙ byte-bump _ d _ a (omega (arith, k))

  in_group : (a : ℕ) → a < ufs.sb.bsize → after.byte (base g + a) ≡ new.byte a
  in_group a h =
      byte_after (base g + a) (omega (arith, f.clear g hg)) (omega (arith, f.clear g hg))
      ∙ placed_in a h

  outside :
      (a : ℕ)
      → (a < base g) ⊎ (base g + ufs.sb.bsize ≤ a)
      → (a < ufs.super_offset + 192) ⊎ (ufs.super_offset + 196 ≤ a)
      → (a < ufs.super_offset + 200) ⊎ (ufs.super_offset + 204 ≤ a)
      → after.byte a ≡ image.byte a
  outside a h k m = byte_after a k m ∙ placed_out a h

  in_group_peek32 : (o : ℕ) → o + 4 ≤ ufs.sb.bsize → peek32 after (base g + o) ≡ peek32 new o
  in_group_peek32 o h =
      peek32_ext new after (base g + o) o
        (λ i k. ap after.byte (omega arith) ∙ in_group (o + i) (omega arith))

  magic_after :
      (h : ℕ) → h < ufs.sb.ncg → peek32 after (base h + ufs_cg_magic_offset) ≡ ufs_cg_magic
  magic_after h k = elim (ℕ_discrete g h) [
    | yes e ↦
        ap (λ x. peek32 after (base x + ufs_cg_magic_offset)) (sym e)
        ∙ in_group_peek32 ufs_cg_magic_offset (omega (arith, f.bsize_ge))
        ∙ magic-edit_group on dir d e' l old small
        ∙ peek32-window (base g) ufs.sb.bsize image ufs_cg_magic_offset
        ∙ f.magic g hg
    | no ne ↦
        peek32_ext image after (base h + ufs_cg_magic_offset) (base h + ufs_cg_magic_offset) (λ i j.
          outside (base h + ufs_cg_magic_offset + i)
            (omega (arith, f.apart g h hg k ne, f.bsize_ge))
            (omega (arith, f.clear h k, f.bsize_ge)) (omega (arith, f.clear h k, f.bsize_ge)))
        ∙ f.magic h k
  ]

  IsBytes-after : IsBytes after
  unfolding edit_image place
  IsBytes-after = bump_if-IsBytes _ e' _ dir (
      bump-IsBytes _ d _ (
        overlay-IsBytes (base g) new.size new.byte image.byte
          (edit_group-IsBytes on dir d e' l old small (λ a. f.bytes (base g + a))) f.bytes))

  size_after : after.size ≡ image.size
  unfolding edit_image place
  size_after = size-bump_if _ e' _ dir ∙ size-bump _ d _

  Formatted-after : Formatted after ufs base
  Formatted-after = record {
    bytes = IsBytes-after;
    located = f.located;
    inside = λ h k. omega (arith, f.inside h k, size_after);
    apart = f.apart;
    clear = f.clear;
    super_inside = omega (arith, f.super_inside, size_after);
    magic = magic_after;
    ipg_le = f.ipg_le;
    ipg_pos = f.ipg_pos;
    ncg_pos = f.ncg_pos;
    bsize_ge = f.bsize_ge;
  }

  used_self :
      (k : ℕ)
      → k < ufs.sb.ipg
      → is_used after (base g) k ≡ (if l == k then on else is_used image (base g) k)
  used_self k h =
      let at = base g in
      let o = ufs_cg_iused_offset + k / 8 in
      sym (bit-window ufs_cg_iused_offset at ufs.sb.bsize after k)
      ∙ bit_ext ufs_cg_iused_offset new (window at ufs.sb.bsize after) k
          (in_group o (omega (arith, f.bsize_ge, f.ipg_le)))
      ∙ bit-edit_group on dir d e' l old small k (λ a. f.bytes (at + a))
      ∙ ap (λ b. if l == k then on else b) (bit-window ufs_cg_iused_offset at ufs.sb.bsize image k)

  used_ne :
      (h k : ℕ)
      → h < ufs.sb.ncg
      → k < ufs.sb.ipg
      → g ≢ h
      → is_used after (base h) k ≡ is_used image (base h) k
  used_ne h k p q ne = bit_ext (base h + ufs_cg_iused_offset) image after k (
      outside (base h + ufs_cg_iused_offset + k / 8)
        (omega (arith, f.apart g h hg p ne, f.bsize_ge, f.ipg_le))
        (omega (arith, f.clear h p, f.bsize_ge, f.ipg_le))
        (omega (arith, f.clear h p, f.bsize_ge, f.ipg_le)))

  used_after :
      (h k : ℕ)
      → h < ufs.sb.ncg
      → k < ufs.sb.ipg
      → is_used after (base h) k ≡ (if (g == h) && (l == k) then on else is_used image (base h) k)
  used_after h k p q = elim (ℕ_discrete g h) [
    | yes e ↦
        subst
          (λ x.
            is_used after (base x) k
            ≡ (if (g == x) && (l == k) then on else is_used image (base x) k))
          e (rw (==_refl g) (used_self k q))
    | no ne ↦ rw (==_ne g h ne) (used_ne h k p q ne)
  ]

  total_before :
      (o : ℕ)
      → 192 ≤ o
      → o + 4 ≤ 208
      → peek32 (place (base g) new image) (ufs.super_offset + o)
        ≡ peek32 image (ufs.super_offset + o)
  total_before o h k =
      peek32_ext image _ (ufs.super_offset + o) (ufs.super_offset + o)
        (λ i j. placed_out (ufs.super_offset + o + i) (omega (arith, f.clear g hg)))

  total_nifree_after :
      peek32 after (ufs.super_offset + ufs_fs_cstotal_nifree_offset)
      ≡ adjusted (peek32 image (ufs.super_offset + ufs_fs_cstotal_nifree_offset)) d
  unfolding edit_image
  total_nifree_after =
      peek32-bump_if_ne _ e' _ dir _ (inr (omega arith))
      ∙ peek32-bump_self _ d _
      ∙ ap (λ n. adjusted n d) (total_before 200 (omega arith) (omega arith))

  total_ndir_after : peek32 after (ufs.super_offset + ufs_fs_cstotal_ndir_offset) ≡ (
      if dir
      then adjusted (peek32 image (ufs.super_offset + ufs_fs_cstotal_ndir_offset)) e'
      else peek32 image (ufs.super_offset + ufs_fs_cstotal_ndir_offset))
  unfolding edit_image
  total_ndir_after =
      peek32-bump_if_self _ e' _ dir
      ∙ ap (λ n. if dir then adjusted n e' else n)
          (peek32-bump_ne _ d _ _ (inl (omega arith))
            ∙ total_before 192 (omega arith) (omega arith))

  pub edit_image-Changed : Changed on dir d e' ufs base g l image after
  edit_image-Changed = record {
    formatted = Formatted-after;
    used = used_after;
    nifree =
        in_group_peek32 ufs_cg_cs_nifree_offset (omega (arith, f.bsize_ge))
        ∙ nifree-edit_group on dir d e' l old small
        ∙ ap (λ n. adjusted n d)
            (peek32-window (base g) ufs.sb.bsize image ufs_cg_cs_nifree_offset);
    ndir =
        in_group_peek32 ufs_cg_cs_ndir_offset (omega (arith, f.bsize_ge))
        ∙ ndir-edit_group on dir d e' l old small
        ∙ ap (λ n. if dir then adjusted n e' else n)
            (peek32-window (base g) ufs.sb.bsize image ufs_cg_cs_ndir_offset);
    total_nifree = total_nifree_after;
    total_ndir = total_ndir_after;
    elsewhere = λ a h k m. outside a h (omega (arith, k)) (omega (arith, m));
    rest = λ a h m r n c. in_group a h ∙ byte-edit_group_kept on dir d e' l old small a m r n c;
  }
