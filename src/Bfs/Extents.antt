-- ===== src/Bfs/Extents.antt =====
-- The extents that `format` lays out.
use ufs_fuse.Base.{
  ℕ, ◌+◌, ◌-◌, ◌∙◌, ◌/◌, ◌%◌, ◌^◌, ◌≤◌, ◌<◌, ◌≡◌, ◌≢◌, ◌⊎◌, inl, inr, refl, ap, List, [], ◌∷◌, ok,
  Bool-cases, arith, ltb, ◌==◌, not, ◌&&◌, true, false, ==_ne, lt→ltb, map, length, ap₂, ℕ_discrete,
  dec_le,
}
use ufs_fuse.Core.Image.{Buf}
use ufs_fuse.Core.Consts.{sector_size}
use ufs_fuse.Bfs.{round_up}
use ufs_fuse.Bfs.Read.{inode_size}
use ufs_fuse.Bfs.Format.{
  no_room_for_file, Layout, formatted, refused, place, prepend, layout_inode, lay_out,
}
use ufs_fuse.Ufs.Write.Entries.{String}

-- The contents of the files, in order, stand in sectors of their own from `from` on and end before
-- `size`; a file that has no contents has no place.
abbrev pub Apart : (from size : ℕ) → List Layout → Type 0
Apart from size [] = from ≤ size
Apart from size (l ∷ ls) =
    ((l.contents.size ≡ 0) × Apart from size ls)
    ⊎ ((from ≤ l.start) × (l.start % 512 ≡ 0) × Apart (l.start + l.contents.size) size ls)

-- What the reader takes for the size of each file is the size of its contents.
abbrev pub Sized : List Layout → Type 0
Sized [] = Unit {0}
Sized (l ∷ ls) = (inode_size (l.start / 512) l.end_offset ≡ l.contents.size) × Sized ls

Apart-from :
    (from to size : ℕ) (ls : List Layout) → from ≤ to → Apart to size ls → Apart from size ls
Apart-from from to size [] h a = omega arith
Apart-from from to size (l ∷ ls) h (inl a) = inl (a.0, Apart-from from to size ls h a.1)
Apart-from from to size (l ∷ ls) h (inr a) = inr (omega (arith, a.0), a.1, a.2)

round_up_le : (n : ℕ) → n ≤ round_up n sector_size
round_up_le n = omega arith

round_up_mod : (n : ℕ) → round_up n sector_size % 512 ≡ 0
round_up_mod n = omega arith

-- The room that the files take.
abbrev pub room : List (String × Buf) → ℕ
room [] = 0
room (f ∷ files) = round_up f.1.size sector_size + room files

abbrev pub file_of : Layout → String × Buf
file_of l = (l.name, l.contents)

layout_inode-ok : (index : ℕ) → index + 3 < 2 ^ 16 → layout_inode index ≡ ok (index + 3)
unfolding layout_inode
layout_inode-ok index h = ground arith

test_room : (n size next : ℕ) → next ≤ size → (not (n == 0) && ltb size next) ≡ false
test_room n size next h = ground arith

test_full : (n size next : ℕ) → n ≢ 0 → size < next → (not (n == 0) && ltb size next) ≡ true
test_full n size next e h = rw (==_ne n 0 e, lt→ltb size next h) refl

file_of-place : (inode from : ℕ) (f : String × Buf) → file_of (place inode f from) ≡ f
unfolding place
file_of-place inode from f = elim (Bool-cases (f.1.size == 0)) [
  | inl e ↦ rw e refl
  | inr e ↦ rw e refl
]

place_empty :
    (inode from : ℕ) (f : String × Buf)
    → f.1.size ≡ 0
    → (place inode f from).start ≡ 0 × (place inode f from).end_offset ≡ 0
unfolding place
place_empty inode from f e = rw e (refl, refl)

place_full :
    (inode from : ℕ) (f : String × Buf)
    → f.1.size ≢ 0
    → from + f.1.size ≤ 2 ^ 32
    → (place inode f from).start ≡ from × (place inode f from).end_offset ≡ from + f.1.size - 1
unfolding place
place_full inode from f e h = rw (==_ne f.1.size 0 e) (refl, omega arith)

-- A full file that stands at `from`: the reader computes its size.
inode_size_full :
    (from n : ℕ) → n ≢ 0 → from % 512 ≡ 0 → 0 < from → inode_size (from / 512) (from + n - 1) ≡ n
unfolding inode_size
inode_size_full from n e d p = ground arith

place-Apart :
    (inode from size : ℕ) (f : String × Buf) (ls : List Layout)
    → from % 512 ≡ 0
    → from + f.1.size ≤ 2 ^ 32
    → Apart (from + round_up f.1.size sector_size) size ls
    → Apart from size (place inode f from ∷ ls)
place-Apart inode from size f ls d b a = elim (ℕ_discrete f.1.size 0) [
  | yes e ↦ inl (
    ap (λ x. x.1.size) (file_of-place inode from f) ∙ e,
    Apart-from from _ size ls (omega arith) a,
  )
  | no e ↦
      let p = place_full inode from f e b in
      let c : (place inode f from).contents.size ≡ f.1.size =
        ap (λ x. x.1.size) (file_of-place inode from f) in
      inr (
        omega (arith, p.0),
        ap (λ x. x % 512) p.0 ∙ d,
        Apart-from _ (from + round_up f.1.size sector_size) size ls (omega (arith, p.0, c)) a,
      )
]

place_size :
    (inode from : ℕ) (f : String × Buf)
    → from % 512 ≡ 0
    → 0 < from
    → from + f.1.size ≤ 2 ^ 32
    → inode_size ((place inode f from).start / 512) (place inode f from).end_offset
      ≡ (place inode f from).contents.size
unfolding inode_size
place_size inode from f d p b =
    let c : (place inode f from).contents.size ≡ f.1.size =
      ap (λ x. x.1.size) (file_of-place inode from f) in
    elim (ℕ_discrete f.1.size 0) [
      | yes e ↦ let q = place_empty inode from f e in rw (q.0, c, e) refl
      | no e ↦
          let q = place_full inode from f e b in
          rw (q.0, q.1, c) (inode_size_full from f.1.size e d p)
    ]

-- In a slice of at most 2 ^ 32 bytes and with numbers left for the inodes of the files, `lay_out` from
-- a sector after the first that begins in the slice or at its end succeeds exactly where the files have
-- room, each rounded up to whole sectors. Then it keeps every name
-- and contents in order, gives the files sectors of their own inside the slice, and the reader
-- takes the size of each file from its extent. Otherwise it reports a file that has no room.
pub lay_out_lem :
    (size : ℕ) (files : List (String × Buf)) (index from : ℕ)
    → index + length files + 2 < 2 ^ 16
    → size ≤ 2 ^ 32
    → from % 512 ≡ 0
    → 0 < from
    → from ≤ size
    → ((from + room files ≤ size)
        × (ls : List Layout) × (lay_out size files index from ≡ ok (formatted ls))
        × (map file_of ls ≡ files)
        × Apart from size ls
        × Sized ls)
      ⊎ ((size < from + room files)
          × (name : String) × (lay_out size files index from
              ≡ ok (refused (no_room_for_file name))))
unfolding lay_out prepend
lay_out_lem size [] index from i b d p h = inl (omega arith, [], refl, refl, h, tt)
lay_out_lem size (f ∷ files) index from i b d p h =
    let next = from + round_up f.1.size sector_size in
    let number = layout_inode-ok index (omega arith) in
    elim (dec_le next size) [
      | yes r ↦
          let test = test_room f.1.size size next r in
          let placed = place (index + 3) f from in
          elim (lay_out_lem size files (index + 1) next (omega arith) b (omega arith) (omega arith)
            r) [
              | inl (room_left, ls, e, names, apart, sized) ↦ inl (
                omega arith,
                placed ∷ ls,
                rw (number, test, e) refl,
                ap₂ (λ x xs. x ∷ xs) (file_of-place (index + 3) from f) names,
                place-Apart (index + 3) from size f ls d (omega arith) apart,
                (place_size (index + 3) from f d p (omega arith), sized),
              )
              | inr (full, name, e) ↦ inr (omega arith, name, rw (number, test, e) refl)
            ]
      | no r ↦ inr (
        omega arith,
        f.0,
        rw (number, test_full f.1.size size next (λ e. omega arith) (omega arith)) refl,
      )
    ]
