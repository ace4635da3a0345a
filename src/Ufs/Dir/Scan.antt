-- ===== src/Ufs/Dir/Scan.antt =====
-- The scan that compares names in place finds what the decoded records would give.
use ufs_fuse.Base.{
  ℕ, zero, suc, ◌+◌, ◌≤◌, ◌<◌, ◌≡◌, ◌≢◌, inl, inr, refl, sym, ap, ◌∙◌, false, not, ◌&&◌, Option,
  none, some, List, [], ◌∷◌, length, min, Result, ok, ◌>>=◌, ◌==◌, if◌then◌else◌, arith,
  Option-cases, dec_lt, lt→leb, le→leb, ==_refl, ==_ne, ℕ_discrete,
}
use ufs_fuse.Core.Image.{Buf}
use ufs_fuse.Ufs.Dir.{
  DirEntryHeader, DirEntry, ascii_or_replacement, decode_ascii_replace, name_bytes, same_bytes,
  records_loop, iter_directory_records, scan_loop, scan_block,
}
use ufs_fuse.Ufs.Dir.Records.{
  length-list_from, name_bytes-ok, header_at, header-ok, header_bounds, name_at, entry_of, entry-ok,
  entry-none,
}

abbrev pub IsAscii : List ℕ → Type 0
IsAscii [] = Unit {0}
IsAscii (x ∷ xs) = (x < 128) × IsAscii xs

same_char : (x y : ℕ) → y < 128 → (ascii_or_replacement x == y) ≡ (x == y)
unfolding ascii_or_replacement
same_char x y h = ground arith

-- Decoding does not change which records an ASCII name matches.
pub same_bytes-decode :
    (xs ys : List ℕ) → IsAscii ys → same_bytes (decode_ascii_replace xs) ys ≡ same_bytes xs ys
unfolding same_bytes decode_ascii_replace
same_bytes-decode [] [] h = refl
same_bytes-decode [] (y ∷ ys) h = refl
same_bytes-decode (x ∷ xs) [] h = refl
same_bytes-decode (x ∷ xs) (y ∷ ys) h = rw (same_char x y h.0, same_bytes-decode xs ys h.1)

pub same_bytes-length_ne : (xs ys : List ℕ) → length xs ≢ length ys → same_bytes xs ys ≡ false
unfolding same_bytes
same_bytes-length_ne [] [] h = absurd (h refl)
same_bytes-length_ne [] (y ∷ ys) h = refl
same_bytes-length_ne (x ∷ xs) [] h = refl
same_bytes-length_ne (x ∷ xs) (y ∷ ys) h =
    rw (same_bytes-length_ne xs ys (λ e. h (ap suc e))) (ground arith)

-- The inode number of the first record in use with the name.
unfoldable pub find_name : List ℕ → List DirEntry → Option ℕ
find_name name [] = none
find_name name (e ∷ es) =
    if not (e.inode == 0) && same_bytes e.name name then some e.inode else find_name name es

module _ (block : Buf) (span : ℕ) (fits : span ≤ block.size) (name : List ℕ)
    (a : IsAscii name) where
  -- The comparison of the name of the record at `offset`, with whatever follows.
  abbrev compare : ℕ → ℕ → Option ℕ → Result (Option ℕ)
  compare offset inode rest = do
    raw ← name_bytes block (offset + 8) (length name)
    if same_bytes raw name then ok (some inode) else ok rest

  test_lem :
      (offset : ℕ) (h : DirEntryHeader) (rest : Option ℕ)
      → header_at block span fits offset ≡ some h
      → (if not (h.inode == 0) && (h.name_length == length name)
          then compare offset h.inode rest
          else ok rest)
        ≡ ok (
            if not (h.inode == 0) && same_bytes (entry_of block span fits offset h).name name
            then some h.inode
            else rest)
  test_lem offset h rest e =
      let at = name_at block span fits offset in
      let (_, _, _, inside) = header_bounds block span fits offset _ _ _ h e in
      elim (ℕ_discrete h.name_length (length name)) [
        | no ne ↦
            let differ =
              same_bytes-length_ne (at h.name_length) name
                (λ q. ne (sym (length-list_from block.byte h.name_length (offset + 8)) ∙ q)) in
            rw
              (
                ==_ne h.name_length (length name) ne,
                same_bytes-decode (at h.name_length) name a,
                differ,
              )
              (ground arith)
        | yes p ↦
            let room : offset + 8 + length name ≤ block.size = omega arith in
            rw
              (
                p,
                ==_refl (length name),
                same_bytes-decode (at (length name)) name a,
                name_bytes-ok block (offset + 8) (length name) room,
              )
              (ground arith)
      ]

  scan_loop_lem :
      (fuel offset : ℕ)
      → (rs : List DirEntry) × (records_loop block span fuel offset ≡ ok rs)
        × (scan_loop block name span fuel offset ≡ ok (find_name name rs))
  unfolding records_loop scan_loop find_name
  scan_loop_lem zero offset = ([], refl, refl)
  scan_loop_lem (suc fuel) offset = elim (dec_lt span (offset + 8)) [
    | yes p ↦ let short = lt→leb (offset + 8) span p in ([], rw short, rw short)
    | no p ↦
        let r : offset + 8 ≤ span = omega arith in
        let long = le→leb (offset + 8) span r in
        elim (Option-cases (header_at block span fits offset)) [
          | inl e ↦ (
            [],
            rw (long, entry-none block span fits offset r e),
            rw (long, header-ok block span fits offset r, e),
          )
          | inr (h, e) ↦
              let (rest, c, s) = scan_loop_lem fuel (offset + h.record_length) in
              (
                entry_of block span fits offset h ∷ rest,
                rw (long, entry-ok block span fits offset h r e, c),
                rw (long, header-ok block span fits offset r, e, s)
                    (test_lem offset h (find_name name rest) e),
              )
        ]
  ]

-- Looking a name up in a block by comparing bytes in place, without decoding the records, gives for an
-- ASCII name the inode number of the first record in use that has this name, among the records that the
-- walk of the same block decodes; and it gives none if there is none. It never panics.
pub scan_block-find_name :
    (block : Buf) (span : ℕ) (name : List ℕ)
    → span ≤ block.size
    → IsAscii name
    → (rs : List DirEntry) × (iter_directory_records block span ≡ ok rs)
      × (scan_block block name span ≡ ok (find_name name rs))
unfolding iter_directory_records scan_block
scan_block-find_name block span name fits a =
    let whole : min block.size span ≡ span = omega arith in
    rw whole (scan_loop_lem block span fits name a span 0)
