-- ===== src/Ufs/Dir/Records.antt =====
-- The walk of the records of a block.
use ufs_fuse.Base.{
  ℕ, zero, suc, ◌+◌, ◌-◌, ◌≤◌, ◌<◌, ◌≡◌, ◌⊎◌, inl, inr, refl, ap, ◌∙◌, Option, none, some, List, [],
  ◌∷◌, length, min, ok, arith, Option-cases, dec_lt, lt→leb, le→leb,
}
use ufs_fuse.Core.Image.{Buf, slice-ok}
use ufs_fuse.Core.Codec.{peek16, peek32, u16-ok, u32-ok}
use ufs_fuse.Ufs.Dir.{
  DirEntryHeader, DirEntry, check_header, decode_directory_header, list_from, name_bytes,
  decode_ascii_replace, decode_directory_entry, records_loop, iter_directory_records,
}

list_from-shift :
    (f : ℕ → ℕ) (lo n i : ℕ) → list_from (λ a. f (lo + a)) n i ≡ list_from f n (lo + i)
unfolding list_from
list_from-shift f lo zero i = refl
list_from-shift f lo (suc n) i =
    let e : lo + (i + 1) ≡ lo + i + 1 = omega arith in
    ap (λ xs. f (lo + i) ∷ xs) (list_from-shift f lo n (i + 1) ∙ ap (list_from f n) e)

pub length-list_from : (f : ℕ → ℕ) (n a : ℕ) → length (list_from f n a) ≡ n
unfolding list_from
length-list_from f zero a = refl
length-list_from f (suc n) a = omega (arith, length-list_from f n (a + 1))

pub length-map_ascii : (xs : List ℕ) → length (decode_ascii_replace xs) ≡ length xs
unfolding decode_ascii_replace
length-map_ascii [] = refl
length-map_ascii (x ∷ xs) = omega (arith, length-map_ascii xs)

pub name_bytes-ok :
    (b : Buf) (start n : ℕ)
    → start + n ≤ b.size
    → name_bytes b start n ≡ ok (list_from b.byte n start)
unfolding name_bytes
name_bytes-ok b start n h =
    let len : start + n - start ≡ n = omega arith in
    let at : start + 0 ≡ start = omega arith in
    rw (slice-ok b start (start + n) (omega arith) h, len)
      (ap ok (list_from-shift b.byte start n 0 ∙ ap (list_from b.byte n) at))

module _ (bytes : Buf) (max : ℕ) (fits : max ≤ bytes.size) where
  -- The header at `offset`, read without the checks on the buffer's size.
  abbrev pub header_at : ℕ → Option DirEntryHeader
  header_at offset =
      check_header offset max (peek32 bytes offset) (peek16 bytes (offset + 4))
        (peek16 bytes (offset + 6))

  pub header-ok :
      (offset : ℕ)
      → offset + 8 ≤ max
      → decode_directory_header bytes offset max ≡ ok (header_at offset)
  unfolding decode_directory_header
  header-ok offset h = ground (
    arith,
    u32-ok bytes offset (omega arith),
    u16-ok bytes (offset + 4) (omega arith),
    u16-ok bytes (offset + 6) (omega arith),
  )

  -- What the checks leave of a header.
  pub header_bounds :
      (offset inode record_length name_length : ℕ) (h : DirEntryHeader)
      → check_header offset max inode record_length name_length ≡ some h
      → (0 < h.record_length)
        × (offset + h.record_length ≤ max)
        × (h.name_length ≤ 255)
        × (offset + 8 + h.name_length ≤ max)
  unfolding check_header
  header_bounds offset i r n h e = ground arith

  abbrev pub name_at : ℕ → ℕ → List ℕ
  name_at offset n = list_from bytes.byte n (offset + 8)

  abbrev pub entry_of : ℕ → DirEntryHeader → DirEntry
  entry_of offset h = record {
    inode = h.inode;
    record_length = h.record_length;
    name_length = h.name_length;
    name = decode_ascii_replace (name_at offset h.name_length);
    offset = offset;
  }

  pub entry-ok :
      (offset : ℕ) (h : DirEntryHeader)
      → offset + 8 ≤ max
      → header_at offset ≡ some h
      → decode_directory_entry bytes offset max ≡ ok (some (entry_of offset h))
  unfolding decode_directory_entry
  entry-ok offset h r e =
      let b = header_bounds offset _ _ _ h e in
      rw (header-ok offset r, e, name_bytes-ok bytes (offset + 8) h.name_length (omega arith))

  pub entry-none :
      (offset : ℕ)
      → offset + 8 ≤ max
      → header_at offset ≡ none
      → decode_directory_entry bytes offset max ≡ ok none
  unfolding decode_directory_entry
  entry-none offset r e = rw (header-ok offset r, e)

  -- The records from `offset` on follow one another, each inside the `max` bytes and named within its
  -- bounds, up to where no header fits or the one that stands there is malformed.
  abbrev pub Chain : ℕ → List DirEntry → Type 0
  Chain offset [] = (max < offset + 8) ⊎ (decode_directory_header bytes offset max ≡ ok none)
  Chain offset (e ∷ es) =
      (decode_directory_entry bytes offset max ≡ ok (some e))
      × (e.offset ≡ offset)
      × (0 < e.record_length)
      × (offset + e.record_length ≤ max)
      × (e.name_length ≤ 255)
      × (length e.name ≡ e.name_length)
      × Chain (offset + e.record_length) es

  pub records_loop_lem :
      (fuel offset : ℕ)
      → max ≤ offset + fuel
      → (rs : List DirEntry) × (records_loop bytes max fuel offset ≡ ok rs) × Chain offset rs
  unfolding records_loop
  records_loop_lem zero offset h = ([], refl, inl (omega arith))
  records_loop_lem (suc fuel) offset h = elim (dec_lt max (offset + 8)) [
    | yes p ↦ ([], rw (lt→leb (offset + 8) max p), inl p)
    | no p ↦
        let r : offset + 8 ≤ max = omega arith in
        elim (Option-cases (header_at offset)) [
          | inl e ↦ (
            [],
            rw (le→leb (offset + 8) max r, entry-none offset r e),
            inr (header-ok offset r ∙ ap ok e),
          )
          | inr (h', e) ↦
              let (pos_len, inside, short, _) = header_bounds offset _ _ _ h' e in
              let (rest, c, chain) =
                records_loop_lem fuel (offset + h'.record_length) (omega arith) in
              (
                entry_of offset h' ∷ rest,
                rw (le→leb (offset + 8) max r, entry-ok offset h' r e, c),
                (
                  entry-ok offset h' r e,
                  refl,
                  pos_len,
                  inside,
                  short,
                  length-map_ascii (name_at offset h'.name_length)
                      ∙ length-list_from bytes.byte h'.name_length (offset + 8),
                  chain,
                ),
              )
        ]
  ]

-- The walk of the records of a block never panics and comes to an end, whatever the bytes. From offset 0
-- on the records follow one another without a gap, each of at least one byte and inside the block, with
-- a name of at most 255 characters and of the length that it states; they end where no header fits or
-- where a header is malformed.
pub iter_directory_records_lem :
    (bytes : Buf) (size : ℕ)
    → (rs : List DirEntry) × (iter_directory_records bytes size ≡ ok rs)
      × Chain bytes (min bytes.size size) (omega arith) 0 rs
unfolding iter_directory_records
iter_directory_records_lem bytes size =
    records_loop_lem bytes (min bytes.size size) (omega arith) (min bytes.size size) 0 (omega arith)
