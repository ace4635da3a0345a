-- ===== src/Ufs/Write/InsertLaws.antt =====
-- The records of a directory block after an entry was put in.
use ufs_fuse.Base.{
  ℕ, ◌+◌, ◌-◌, ◌^◌, ◌≤◌, ◌<◌, ◌≡◌, ◌⊎◌, inl, inr, refl, ap, ◌∙◌, none, some, List, [], ◌∷◌, length,
  max, ok, leb, if◌then◌else◌, arith, dec_le, le→leb, lt→leb,
}
use ufs_fuse.Core.Image.{Buf, zeroed, overlay, overlay_in, write_at, write_at-ok}
use ufs_fuse.Core.Codec.{poke, put_u16-ok, byte-poke_out, size-poke}
use ufs_fuse.Core.Consts.{ufs_dirsiz}
use ufs_fuse.Ufs.Dir.Tidy.{Entry, Stored, Stored-ext, IsRoomy, Tidy}
use ufs_fuse.Ufs.Write.Fields.{as_u16}
use ufs_fuse.Ufs.Write.Entries.{
  String, as_bytes, byte_length, InsertSlot, encode_entry, make_room, insert_at,
}
use ufs_fuse.Ufs.Write.Encoded.{unused, entry_for, put_record, put_unused, Stored-poke}

-- What a name of `n` bytes needs.
pub dirsiz_bounds : (n : ℕ) → (8 + n ≤ ufs_dirsiz n) × (ufs_dirsiz n ≤ 12 + n)
unfolding ufs_dirsiz
dirsiz_bounds n = (omega arith, omega arith)

module _ (i : ℕ) (name : String) where
  abbrev pub needed : ℕ
  needed = ufs_dirsiz (length (as_bytes name))

  -- The new record in a free one of `len` bytes, with what is left of it.
  abbrev pub filled : ℕ → List Entry
  filled len =
      if leb 8 (len - needed)
      then entry_for i needed name ∷ unused (len - needed) ∷ []
      else entry_for i len name ∷ []

  abbrev pub slot_in : (block_offset at len : ℕ) → InsertSlot
  slot_in block_offset at len = record {
    block_offset = block_offset;
    entry_offset = at;
    record_length = len;
    previous_entry_offset = none;
    previous_entry_new_length = none;
  }

  abbrev pub slot_after : (at low len : ℕ) → InsertSlot
  slot_after at low len = record {
    block_offset = 0;
    entry_offset = at + low;
    record_length = len;
    previous_entry_offset = some at;
    previous_entry_new_length = some low;
  }

  -- The bytes of the directory, with zeros after them.
  abbrev grown : Buf → ℕ → Buf
  grown b size = record { size = size; byte = overlay 0 b.size b.byte (λ _. 0) }

  grown-ok : (b : Buf) (size : ℕ) → b.size ≤ size → write_at (zeroed size) 0 b ≡ ok (grown b size)
  unfolding zeroed
  grown-ok b size h = write_at-ok (zeroed size) 0 b (omega arith)

  byte-grown : (b : Buf) (size a : ℕ) → a < b.size → (grown b size).byte a ≡ b.byte a
  byte-grown b size a h =
      ap (grown b size).byte (omega arith) ∙ overlay_in 0 b.size b.byte (λ _. 0) a h

  -- `b'` has `size` bytes, those of `b` but for the `len` ones at `at`, which are the records.
  abbrev pub Placed : Buf → (size at len : ℕ) → List Entry → Buf → Type 0
  Placed b size at len rs b' =
      (b'.size ≡ size)
      × ((a : ℕ) → a < b.size → (a < at) ⊎ (at + len ≤ a) → b'.byte a ≡ b.byte a)
      × Tidy b' at rs (at + len)

  module _ (b : Buf) (block_offset size at len : ℕ) (whole : b.size ≤ size)
      (e : max (max b.size (block_offset + 512)) (at + max needed len) ≡ size) where
    insert_at-filler :
        (fill v raw b' : Buf)
        → 8 ≤ len - needed
        → encode_entry 0 [] (len - needed) ≡ ok fill
        → write_at (grown b size) (at + needed) fill ≡ ok v
        → encode_entry i name needed ≡ ok raw
        → write_at v at raw ≡ ok b'
        → insert_at b (slot_in block_offset at len) i name ≡ ok b'
    unfolding insert_at make_room byte_length
    insert_at-filler fill v raw b' p ef wf er wr =
        rw (e, grown-ok b size whole, le→leb 8 (len - needed) p, ef, wf, er, wr)

    insert_at-exact :
        (raw b' : Buf)
        → len - needed < 8
        → encode_entry i name (max needed len) ≡ ok raw
        → write_at (grown b size) at raw ≡ ok b'
        → insert_at b (slot_in block_offset at len) i name ≡ ok b'
    unfolding insert_at make_room byte_length
    insert_at-exact raw b' p er wr =
        rw (e, grown-ok b size whole, lt→leb 8 (len - needed) p, er, wr)

    pub place_free :
        i < 2 ^ 32
        → length (as_bytes name) ≤ 255
        → needed ≤ len
        → len ≤ 512
        → at + len ≤ size
        → (b' : Buf) × (insert_at b (slot_in block_offset at len) i name ≡ ok b')
          × Placed b size at len (filled len) b'
    place_free hi short h hl inside =
        let u = grown b size in
        let (roomy, small) = dirsiz_bounds (length (as_bytes name)) in
        elim (dec_le 8 (len - needed)) [
          | yes p ↦
              let (fill, v, ef, wf, sf, tf, of) =
                put_unused (len - needed) u (at + needed) p (omega arith) (omega arith) in
              let (raw, b', er, wr, sr, tr, out) =
                put_record i needed name v at roomy hi (omega arith) (omega arith) in
              let kept =
                Stored-ext v b' (at + needed) (at + needed) (unused (len - needed))
                  (λ j k. out (at + needed + j) (inr (omega arith))) tf in
              let rest : at + needed + (len - needed) ≡ at + len = omega arith in
              (
                b',
                insert_at-filler fill v raw b' p ef wf er wr,
                (
                  sr ∙ sf,
                  λ a k o. out a (omega arith) ∙ of a (omega arith) ∙ byte-grown b size a k,
                  rw (le→leb 8 (len - needed) p)
                      (tr, (roomy, short), (kept, (p, omega arith), rest)),
                ),
              )
          | no p ↦
              let same : max needed len ≡ len = omega arith in
              let (raw, b', er, wr, sr, tr, out) =
                put_record i len name u at (omega arith) hi (omega arith) (omega arith) in
              (
                b',
                insert_at-exact raw b' (omega arith) (ap (encode_entry i name) same ∙ er) wr,
                (
                  sr,
                  λ a k o. out a o ∙ byte-grown b size a k,
                  rw (lt→leb 8 (len - needed) (omega arith)) (tr, (omega arith, short), refl),
                ),
              )
        ]

  -- The new record behind one in use, which is cut to what its name needs.
  abbrev pub low_of : Entry → ℕ
  low_of r = ufs_dirsiz (length r.name)

  abbrev pub split : Entry → List Entry
  split r =
      record r { record_length = low_of r } ∷ entry_for i (r.record_length - low_of r) name ∷ []

  insert_at-split :
      (b : Buf) (at low len : ℕ) (raw b' : Buf)
      → b.size ≡ 512
      → at + 6 ≤ 512
      → max (max b.size (0 + 512)) (at + low + max needed len) ≡ 512
      → encode_entry i name len ≡ ok raw
      → write_at (poke 2 (grown b 512) (at + 4) (as_u16 low)) (at + low) raw ≡ ok b'
      → insert_at b (slot_after at low len) i name ≡ ok b'
  unfolding insert_at make_room byte_length
  insert_at-split b at low len raw b' sb h e er wr = rw (
    e,
    grown-ok b 512 (omega arith),
    put_u16-ok (grown b 512) (at + 4) (as_u16 low) (omega arith),
    er,
    wr,
  )

  pub place_split :
      (b : Buf) (at : ℕ) (r : Entry)
      → i < 2 ^ 32
      → length (as_bytes name) ≤ 255
      → b.size ≡ 512
      → Stored b at r
      → IsRoomy r
      → needed ≤ r.record_length - low_of r
      → at + r.record_length ≤ 512
      → (b' : Buf) × (insert_at b (slot_after at (low_of r) (r.record_length - low_of r)) i name
          ≡ ok b')
        × Placed b 512 at r.record_length (split r) b'
  place_split b at r hi short sb s w h inside =
      let low = low_of r in
      let len = r.record_length - low in
      let u = grown b 512 in
      let u1 = poke 2 u (at + 4) (as_u16 low) in
      let size1 = size-poke 2 u (at + 4) (as_u16 low) in
      let (roomy, small) = dirsiz_bounds (length (as_bytes name)) in
      let (roomy_r, small_r) = dirsiz_bounds (length r.name) in
      let (raw, b', er, wr, sr, tr, out) =
        put_record i len name u1 (at + low) (omega arith) hi (omega arith) (omega (arith, size1)) in
      let in_u = Stored-ext b u at at r (λ j k. byte-grown b 512 (at + j) (omega (arith, w.0))) s in
      let in_u1 = Stored-poke u at low r (omega (arith, w.1)) in_u in
      let cut : Entry = record r { record_length = low } in
      let in_b' = Stored-ext u1 b' at at cut (λ j k. out (at + j) (inl (omega arith))) in_u1 in
      let rest : at + low + len ≡ at + r.record_length = omega arith in
      (
        b',
        insert_at-split b at low len raw b' sb (omega (arith, w.0)) (omega arith) er wr,
        (
          sr ∙ size1,
          λ a k o.
              out a (omega arith)
              ∙ byte-poke_out 2 u (at + 4) (as_u16 low) a (omega (arith, w.0))
              ∙ byte-grown b 512 a k,
          (in_b', (roomy_r, w.1), (tr, (omega arith, short), rest)),
        ),
      )
