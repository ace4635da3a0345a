-- ===== src/Ufs/Write/Encoded.antt =====
-- What `encode_entry` writes is the record that a directory block holds.
use ufs_fuse.Base.{
  ℕ, suc, ◌+◌, ◌^◌, ◌≤◌, ◌<◌, ◌≡◌, ◌⊎◌, inl, inr, refl, ap, ap₂, ◌∙◌, List, [], ◌∷◌, length, get_or,
  ok, arith,
}
use ufs_fuse.Core.Image.{Buf, zeroed, overlay, overlay_in, overlay_out, write_at, write_at-ok}
use ufs_fuse.Core.Codec.{poke, put_u16-ok, put_u32-ok, size-poke, byte-poke_out}
use ufs_fuse.Core.Codec.RoundTrip.{peek16-poke_self, peek32-poke_ne}
use ufs_fuse.Core.Codec.Pokes.{
  Field, pokes, size-pokes, peek16_ext, peek32_ext, peek16-pokes, peek32-pokes,
}
use ufs_fuse.Ufs.Dir.{list_from}
use ufs_fuse.Ufs.Dir.Tidy.{Entry, Stored, Stored-ext, list_from_ext}
use ufs_fuse.Ufs.Write.Fields.{as_u16, as_u32}
use ufs_fuse.Ufs.Write.Entries.{String, as_bytes, byte_length, buf_of, encode_entry}

list_from-get_or :
    (xs : List ℕ) (f : ℕ → ℕ) (a : ℕ)
    → ((i : ℕ) → i < length xs → f (a + i) ≡ get_or xs i 0)
    → list_from f (length xs) a ≡ xs
unfolding list_from
list_from-get_or [] f a h = refl
list_from-get_or (x ∷ xs) f a h =
    ap₂ (λ y ys. y ∷ ys) (ap f (omega arith) ∙ h 0 (omega arith))
      (list_from-get_or xs f (a + 1) (λ i k. ap f (omega arith) ∙ h (suc i) (omega arith)))

module _ (inode_number len : ℕ) (name : String) where
  abbrev pub entry_for : Entry
  entry_for = record { inode = inode_number; record_length = len; name = as_bytes name }

  abbrev header_fields : List Field
  header_fields =
      record { width = 4; at = 0; value = as_u32 inode_number }
      ∷ record { width = 2; at = 4; value = as_u16 len }
      ∷ record { width = 2; at = 6; value = as_u16 (byte_length name) }
      ∷ []

  abbrev header : Buf
  header = pokes 0 header_fields (zeroed len)

  abbrev encoded : Buf
  encoded = record header {
    byte = overlay 8 (length (as_bytes name)) (buf_of (as_bytes name)).byte header.byte;
  }

  -- A record with room for its name is encoded without a panic, in as many bytes as it states.
  pub encode_entry-Stored :
      8 + length (as_bytes name) ≤ len
      → inode_number < 2 ^ 32
      → len < 2 ^ 16
      → (raw : Buf) × (encode_entry inode_number name len ≡ ok raw)
        × (raw.size ≡ len)
        × Stored raw 0 entry_for
  unfolding encode_entry buf_of byte_length zeroed
  encode_entry-Stored h hi hl =
      let fs = header_fields in
      let z = zeroed len in
      let size = size-pokes 0 fs z in
      let n = length (as_bytes name) in
      let out = λ (a : ℕ) (k : a < 8).
        overlay_out 8 n (buf_of (as_bytes name)).byte header.byte a (inl k) in
      (
        encoded,
        rw (
          put_u32-ok z 0 (as_u32 inode_number) (omega arith),
          put_u16-ok (poke 4 z 0 (as_u32 inode_number)) 4 (as_u16 len)
              (omega (arith, size-poke 4 z 0 (as_u32 inode_number))),
          put_u16-ok (poke 2 (poke 4 z 0 (as_u32 inode_number)) 4 (as_u16 len)) 6 (as_u16 n) (
              omega (
                arith,
                size-poke 4 z 0 (as_u32 inode_number),
                size-poke 2 (poke 4 z 0 (as_u32 inode_number)) 4 (as_u16 len),
              )),
          write_at-ok header 8 (buf_of (as_bytes name)) (omega (arith, size)),
        ),
        size,
        (
          omega (
            arith,
            peek32_ext 0 header encoded (λ i k. out (0 + i) (omega arith)),
            peek32-pokes 0 0 (as_u32 inode_number) fs z refl,
          ),
          omega (
            arith,
            peek16_ext 4 header encoded (λ i k. out (4 + i) (omega arith)),
            peek16-pokes 0 4 (as_u16 len) fs z refl,
          ),
          omega (
            arith,
            peek16_ext 6 header encoded (λ i k. out (6 + i) (omega arith)),
            peek16-pokes 0 6 (as_u16 n) fs z refl,
          ),
          list_from-get_or (as_bytes name) encoded.byte 8
              (λ i k. overlay_in 8 n (buf_of (as_bytes name)).byte header.byte i k),
        ),
      )

  -- The record written into a buffer, where there is room for it.
  pub put_record :
      (u : Buf) (at : ℕ)
      → 8 + length (as_bytes name) ≤ len
      → inode_number < 2 ^ 32
      → len < 2 ^ 16
      → at + len ≤ u.size
      → (raw u' : Buf) × (encode_entry inode_number name len ≡ ok raw)
        × (write_at u at raw ≡ ok u')
        × (u'.size ≡ u.size)
        × Stored u' at entry_for
        × ((a : ℕ) → (a < at) ⊎ (at + len ≤ a) → u'.byte a ≡ u.byte a)
  put_record u at h hi hl k =
      let (raw, e, size, s) = encode_entry-Stored h hi hl in
      let u' = record u { byte = overlay at raw.size raw.byte u.byte } in
      (
        raw,
        u',
        e,
        write_at-ok u at raw (omega (arith, size)),
        refl,
        Stored-ext raw u' 0 at entry_for
            (λ i p.
              overlay_in at raw.size raw.byte u.byte i (omega (arith, size))
              ∙ ap raw.byte (omega arith))
            s,
        λ a p. overlay_out at raw.size raw.byte u.byte a (omega (arith, size)),
      )

-- Another length written to a record.
pub Stored-poke :
    (u : Buf) (at v : ℕ) (r : Entry)
    → v < 2 ^ 16
    → Stored u at r
    → Stored (poke 2 u (at + 4) (as_u16 v)) at (record r { record_length = v })
Stored-poke u at v r hv (i, l, n, s) = (
  peek32-poke_ne 2 u (at + 4) (as_u16 v) at (inl (omega arith)) ∙ i,
  omega (arith, peek16-poke_self u (at + 4) (as_u16 v)),
  peek16_ext (at + 6) u (poke 2 u (at + 4) (as_u16 v))
        (λ k p. byte-poke_out 2 u (at + 4) (as_u16 v) (at + 6 + k) (inr (omega arith)))
      ∙ n,
  list_from_ext u.byte (poke 2 u (at + 4) (as_u16 v)).byte (length r.name) (at + 8) (at + 8)
        (λ k p. byte-poke_out 2 u (at + 4) (as_u16 v) (at + 8 + k) (inr (omega arith)))
      ∙ s,
)

-- A record that is not in use.
abbrev pub unused : ℕ → Entry
unused len = record { inode = 0; record_length = len; name = [] }

pub put_unused :
    (len : ℕ) (u : Buf) (at : ℕ)
    → 8 ≤ len
    → len < 2 ^ 16
    → at + len ≤ u.size
    → (raw u' : Buf) × (encode_entry 0 [] len ≡ ok raw)
      × (write_at u at raw ≡ ok u')
      × (u'.size ≡ u.size)
      × Stored u' at (unused len)
      × ((a : ℕ) → (a < at) ⊎ (at + len ≤ a) → u'.byte a ≡ u.byte a)
unfolding as_bytes
put_unused len u at h hl k = put_record 0 len [] u at h (omega arith) hl k
