-- ===== src/Ufs/Write/RemovedRecords.antt =====
-- The removal of an entry as an operation on the list of records, and that `remove_entry` does it.
use ufs_fuse.Base.{
  ℕ, zero, suc, ◌+◌, ◌/◌, ◌≤◌, ◌<◌, ◌≡◌, ◌⊎◌, inl, inr, refl, ap, ◌∙◌, subst, Bool, true, false,
  not, ◌&&◌, ◌||◌, Option, none, some, List, [], ◌∷◌, length, min, Result, ok, ◌==◌, if◌then◌else◌,
  arith, le→leb, lt→leb, lt→ltb,
}
use native.Mathlib.Nat.{mod-eq_of_lt, div-eq_of_lt}
use ufs_fuse.Core.Image.{Buf}
use ufs_fuse.Core.Codec.{poke, put_u16-ok, byte-poke_out, size-poke}
use ufs_fuse.Ufs.Dir.{
  DirEntry, decode_ascii_replace, same_bytes, records_loop, iter_directory_records,
}
use ufs_fuse.Ufs.Dir.Records.{entry-ok}
use ufs_fuse.Ufs.Dir.Scan.{IsAscii, same_bytes-decode}
use ufs_fuse.Ufs.Dir.Tidy.{
  Entry, Stored, Stored-ext, IsRoomy, Tidy, Tidy-le, Tidy-ext, Tidy-header, header_of,
}
use ufs_fuse.Ufs.Write.Entries.{String}
use ufs_fuse.Ufs.Write.Removal.{add_u16, remove_record, remove_loop}
use ufs_fuse.Ufs.Write.Encoded.{unused, put_unused, Stored-poke}

-- A record in use that has the name.
abbrev pub has_name : List ℕ → Entry → Bool
has_name name r = not (r.inode == 0) && same_bytes r.name name

abbrev pub before : Entry → Option (List Entry) → Option (List Entry)
before p none = none
before p (some rest) = some (p ∷ rest)

-- The records after `p`, of which the first with the name is joined to the one before it.
unfoldable pub merge_from : List ℕ → Entry → List Entry → Option (List Entry)
merge_from name p [] = none
merge_from name p (r ∷ rs) =
    if has_name name r
    then some (record p { record_length = p.record_length + r.record_length } ∷ rs)
    else before p (merge_from name r rs)

-- The first two records of a block are emptied, a later one is joined to the one before it.
unfoldable pub take_out : List ℕ → List Entry → Option (List Entry)
take_out name [] = none
take_out name (r ∷ []) = if has_name name r then some (unused r.record_length ∷ []) else none
take_out name (r ∷ q ∷ rs) =
    if has_name name r
    then some (unused r.record_length ∷ q ∷ rs)
    else if has_name name q
    then some (r ∷ unused q.record_length ∷ rs)
    else before r (merge_from name q rs)

-- The records as `iter_directory_records` decodes them.
abbrev pub decoded : ℕ → Entry → DirEntry
decoded c r = record {
  inode = r.inode;
  record_length = r.record_length;
  name_length = length r.name;
  name = decode_ascii_replace r.name;
  offset = c;
}

abbrev pub decoded_all : ℕ → List Entry → List DirEntry
decoded_all c [] = []
decoded_all c (r ∷ rs) = decoded c r ∷ decoded_all (c + r.record_length) rs

module _ (b : Buf) (sb : b.size ≡ 512) where
  fits : 512 ≤ b.size
  fits = omega arith

  records_loop-Tidy :
      (fuel c : ℕ) (rs : List Entry)
      → Tidy b c rs 512
      → 512 ≤ c + fuel
      → records_loop b 512 fuel c ≡ ok (decoded_all c rs)
  unfolding records_loop
  records_loop-Tidy zero c [] t h = refl
  records_loop-Tidy zero c (r ∷ rs) (s, w, t) h =
      absurd (omega (arith, w.0, Tidy-le b (c + r.record_length) rs 512 t))
  records_loop-Tidy (suc fuel) c [] t h = rw (lt→leb (c + 8) 512 (omega arith))
  records_loop-Tidy (suc fuel) c (r ∷ rs) (s, w, t) h =
      let k = Tidy-le b (c + r.record_length) rs 512 t in
      let room : c + 8 ≤ 512 = omega (arith, w.0) in
      let e = entry-ok b 512 fits c (header_of r) room (Tidy-header b 512 fits c r rs (s, w, t)) in
      rw
        (
          le→leb (c + 8) 512 room,
          e,
          records_loop-Tidy fuel (c + r.record_length) rs t (omega (arith, w.0)),
        )
        (ap
          (λ x. ok (
            record (decoded c r) { name = decode_ascii_replace x }
            ∷ decoded_all (c + r.record_length) rs))
          s.3)

  pub iter_directory_records-Tidy :
      (rs : List Entry) → Tidy b 0 rs 512 → iter_directory_records b 512 ≡ ok (decoded_all 0 rs)
  unfolding iter_directory_records
  iter_directory_records-Tidy rs t =
      ap (λ m. records_loop b (min m 512) (min m 512) 0) sb
      ∙ records_loop-Tidy 512 0 rs t (omega arith)

  -- What a removal from the records at `c` on comes to: none has the name, or the new bytes.
  abbrev pub Removed : ℕ → Option (List Entry) → Result (Option Buf) → Type 0
  Removed c none res = res ≡ ok none
  Removed c (some rs') res =
      (b' : Buf) × (res ≡ ok (some b'))
      × (b'.size ≡ 512)
      × ((a : ℕ) → a < c → b'.byte a ≡ b.byte a)
      × Tidy b' c rs' 512

  pub keep :
      (c : ℕ) (r : Entry) (o : Option (List Entry)) (res : Result (Option Buf))
      → Stored b c r
      → IsRoomy r
      → Removed (c + r.record_length) o res
      → Removed c (before r o) res
  keep c r none res s w h = h
  keep c r (some rs') res s w (b', e, size, same, t) = (
    b',
    e,
    size,
    λ a k. same a (omega arith),
    (Stored-ext b b' c c r (λ i k. same (c + i) (omega (arith, w.0))) s, w, t),
  )

  module _ (name : String) (ascii : IsAscii name) where
    pub test_lem :
        (c : ℕ) (r : Entry)
        → (not (same_bytes (decoded c r).name name) || ((decoded c r).inode == 0))
          ≡ not (has_name name r)
    test_lem c r =
        rw (same_bytes-decode r.name name ascii) (ends (same_bytes r.name name) (r.inode == 0))
      where
        ends : (x y : Bool) → (not x || y) ≡ not (not y && x)
        ends true true = refl
        ends true false = refl
        ends false true = refl
        ends false false = refl

    -- A record with the name, where no record is before it.
    pub emptied :
        (c : ℕ) (r : Entry) (rest : List DirEntry) (es : List Entry)
        → has_name name r ≡ true
        → Tidy b c (r ∷ es) 512
        → Removed c
            (some (unused r.record_length ∷ es))
            (remove_loop b name none (decoded c r ∷ rest))
    unfolding remove_loop remove_record
    emptied c r rest es h (s, w, t) =
        let k = Tidy-le b (c + r.record_length) es 512 t in
        let (raw, b', e, p, size, st, out) =
          put_unused r.record_length b c (omega (arith, w.0)) (omega arith) (omega arith) in
        (
          b',
          rw (test_lem c r, h, e, p) refl,
          size ∙ sb,
          λ a q. out a (inl q),
          (
            st,
            (omega (arith, w.0), omega arith),
            Tidy-ext b b' (c + r.record_length) es 512 (λ a x y. out a (inr x)) t,
          ),
        )

    -- A record with the name behind another.
    pub merged :
        (c : ℕ) (p r : Entry) (rest : List DirEntry) (es : List Entry)
        → has_name name r ≡ true
        → Tidy b c (p ∷ r ∷ es) 512
        → Removed c
            (some (record p { record_length = p.record_length + r.record_length } ∷ es))
            (remove_loop b name (some (decoded c p)) (decoded (c + p.record_length) r ∷ rest))
    unfolding remove_loop remove_record add_u16
    merged c p r rest es h (s, w, (s2, w2, t)) =
        let k = Tidy-le b (c + p.record_length + r.record_length) es 512 t in
        let v = p.record_length + r.record_length in
        let b' = poke 2 b (c + 4) v in
        let small : v < 65536 = omega arith in
        let q0 : c / 512 ≡ 0 = div-eq_of_lt (omega (arith, w.0)) in
        let q1 : (c + p.record_length) / 512 ≡ 0 = div-eq_of_lt (omega (arith, w2.0)) in
        let out = λ (a : ℕ) (o : (a < c + 4) ⊎ (c + 4 + 2 ≤ a)). byte-poke_out 2 b (c + 4) v a o in
        let stored =
          subst (λ x. Stored (poke 2 b (c + 4) x) c (record p { record_length = v }))
            (mod-eq_of_lt small) (Stored-poke b c v p small s) in
        let at : c + p.record_length + r.record_length ≡ c + v = omega arith in
        (
          b',
          rw
              (
                test_lem (c + p.record_length) r,
                h,
                q0,
                q1,
                lt→ltb v 65536 small,
                put_u16-ok b (c + 4) v (omega (arith, w.0)),
              )
              refl,
          size-poke 2 b (c + 4) v ∙ sb,
          λ a o. out a (inl (omega arith)),
          (
            stored,
            (omega (arith, w.0), w.1),
            subst (λ x. Tidy b' x es 512) at
                (Tidy-ext b b' (c + p.record_length + r.record_length) es 512
                  (λ a x y. out a (inr (omega (arith, w.0)))) t),
          ),
        )
