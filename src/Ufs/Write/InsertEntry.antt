-- ===== src/Ufs/Write/InsertEntry.antt =====
-- `insert_entry` on a directory block does what `insert_record` does on its records.
use ufs_fuse.Base.{
  ℕ, zero, suc, ◌+◌, ◌-◌, ◌/◌, ◌^◌, ◌≤◌, ◌<◌, ◌≡◌, ◌⊎◌, inl, inr, refl, sym, ap, ◌∙◌, subst, Bool,
  true, false, not, ◌&&◌, Option, none, some, List, [], ◌∷◌, ◌++◌, length, max, min, Result, ok,
  done, leb, ◌==◌, if◌then◌else◌, arith, Option-cases, leb→le, le→leb, lt→leb,
}
use ufs_fuse.Core.Image.{Buf}
use ufs_fuse.Ufs.Dir.Records.{header-ok}
use ufs_fuse.Ufs.Dir.Tidy.{
  Entry, Tidy, Tidy-le, Tidy-ext, Tidy-join, Tidy-split, Tidy-header, total, header_of,
}
use ufs_fuse.Ufs.Write.Entries.{
  String, as_bytes, byte_length, InsertSlot, slot_at, whole_block, record_slot, block_slot,
  find_insert_slot, insert_at, insert_entry,
}
use ufs_fuse.Ufs.Write.InsertLaws.{
  dirsiz_bounds, needed, filled, low_of, split, Placed, place_free, place_split,
}
use ufs_fuse.Ufs.Write.Inserted.{
  is_free_room, is_used_room, insert_record, slot_of, Found, slot_of_lem,
}

module _ (i : ℕ) (name : String) (b : Buf) (sb : b.size ≡ 512) where
  fits : 512 ≤ b.size
  fits = omega arith

  abbrev flag : Bool → List Entry → Bool
  flag found [] = found
  flag found (r ∷ rs) = true

  flag_true : (rs : List Entry) → flag true rs ≡ true
  flag_true [] = refl
  flag_true (r ∷ rs) = refl

  abbrev after_test : (c fuel : ℕ) → Entry → Option InsertSlot → Result (Bool × Option InsertSlot)
  after_test c fuel r (some slot) = ok (true, some slot)
  after_test c fuel r none = record_slot b (needed i name) 0 512 fuel (c + r.record_length) true

  record_slot_step :
      (fuel c : ℕ) (found : Bool) (r : Entry) (rs : List Entry)
      → Tidy b c (r ∷ rs) 512
      → record_slot b (needed i name) 0 512 (suc fuel) c found
        ≡ after_test c fuel r (slot_at (needed i name) 0 c (header_of r))
  unfolding record_slot
  record_slot_step fuel c found r rs (s, w, t) =
      let k = Tidy-le b (c + r.record_length) rs 512 t in
      let room : c + 8 ≤ 512 = omega (arith, w.0) in
      rw
        (
          le→leb (c + 8) 512 room,
          header-ok b 512 fits c room,
          Tidy-header b 512 fits c r rs (s, w, t),
        )
        (ends (slot_at (needed i name) 0 c (header_of r)))
    where
      ends :
          (o : Option InsertSlot)
          → ◌≡◌ {A = Result (Bool × Option InsertSlot)}
              (elim o [
                | some slot ↦ ok (true, some slot)
                | none ↦ record_slot b (needed i name) 0 512 fuel (c + r.record_length) true
              ])
              (after_test c fuel r o)
      ends none = refl
      ends (some slot) = refl

  record_slot-Tidy :
      (fuel c : ℕ) (found : Bool) (rs : List Entry)
      → Tidy b c rs 512
      → 512 ≤ c + fuel
      → record_slot b (needed i name) 0 512 fuel c found ≡ ok (flag found rs, slot_of i name c rs)
  unfolding slot_of record_slot
  record_slot-Tidy zero c found [] t h = refl
  record_slot-Tidy zero c found (r ∷ rs) (s, w, t) h =
      absurd (omega (arith, w.0, Tidy-le b (c + r.record_length) rs 512 t))
  record_slot-Tidy (suc fuel) c found [] t h = rw (lt→leb (c + 8) 512 (omega arith))
  record_slot-Tidy (suc fuel) c found (r ∷ rs) (s, w, t) h =
      record_slot_step fuel c found r rs (s, w, t)
      ∙ elim (Option-cases (slot_at (needed i name) 0 c (header_of r))) [
        | inr (slot, e) ↦ rw e refl
        | inl e ↦
            let later =
              record_slot-Tidy fuel (c + r.record_length) true rs t (omega (arith, w.0)) in
            rw e (later ∙ ap (λ x. ok (x, slot_of i name (c + r.record_length) rs)) (flag_true rs))
      ]

  -- The slot that is found, or else the next block.
  abbrev slot_or_next : Option InsertSlot → InsertSlot
  slot_or_next none = whole_block 512
  slot_or_next (some slot) = slot

  one_block : find_insert_slot b 512 name ≡ block_slot b 512 (needed i name) 1 0
  unfolding find_insert_slot byte_length
  one_block =
      ap (λ m. block_slot b (min m 512) (needed i name) (max 1 ((min m 512 + 512 - 1) / 512)) 0) sb

  find_insert_slot-Tidy :
      (rs : List Entry)
      → length (as_bytes name) ≤ 255
      → Tidy b 0 rs 512
      → find_insert_slot b 512 name ≡ ok (some (slot_or_next (slot_of i name 0 rs)))
  unfolding block_slot
  find_insert_slot-Tidy [] short t = absurd (omega arith)
  find_insert_slot-Tidy (r ∷ rs) short t =
      let small = (dirsiz_bounds (length (as_bytes name))).1 in
      let found = record_slot-Tidy 512 0 false (r ∷ rs) t (omega arith) in
      one_block ∙ rw found (ends (slot_of i name 0 (r ∷ rs)))
    where
      ends :
          (o : Option InsertSlot)
          → ◌≡◌ {A = Result (Option InsertSlot)}
              (elim o [
                | some slot ↦ ok (some slot)
                | none ↦ ok (if leb (needed i name) 512 then some (whole_block 512) else none)
              ])
              (ok (some (slot_or_next o)))
      ends none =
          rw
            (le→leb (needed i name) 512
              (omega (arith, (dirsiz_bounds (length (as_bytes name))).1, short)))
            refl
      ends (some slot) = refl

  insert_entry_at :
      (slot : InsertSlot) (b' : Buf)
      → find_insert_slot b 512 name ≡ ok (some slot)
      → insert_at b slot i name ≡ ok b'
      → insert_entry b 512 i name ≡ ok (done b')
  unfolding insert_entry
  insert_entry_at slot b' e h = rw (e, h) refl

  -- The records around the one that gave room stay as they are.
  around :
      (xs new ys : List Entry) (r : Entry) (b' : Buf)
      → Tidy b 0 (xs ++ r ∷ ys) 512
      → Placed i name b 512 (0 + total xs) r.record_length new b'
      → Tidy b' 0 (xs ++ (new ++ ys)) 512
  around xs new ys r b' t (size, same, middle) =
      let (before, (_, _, after)) = Tidy-split b 0 xs (r ∷ ys) 512 t in
      let at = 0 + total xs in
      let k = Tidy-le b (at + r.record_length) ys 512 after in
      let x = Tidy-ext b b' 0 xs at (λ a p q. same a (omega arith) (inl q)) before in
      let y =
        Tidy-ext b b' (at + r.record_length) ys 512 (λ a p q. same a (omega arith) (inr p)) after in
      Tidy-join b' 0 xs (new ++ ys) at 512 x
        (Tidy-join b' at new ys (at + r.record_length) 512 middle y)

  inserted :
      (rs rs' : List Entry) (slot : InsertSlot)
      → i < 2 ^ 32
      → length (as_bytes name) ≤ 255
      → Tidy b 0 rs 512
      → Found i name 0 rs rs' slot
      → (b' : Buf) × (insert_at b slot i name ≡ ok b') × (b'.size ≡ 512) × Tidy b' 0 rs' 512
  unfolding Found
  inserted rs rs' slot hi short t (xs, r, ys, e, which) =
      let t' = subst (λ x. Tidy b 0 x 512) e t in
      let (before, (s, w, after)) = Tidy-split b 0 xs (r ∷ ys) 512 t' in
      let at = 0 + total xs in
      let k = Tidy-le b (at + r.record_length) ys 512 after in
      elim which [
        | inl (f, es, er) ↦
            let (b', p, placed) =
              place_free i name b 0 512 at r.record_length (omega arith)
                (omega (arith, room_free r f)) hi short (room_free r f) (omega arith)
                (omega arith) in
            (
              b',
              ap (λ x. insert_at b x i name) es ∙ p,
              placed.0,
              subst (λ x. Tidy b' 0 x 512) (sym er)
                  (around xs (filled i name r.record_length) ys r b' t' placed),
            )
        | inr (u, es, er) ↦
            let (b', p, placed) =
              place_split i name b at r hi short sb s w (room_used r u) (omega arith) in
            (
              b',
              ap (λ x. insert_at b x i name) es ∙ p,
              placed.0,
              subst (λ x. Tidy b' 0 x 512) (sym er) (around xs (split i name r) ys r b' t' placed),
            )
      ]
    where
      right : (x y : Bool) → (x && y) ≡ true → y ≡ true
      right true y h = h
      right false y h = absurd (cc)

      room_free : (r : Entry) → is_free_room i name r ≡ true → needed i name ≤ r.record_length
      room_free r f =
          leb→le (needed i name) r.record_length
            (right (r.inode == 0) (leb (needed i name) r.record_length) f)

      room_used :
          (r : Entry)
          → is_used_room i name r ≡ true
          → needed i name ≤ r.record_length - low_of i name r
      room_used r u =
          leb→le (needed i name) (r.record_length - low_of i name r)
            (right (not (r.inode == 0)) (leb (needed i name) (r.record_length - low_of i name r)) u)

  -- Putting an entry into a directory block whose records fill it, each with room for its name, never
  -- panics or fails for a name of at most 255 bytes. If a record has room, the block is still such a
  -- block, and its records are those that `insert_record` gives. If none has, the block is followed by a
  -- second one that holds the entry, and the records of the first are as before.
  pub insert_entry_lem :
      (rs : List Entry)
      → i < 2 ^ 32
      → length (as_bytes name) ≤ 255
      → Tidy b 0 rs 512
      → ((rs' : List Entry) × (b' : Buf) × (insert_record i name rs ≡ some rs')
          × (insert_entry b 512 i name ≡ ok (done b'))
          × (b'.size ≡ 512)
          × Tidy b' 0 rs' 512)
        ⊎ ((b' : Buf) × (insert_record i name rs ≡ none)
            × (insert_entry b 512 i name ≡ ok (done b'))
            × (b'.size ≡ 1024)
            × Tidy b' 0 (rs ++ filled i name 512) 1024)
  unfolding whole_block
  insert_entry_lem rs hi short t =
      let slot = find_insert_slot-Tidy rs short t in
      elim (slot_of_lem i name 0 rs) [
        | inr (rs', s, e, g, found) ↦
            let (b', p, size, t') = inserted rs rs' s hi short t found in
            inl (
              rs',
              b',
              e,
              insert_entry_at s b' (slot ∙ ap (λ x. ok (some (slot_or_next x))) g) p,
              size,
              t',
            )
        | inl (e, g) ↦
            let small = (dirsiz_bounds (length (as_bytes name))).1 in
            let (b', p, (size, same, t')) =
              place_free i name b 512 1024 512 512 (omega arith) (omega (arith, small)) hi short
                (omega (arith, small)) (omega arith) (omega arith) in
            let first = Tidy-ext b b' 0 rs 512 (λ a x y. same a (omega arith) (inl y)) t in
            inr (
              b',
              e,
              insert_entry_at (whole_block 512) b' (slot ∙ ap (λ x. ok (some (slot_or_next x))) g)
                  p,
              size,
              Tidy-join b' 0 rs (filled i name 512) 512 1024 first t',
            )
      ]
