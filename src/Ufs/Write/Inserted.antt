-- ===== src/Ufs/Write/Inserted.antt =====
-- The insertion of an entry as an operation on the list of records, and that `insert_entry` does it.
use ufs_fuse.Base.{
  ℕ, ◌+◌, ◌-◌, ◌≡◌, ◌⊎◌, inl, inr, refl, ap, ◌∙◌, Bool, true, false, not, ◌&&◌, Option, none, some,
  List, [], ◌∷◌, ◌++◌, leb, ◌==◌, if◌then◌else◌, arith, Bool-cases,
}
use ufs_fuse.Ufs.Dir.Tidy.{Entry, total, header_of}
use ufs_fuse.Ufs.Write.Entries.{String, InsertSlot, slot_at}
use ufs_fuse.Ufs.Write.InsertLaws.{needed, filled, low_of, split, slot_in, slot_after}

abbrev first_of : Option InsertSlot → Option InsertSlot → Option InsertSlot
first_of (some slot) rest = some slot
first_of none rest = rest

module _ (i : ℕ) (name : String) where
  abbrev n : ℕ
  n = needed i name

  -- A record that has room, and what it becomes.
  abbrev pub is_free_room : Entry → Bool
  is_free_room r = (r.inode == 0) && leb n r.record_length

  abbrev pub is_used_room : Entry → Bool
  is_used_room r = not (r.inode == 0) && leb n (r.record_length - low_of i name r)

  -- The entry goes to the first record with room for it: one that is not in use, of which it leaves what
  -- it does not need if that can be a record, or one in use that is longer than its name needs.
  unfoldable pub insert_record : List Entry → Option (List Entry)
  insert_record [] = none
  insert_record (r ∷ rs) =
      let later : Option (List Entry) = elim (insert_record rs) [
        | none ↦ none
        | some rest ↦ some (r ∷ rest)
      ] in
      if is_free_room r
      then some (filled i name r.record_length ++ rs)
      else if is_used_room r
      then some (split i name r ++ rs)
      else later

  -- The slot that the search finds from `c` on.
  unfoldable pub slot_of : ℕ → List Entry → Option InsertSlot
  slot_of c [] = none
  slot_of c (r ∷ rs) = first_of (slot_at n 0 c (header_of r)) (slot_of (c + r.record_length) rs)

  -- What is found: the records before it, the record with room, and those after it.
  unfoldable pub Found : ℕ → List Entry → List Entry → InsertSlot → Type 0
  Found c rs rs' slot =
      (xs : List Entry) × (r : Entry) × (ys : List Entry) × (rs ≡ xs ++ r ∷ ys)
      × (((is_free_room r ≡ true)
            × (slot ≡ slot_in i name 0 (c + total xs) r.record_length)
            × (rs' ≡ xs ++ (filled i name r.record_length ++ ys)))
          ⊎ ((is_used_room r ≡ true)
              × (slot
                  ≡ slot_after i name (c + total xs) (low_of i name r)
                      (r.record_length - low_of i name r))
              × (rs' ≡ xs ++ (split i name r ++ ys))))

  Found-later :
      (c : ℕ) (r : Entry) (rs rs' : List Entry) (slot : InsertSlot)
      → Found (c + r.record_length) rs rs' slot
      → Found c (r ∷ rs) (r ∷ rs') slot
  unfolding Found
  Found-later c r rs rs' slot (xs, q, ys, e, which) =
      let at : c + r.record_length + total xs ≡ c + (r.record_length + total xs) = omega arith in
      (
        r ∷ xs,
        q,
        ys,
        ap (◌∷◌ r) e,
        elim which [
          | inl (f, s, p) ↦
              inl (f, s ∙ ap (λ x. slot_in i name 0 x q.record_length) at, ap (◌∷◌ r) p)
          | inr (u, s, p) ↦ inr (
            u,
            s
                ∙ ap
                    (λ x. slot_after i name x (low_of i name q) (q.record_length - low_of i name q))
                    at,
            ap (◌∷◌ r) p,
          )
        ],
      )

  at_free :
      (c : ℕ) (r : Entry)
      → is_free_room r ≡ true
      → slot_at n 0 c (header_of r) ≡ some (slot_in i name 0 c r.record_length)
  unfolding slot_at
  at_free c r f = rw f refl

  at_used :
      (c : ℕ) (r : Entry)
      → is_free_room r ≡ false
      → is_used_room r ≡ true
      → slot_at n 0 c (header_of r)
        ≡ some (slot_after i name c (low_of i name r) (r.record_length - low_of i name r))
  unfolding slot_at
  at_used c r f u = rw (f, u) refl

  at_none :
      (c : ℕ) (r : Entry)
      → is_free_room r ≡ false
      → is_used_room r ≡ false
      → slot_at n 0 c (header_of r) ≡ none
  unfolding slot_at
  at_none c r f u = rw (f, u) refl

  pub slot_of_lem :
      (c : ℕ) (rs : List Entry)
      → ((insert_record rs ≡ none) × (slot_of c rs ≡ none))
        ⊎ ((rs' : List Entry) × (slot : InsertSlot) × (insert_record rs ≡ some rs')
            × (slot_of c rs ≡ some slot)
            × Found c rs rs' slot)
  unfolding insert_record slot_of Found
  slot_of_lem c [] = inl (refl, refl)
  slot_of_lem c (r ∷ rs) =
      let z : c ≡ c + 0 = omega arith in
      elim (Bool-cases (is_free_room r)) [
        | inl f ↦ inr (
          filled i name r.record_length ++ rs,
          slot_in i name 0 c r.record_length,
          rw f refl,
          rw (at_free c r f) refl,
          ([], r, rs, refl, inl (f, ap (λ x. slot_in i name 0 x r.record_length) z, refl)),
        )
        | inr f ↦ elim (Bool-cases (is_used_room r)) [
          | inl u ↦ inr (
            split i name r ++ rs,
            slot_after i name c (low_of i name r) (r.record_length - low_of i name r),
            rw (f, u) refl,
            rw (at_used c r f u) refl,
            (
              [],
              r,
              rs,
              refl,
              inr (
                u,
                ap (λ x. slot_after i name x (low_of i name r) (r.record_length - low_of i name r))
                    z,
                refl,
              ),
            ),
          )
          | inr u ↦ elim (slot_of_lem (c + r.record_length) rs) [
            | inl (e, g) ↦ inl (rw (f, u, e) refl, rw (at_none c r f u, g) refl)
            | inr (rs', slot, e, g, found) ↦ inr (
              r ∷ rs',
              slot,
              rw (f, u, e) refl,
              rw (at_none c r f u, g) refl,
              Found-later c r rs rs' slot found,
            )
          ]
        ]
      ]
