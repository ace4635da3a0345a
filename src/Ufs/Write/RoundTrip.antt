-- ===== src/Ufs/Write/RoundTrip.antt =====
-- An entry that is put into a directory block and taken out again.
use ufs_fuse.Base.{
  ℕ, ◌+◌, ◌-◌, ◌^◌, ◌≤◌, ◌<◌, ◌≡◌, ◌≢◌, inl, inr, refl, sym, ap, ◌∙◌, subst, Bool, true, false, not,
  ◌&&◌, Option, none, some, List, [], ◌∷◌, ◌++◌, length, ok, ok-injective, Reply, done, leb, ◌==◌,
  if◌then◌else◌, arith, Bool-cases, Option-cases, ==_ne, ==_refl, lt→ltb,
}
use ufs_fuse.Core.Image.{Buf}
use ufs_fuse.Ufs.Dir.{same_bytes, scan_block}
use ufs_fuse.Ufs.Dir.Scan.{IsAscii}
use ufs_fuse.Ufs.Dir.Tidy.{Entry, Tidy, find_entry, scan_block-Tidy}
use ufs_fuse.Ufs.Write.Entries.{String, as_bytes, utf8, insert_entry}
use ufs_fuse.Ufs.Write.Removal.{remove_entry}
use ufs_fuse.Ufs.Write.Encoded.{unused, entry_for}
use ufs_fuse.Ufs.Write.InsertLaws.{needed, filled, low_of, split}
use ufs_fuse.Ufs.Write.Inserted.{is_free_room, is_used_room, insert_record}
use ufs_fuse.Ufs.Write.InsertEntry.{insert_entry_lem}
use ufs_fuse.Ufs.Write.Lookup.{find_entry-insert_record, absent-parts}
use ufs_fuse.Ufs.Write.RemovedRecords.{has_name, before, merge_from, take_out}
use ufs_fuse.Ufs.Write.RemoveEntry.{remove_entry_lem}

pub same_bytes_refl : (xs : List ℕ) → same_bytes xs xs ≡ true
unfolding same_bytes
same_bytes_refl [] = refl
same_bytes_refl (x ∷ xs) = rw (==_refl x) (same_bytes_refl xs)

pub as_bytes-IsAscii : (s : String) → IsAscii s → as_bytes s ≡ s
unfolding as_bytes utf8
as_bytes-IsAscii [] h = refl
as_bytes-IsAscii (c ∷ cs) (h, k) = rw (lt→ltb c 128 h) (ap (◌∷◌ c) (as_bytes-IsAscii cs k))

some_inj {ℓ} : {A : Type ℓ} {a b : A} → some a ≡ some b → a ≡ b
some_inj h = cc

before-some :
    (p : Entry) (o : Option (List Entry)) (rs : List Entry)
    → before p o ≡ some rs
    → (rest : List Entry) × (o ≡ some rest) × (p ∷ rest ≡ rs)
before-some p none rs h = absurd (cc)
before-some p (some rest) rs h = (rest, refl, some_inj h)

before-none : (p : Entry) (o : Option (List Entry)) → before p o ≡ none → o ≡ none
before-none p none h = refl
before-none p (some rest) h = absurd (cc)

module _ (name : List ℕ) where
  -- The records without the first that has the name.
  drop_first : List Entry → List Entry
  drop_first [] = []
  drop_first (r ∷ rs) = if has_name name r then rs else r ∷ drop_first rs

  module _ (m : List ℕ) where
    step :
        (r : Entry) (xs ys : List Entry)
        → find_entry m xs ≡ find_entry m ys
        → find_entry m (r ∷ xs) ≡ find_entry m (r ∷ ys)
    unfolding find_entry
    step r xs ys h = rw h refl

    find-unused : (len : ℕ) (xs : List Entry) → find_entry m (unused len ∷ xs) ≡ find_entry m xs
    unfolding find_entry
    find-unused len xs = refl

    find-longer :
        (p : Entry) (len : ℕ) (xs : List Entry)
        → find_entry m (record p { record_length = len } ∷ xs) ≡ find_entry m (p ∷ xs)
    unfolding find_entry
    find-longer p len xs = refl

    find-merge_from :
        (p : Entry) (rs rs' : List Entry)
        → merge_from name p rs ≡ some rs'
        → find_entry m rs' ≡ find_entry m (p ∷ drop_first rs)
    unfolding merge_from drop_first
    find-merge_from p [] rs' h = absurd (cc)
    find-merge_from p (r ∷ rs) rs' h = elim (Bool-cases (has_name name r)) [
      | inl e ↦
          let q : record p { record_length = p.record_length + r.record_length } ∷ rs ≡ rs' =
            some_inj (sym (rw e refl) ∙ h) in
          ap (find_entry m) (sym q)
          ∙ find-longer p (p.record_length + r.record_length) rs
          ∙ rw e refl
      | inr e ↦
          let (rest, g, q) = before-some p (merge_from name r rs) rs' (sym (rw e refl) ∙ h) in
          ap (find_entry m) (sym q)
          ∙ rw e (step p rest (r ∷ drop_first rs) (find-merge_from r rs rest g))
    ]

    find-take_out :
        (rs rs' : List Entry)
        → take_out name rs ≡ some rs'
        → find_entry m rs' ≡ find_entry m (drop_first rs)
    unfolding take_out drop_first
    find-take_out [] rs' h = absurd (cc)
    find-take_out (r ∷ []) rs' h = elim (Bool-cases (has_name name r)) [
      | inl e ↦
          let q : unused r.record_length ∷ [] ≡ rs' = some_inj (sym (rw e refl) ∙ h) in
          ap (find_entry m) (sym q) ∙ find-unused r.record_length [] ∙ rw e refl
      | inr e ↦ let c : none ≡ some rs' = sym (rw e refl) ∙ h in absurd (cc)
    ]
    find-take_out (r ∷ q ∷ rs) rs' h = elim (Bool-cases (has_name name r)) [
      | inl e ↦
          let p : unused r.record_length ∷ q ∷ rs ≡ rs' = some_inj (sym (rw e refl) ∙ h) in
          ap (find_entry m) (sym p) ∙ find-unused r.record_length (q ∷ rs) ∙ rw e refl
      | inr e ↦ elim (Bool-cases (has_name name q)) [
        | inl g ↦
            let p : r ∷ unused q.record_length ∷ rs ≡ rs' = some_inj (sym (rw (e, g) refl) ∙ h) in
            ap (find_entry m) (sym p)
            ∙ rw (e, g) (step r (unused q.record_length ∷ rs) rs (find-unused q.record_length rs))
        | inr g ↦
            let (rest, k, p) =
              before-some r (merge_from name q rs) rs' (sym (rw (e, g) refl) ∙ h) in
            ap (find_entry m) (sym p)
            ∙ rw (e, g) (step r rest (q ∷ drop_first rs) (find-merge_from q rs rest k))
      ]
    ]

  -- Where nothing is taken out, no record has the name.
  merge_from-none :
      (p : Entry) (rs : List Entry) → merge_from name p rs ≡ none → find_entry name rs ≡ none
  unfolding merge_from find_entry
  merge_from-none p [] h = refl
  merge_from-none p (r ∷ rs) h = elim (Bool-cases (has_name name r)) [
    | inl e ↦
        let c : some (record p { record_length = p.record_length + r.record_length } ∷ rs) ≡ none =
          sym (rw e refl) ∙ h in
        absurd (cc)
    | inr e ↦
        rw e (merge_from-none r rs (before-none p (merge_from name r rs) (sym (rw e refl) ∙ h)))
  ]

  take_out-none : (rs : List Entry) → take_out name rs ≡ none → find_entry name rs ≡ none
  unfolding take_out find_entry
  take_out-none [] h = refl
  take_out-none (r ∷ []) h = elim (Bool-cases (has_name name r)) [
    | inl e ↦ let c : some (unused r.record_length ∷ []) ≡ none = sym (rw e refl) ∙ h in absurd (cc)
    | inr e ↦ rw e refl
  ]
  take_out-none (r ∷ q ∷ rs) h = elim (Bool-cases (has_name name r)) [
    | inl e ↦
        let c : some (unused r.record_length ∷ q ∷ rs) ≡ none = sym (rw e refl) ∙ h in absurd (cc)
    | inr e ↦ elim (Bool-cases (has_name name q)) [
      | inl g ↦
          let c : some (r ∷ unused q.record_length ∷ rs) ≡ none = sym (rw (e, g) refl) ∙ h in
          absurd (cc)
      | inr g ↦
          rw (e, g)
            (merge_from-none q rs (before-none r (merge_from name q rs) (sym (rw (e, g) refl) ∙ h)))
    ]
  ]

module _ (i : ℕ) (name : String) (used : i ≢ 0) where
  abbrev nb : List ℕ
  nb = as_bytes name

  drop-new : (len : ℕ) (xs : List Entry) → drop_first nb (entry_for i len name ∷ xs) ≡ xs
  unfolding drop_first
  drop-new len xs = rw (==_ne i 0 used, same_bytes_refl nb) refl

  drop-other :
      (r : Entry) (xs : List Entry)
      → has_name nb r ≡ false
      → drop_first nb (r ∷ xs) ≡ r ∷ drop_first nb xs
  unfolding drop_first
  drop-other r xs h = rw h refl

  free_no_name : (m : List ℕ) (r : Entry) → is_free_room i name r ≡ true → has_name m r ≡ false
  free_no_name m r f =
      ends (r.inode == 0) (leb (needed i name) r.record_length) (same_bytes r.name m) f
    where
      ends : (x y z : Bool) → (x && y) ≡ true → (not x && z) ≡ false
      ends true y z h = refl
      ends false y z h = absurd (cc)

  skip_free :
      (m : List ℕ) (r : Entry) (rs : List Entry)
      → is_free_room i name r ≡ true
      → find_entry m (r ∷ rs) ≡ find_entry m rs
  unfolding find_entry
  skip_free m r rs f = rw (free_no_name m r f) refl

  drop-filled :
      (m : List ℕ) (len : ℕ) (rs : List Entry)
      → find_entry m (drop_first nb (filled i name len ++ rs)) ≡ find_entry m rs
  drop-filled m len rs = elim (Bool-cases (leb 8 (len - needed i name))) [
    | inl e ↦ rw e (
        ap (find_entry m) (drop-new (needed i name) (unused (len - needed i name) ∷ rs))
        ∙ find-unused nb m (len - needed i name) rs)
    | inr e ↦ rw e (ap (find_entry m) (drop-new len rs))
  ]

  drop-insert_record :
      (m : List ℕ) (rs rs' : List Entry)
      → find_entry nb rs ≡ none
      → insert_record i name rs ≡ some rs'
      → find_entry m (drop_first nb rs') ≡ find_entry m rs
  unfolding insert_record
  drop-insert_record m [] rs' absent h = absurd (cc)
  drop-insert_record m (r ∷ rs) rs' absent h =
      let (no_match, below) = absent-parts i name used r rs absent in
      elim (Bool-cases (is_free_room i name r)) [
        | inl f ↦
            let e : filled i name r.record_length ++ rs ≡ rs' = some_inj (sym (rw f refl) ∙ h) in
            ap (λ x. find_entry m (drop_first nb x)) (sym e)
            ∙ drop-filled m r.record_length rs
            ∙ sym (skip_free m r rs f)
        | inr f ↦ elim (Bool-cases (is_used_room i name r)) [
          | inl u ↦
              let e : split i name r ++ rs ≡ rs' = some_inj (sym (rw (f, u) refl) ∙ h) in
              let cut : Entry = record r { record_length = low_of i name r } in
              let new = entry_for i (r.record_length - low_of i name r) name in
              ap (λ x. find_entry m (drop_first nb x)) (sym e)
              ∙ ap (find_entry m) (
                  drop-other cut (new ∷ rs) no_match
                  ∙ ap (◌∷◌ cut) (drop-new (r.record_length - low_of i name r) rs))
              ∙ find-longer nb m r (low_of i name r) rs
          | inr u ↦ elim (Option-cases (insert_record i name rs)) [
            | inl e ↦ let c : none ≡ some rs' = sym (rw (f, u, e) refl) ∙ h in absurd (cc)
            | inr (rest, e) ↦
                let q : r ∷ rest ≡ rs' = some_inj (sym (rw (f, u, e) refl) ∙ h) in
                ap (λ x. find_entry m (drop_first nb x)) (sym q)
                ∙ ap (find_entry m) (drop-other r rest no_match)
                ∙ step nb m r (drop_first nb rest) rs (drop-insert_record m rs rest below e)
          ]
        ]
      ]

  -- In a directory block whose records fill it, each with room for its name, and where the scan does not
  -- find an ASCII name of at most 255 bytes, put the name with an inode number that is not 0, and let the
  -- block have room for it: then removing the name from the new block succeeds, and in what it leaves the scan finds
  -- under every name what it found at first.
  pub remove_entry-insert_entry :
      (b b1 : Buf) (rs : List Entry)
      → IsAscii name
      → i < 2 ^ 32
      → length name ≤ 255
      → b.size ≡ 512
      → Tidy b 0 rs 512
      → scan_block b name 512 ≡ ok none
      → insert_entry b 512 i name ≡ ok (done b1)
      → b1.size ≡ 512
      → (b2 : Buf) × (remove_entry b1 512 name ≡ ok (some b2))
        × ((m : List ℕ) → scan_block b2 m 512 ≡ scan_block b m 512)
  remove_entry-insert_entry b b1 rs ascii hi short sb t absent h sb1 =
      let same = as_bytes-IsAscii name ascii in
      let none_there : find_entry nb rs ≡ none =
        subst (λ x. find_entry x rs ≡ none) (sym same)
          (ok-injective (sym (scan_block-Tidy b 512 (omega arith) name rs t) ∙ absent)) in
      elim (insert_entry_lem i name b sb rs hi (omega (arith, ap length same)) t) [
        | inr (c, e, p, sc, t') ↦
            let q = done_inj (ok-injective (sym p ∙ h)) in
            absurd (omega (arith, ap (λ x. x.size) q))
        | inl (rs', c, e, p, sc, t') ↦
            let q = done_inj (ok-injective (sym p ∙ h)) in
            let t1 = subst (λ x. Tidy x 0 rs' 512) q t' in
            let found = find_entry-insert_record i name used rs rs' nb none_there e in
            elim (remove_entry_lem b1 sb1 name ascii rs' t1) [
              | inl (g, _) ↦
                  let gone =
                    subst (λ x. find_entry x rs' ≡ none) (sym same) (take_out-none name rs' g) in
                  let there : find_entry nb rs' ≡ some i = found ∙ rw (same_bytes_refl nb) refl in
                  absurd (cc)
              | inr (rs2, b2, g, r, s2, t2) ↦ (
                b2,
                r,
                λ m.
                    scan_block-Tidy b2 512 (omega arith) m rs2 t2
                    ∙ ap ok (
                        find-take_out name m rs' rs2 g
                        ∙ subst (λ x. find_entry m (drop_first x rs') ≡ find_entry m rs) same
                            (drop-insert_record m rs rs' none_there e))
                    ∙ sym (scan_block-Tidy b 512 (omega arith) m rs t),
              )
            ]
      ]
    where
      done_inj : {x y : Buf} → ◌≡◌ {A = Reply Buf} (done x) (done y) → x ≡ y
      done_inj h = cc
