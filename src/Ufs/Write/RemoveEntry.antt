-- ===== src/Ufs/Write/RemoveEntry.antt =====
-- `remove_entry` on a directory block does what `take_out` does on its records.
use ufs_fuse.Base.{
  ℕ, ◌+◌, ◌%◌, ◌<◌, ◌≡◌, ◌⊎◌, inl, inr, refl, sym, ◌∙◌, subst, false, Option, none, some, List, [],
  ◌∷◌, Result, ok, ◌==◌, if◌then◌else◌, arith, Bool-cases, ==_ne,
}
use native.Mathlib.Nat.{mod-eq_of_lt}
use ufs_fuse.Core.Image.{Buf}
use ufs_fuse.Ufs.Dir.{DirEntry}
use ufs_fuse.Ufs.Dir.Scan.{IsAscii}
use ufs_fuse.Ufs.Dir.Tidy.{Entry, Tidy, Tidy-le}
use ufs_fuse.Ufs.Write.Entries.{String}
use ufs_fuse.Ufs.Write.Removal.{remove_loop, remove_entry}
use ufs_fuse.Ufs.Write.Encoded.{unused}
use ufs_fuse.Ufs.Write.RemovedRecords.{
  has_name, before, merge_from, take_out, decoded, decoded_all, iter_directory_records-Tidy,
  Removed, keep, test_lem, emptied, merged,
}

module _ (b : Buf) (sb : b.size ≡ 512) (name : String) (ascii : IsAscii name) where
  passed :
      (previous : Option DirEntry) (c : ℕ) (r : Entry) (rest : List DirEntry)
      → has_name name r ≡ false
      → remove_loop b name previous (decoded c r ∷ rest)
        ≡ remove_loop b name (if c % 512 == 0 then none else some (decoded c r)) rest
  unfolding remove_loop
  passed previous c r rest h = rw (test_lem b sb name ascii c r, h) refl

  passed_inside :
      (previous : Option DirEntry) (c : ℕ) (r : Entry) (rest : List DirEntry)
      → 0 < c
      → c < 512
      → has_name name r ≡ false
      → remove_loop b name previous (decoded c r ∷ rest)
        ≡ remove_loop b name (some (decoded c r)) rest
  passed_inside previous c r rest p q h =
      let m : c % 512 ≡ c = mod-eq_of_lt q in
      let not_first : (c == 0) ≡ false = ==_ne c 0 (λ e. omega arith) in
      passed previous c r rest h ∙ rw (m, not_first) refl

  merge_loop :
      (c : ℕ) (p : Entry) (rs : List Entry)
      → Tidy b c (p ∷ rs) 512
      → Removed b sb c
          (merge_from name p rs)
          (remove_loop b name (some (decoded c p)) (decoded_all (c + p.record_length) rs))
  unfolding merge_from remove_loop
  merge_loop c p [] t = refl
  merge_loop c p (r ∷ rs) (s, w, (s2, w2, t)) = elim (Bool-cases (has_name name r)) [
    | inl h ↦ rw h (
        merged b sb name ascii c p r (decoded_all (c + p.record_length + r.record_length) rs) rs h
          (s, w, (s2, w2, t)))
    | inr h ↦
        let k = Tidy-le b (c + p.record_length + r.record_length) rs 512 t in
        let step =
          passed_inside (some (decoded c p)) (c + p.record_length) r
            (decoded_all (c + p.record_length + r.record_length) rs) (omega (arith, w.0))
            (omega (arith, w2.0)) h in
        let later = merge_loop (c + p.record_length) r rs (s2, w2, t) in
        rw h (
          subst (Removed b sb c (before p (merge_from name r rs))) (sym step)
            (keep b sb c p (merge_from name r rs) _ s w later))
  ]

  remove_loop_lem :
      (rs : List Entry)
      → Tidy b 0 rs 512
      → Removed b sb 0 (take_out name rs) (remove_loop b name none (decoded_all 0 rs))
  unfolding take_out remove_loop
  remove_loop_lem [] t = refl
  remove_loop_lem (r ∷ []) t = elim (Bool-cases (has_name name r)) [
    | inl h ↦ rw h (emptied b sb name ascii 0 r [] [] h t)
    | inr h ↦ rw h (passed none 0 r [] h)
  ]
  remove_loop_lem (r ∷ q ∷ rs) (s, w, (s2, w2, t)) =
      let c = 0 + r.record_length in
      let rest = decoded_all (c + q.record_length) rs in
      let k = Tidy-le b (c + q.record_length) rs 512 t in
      let first = λ (h : has_name name r ≡ false). passed none 0 r (decoded c q ∷ rest) h in
      elim (Bool-cases (has_name name r)) [
        | inl h ↦
            rw h (emptied b sb name ascii 0 r (decoded c q ∷ rest) (q ∷ rs) h (s, w, (s2, w2, t)))
        | inr h ↦ elim (Bool-cases (has_name name q)) [
          | inl g ↦
              rw (h, g)
                (subst (Removed b sb 0 (some (r ∷ unused q.record_length ∷ rs))) (sym (first h)) (
                  keep b sb 0 r (some (unused q.record_length ∷ rs)) _ s w
                    (emptied b sb name ascii c q rest rs g (s2, w2, t))))
          | inr g ↦
              let step = passed_inside none c q rest (omega (arith, w.0)) (omega (arith, w2.0)) g in
              rw (h, g)
                (subst (Removed b sb 0 (before r (merge_from name q rs))) (sym (first h ∙ step))
                  (keep b sb 0 r (merge_from name q rs) _ s w (merge_loop c q rs (s2, w2, t))))
        ]
      ]

  -- Removing an ASCII name from a directory block whose records fill it, each with room for its name,
  -- does not panic. If no record in use has the name nothing is returned. Otherwise the new block is
  -- again such a block, and its records are those that `take_out` gives: of the first record with the
  -- name, where it is one of the first two, a record that is not in use is left, and any other is
  -- joined to the record before it; all other records are as before.
  pub remove_entry_lem :
      (rs : List Entry)
      → Tidy b 0 rs 512
      → ((take_out name rs ≡ none) × (remove_entry b 512 name ≡ ok none))
        ⊎ ((rs' : List Entry) × (b' : Buf) × (take_out name rs ≡ some rs')
            × (remove_entry b 512 name ≡ ok (some b'))
            × (b'.size ≡ 512)
            × Tidy b' 0 rs' 512)
  unfolding remove_entry
  remove_entry_lem rs t =
      let walk = iter_directory_records-Tidy b sb rs t in
      rw walk (
        ends (take_out name rs) (remove_loop b name none (decoded_all 0 rs)) (remove_loop_lem rs t))
    where
      ends :
          (o : Option (List Entry)) (res : Result (Option Buf))
          → Removed b sb 0 o res
          → ((o ≡ none) × (res ≡ ok none))
            ⊎ ((rs' : List Entry) × (b' : Buf) × (o ≡ some rs')
                × (res ≡ ok (some b'))
                × (b'.size ≡ 512)
                × Tidy b' 0 rs' 512)
      ends none res h = inl (refl, h)
      ends (some rs') res (b', e, size, same, t') = inr (rs', b', refl, e, size, t')
