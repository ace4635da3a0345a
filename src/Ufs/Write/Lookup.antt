-- ===== src/Ufs/Write/Lookup.antt =====
-- An entry that was put into a directory block is found there, and so are those that were there before.
use ufs_fuse.Base.{
  ℕ, ◌-◌, ◌^◌, ◌≤◌, ◌<◌, ◌≡◌, ◌≢◌, inl, inr, refl, sym, ap, ap₂, ◌∙◌, subst, Bool, true, false, not,
  ◌&&◌, Option, none, some, List, [], ◌∷◌, ◌++◌, length, ok, ok-injective, Reply, done, leb, ◌==◌,
  if◌then◌else◌, arith, Bool-cases, Option-cases, ==_iff, ==_ne,
}
use ufs_fuse.Core.Image.{Buf}
use ufs_fuse.Ufs.Dir.{same_bytes, scan_block}
use ufs_fuse.Ufs.Dir.Tidy.{Entry, Tidy, find_entry, scan_block-Tidy}
use ufs_fuse.Ufs.Write.Entries.{String, as_bytes, insert_entry}
use ufs_fuse.Ufs.Write.InsertLaws.{needed, filled, split}
use ufs_fuse.Ufs.Write.Inserted.{is_free_room, is_used_room, insert_record}
use ufs_fuse.Ufs.Write.InsertEntry.{insert_entry_lem}

pub same_bytes-eq : (xs ys : List ℕ) → same_bytes xs ys ≡ true → xs ≡ ys
unfolding same_bytes
same_bytes-eq [] [] h = refl
same_bytes-eq [] (y ∷ ys) h = absurd (cc)
same_bytes-eq (x ∷ xs) [] h = absurd (cc)
same_bytes-eq (x ∷ xs) (y ∷ ys) h =
    let (e, r) = both (x == y) (same_bytes xs ys) h in
    ap₂ (λ a as'. a ∷ as') ((==_iff x y).0 e) (same_bytes-eq xs ys r)
  where
    both : (p q : Bool) → (p && q) ≡ true → (p ≡ true) × (q ≡ true)
    both true q h = (refl, h)
    both false q h = absurd (cc)

abbrev or_later : Option ℕ → Option ℕ → Option ℕ
or_later none o = o
or_later (some x) o = some x

-- A record that has the name, and is in use.
abbrev matches : List ℕ → Entry → Bool
matches m r = not (r.inode == 0) && same_bytes r.name m

pub find_entry-append :
    (m : List ℕ) (xs ys : List Entry)
    → find_entry m (xs ++ ys) ≡ or_later (find_entry m xs) (find_entry m ys)
unfolding find_entry
find_entry-append m [] ys = refl
find_entry-append m (x ∷ xs) ys = elim (Bool-cases (matches m x)) [
  | inl e ↦ rw e refl
  | inr e ↦ rw e (find_entry-append m xs ys)
]

module _ (i : ℕ) (name : String) (used : i ≢ 0) where
  abbrev nb : List ℕ
  nb = as_bytes name

  find-filled :
      (m : List ℕ) (len : ℕ) (ys : List Entry)
      → find_entry m (filled i name len ++ ys)
        ≡ (if same_bytes nb m then some i else find_entry m ys)
  unfolding find_entry
  find-filled m len ys = elim (Bool-cases (leb 8 (len - needed i name))) [
    | inl e ↦ rw (e, ==_ne i 0 used) refl
    | inr e ↦ rw (e, ==_ne i 0 used) refl
  ]

  find-split :
      (m : List ℕ) (r : Entry) (ys : List Entry)
      → find_entry m (split i name r ++ ys) ≡ (
          if matches m r then some r.inode else if same_bytes nb m then some i else find_entry m ys)
  unfolding find_entry
  find-split m r ys = rw (==_ne i 0 used) refl

  -- The record does not have a name that the block does not have.
  pub absent-parts :
      (r : Entry) (rs : List Entry)
      → find_entry nb (r ∷ rs) ≡ none
      → (matches nb r ≡ false) × (find_entry nb rs ≡ none)
  unfolding find_entry
  absent-parts r rs h = elim (Bool-cases (matches nb r)) [
    | inl e ↦ let c : some r.inode ≡ none = sym (rw e refl) ∙ h in absurd (cc)
    | inr e ↦ (e, sym (rw e refl) ∙ h)
  ]

  not_both :
      (m : List ℕ) (r : Entry) → matches nb r ≡ false → same_bytes nb m ≡ true → matches m r ≡ false
  not_both m r h e = subst (λ x. matches x r ≡ false) (same_bytes-eq nb m e) h

  swap :
      (same there : Bool) (a b c : Option ℕ)
      → (same ≡ true → there ≡ false)
      → (if there then a else if same then b else c) ≡ (if same then b else if there then a else c)
  swap true true a b c h = absurd (let e = h refl in cc)
  swap true false a b c h = refl
  swap false there a b c h = refl

  pub find_entry-cons :
      (m : List ℕ) (r : Entry) (xs : List Entry)
      → find_entry m (r ∷ xs) ≡ (if matches m r then some r.inode else find_entry m xs)
  unfolding find_entry
  find_entry-cons m r xs = refl

  -- The entry is found under its name, every other name as before.
  pub find_entry-insert_record :
      (rs rs' : List Entry) (m : List ℕ)
      → find_entry nb rs ≡ none
      → insert_record i name rs ≡ some rs'
      → find_entry m rs' ≡ (if same_bytes nb m then some i else find_entry m rs)
  unfolding insert_record
  find_entry-insert_record [] rs' m absent h = absurd (cc)
  find_entry-insert_record (r ∷ rs) rs' m absent h =
      let (no_match, below) = absent-parts r rs absent in
      let cons = λ (xs : List Entry). find_entry-cons m r xs in
      elim (Bool-cases (is_free_room i name r)) [
        | inl f ↦
            let e : filled i name r.record_length ++ rs ≡ rs' = some_inj (sym (rw f refl) ∙ h) in
            ap (find_entry m) (sym e)
            ∙ find-filled m r.record_length rs
            ∙ rw (cons rs, free_no_match m r f) refl
        | inr f ↦ elim (Bool-cases (is_used_room i name r)) [
          | inl u ↦
              let e : split i name r ++ rs ≡ rs' = some_inj (sym (rw (f, u) refl) ∙ h) in
              ap (find_entry m) (sym e)
              ∙ find-split m r rs
              ∙ rw (cons rs) (
                  swap (same_bytes nb m) (matches m r) (some r.inode) (some i) (find_entry m rs)
                    (not_both m r no_match))
          | inr u ↦ elim (Option-cases (insert_record i name rs)) [
            | inl e ↦ let c : none ≡ some rs' = sym (rw (f, u, e) refl) ∙ h in absurd (cc)
            | inr (rest, e) ↦
                let q : r ∷ rest ≡ rs' = some_inj (sym (rw (f, u, e) refl) ∙ h) in
                ap (find_entry m) (sym q)
                ∙ rw (cons rest, cons rs, find_entry-insert_record rs rest m below e)
                    (swap (same_bytes nb m) (matches m r) (some r.inode) (some i) (find_entry m rs)
                      (not_both m r no_match))
          ]
        ]
      ]
    where
      some_inj : {a b : List Entry} → some a ≡ some b → a ≡ b
      some_inj h = cc

      free_no_match : (m : List ℕ) (r : Entry) → is_free_room i name r ≡ true → matches m r ≡ false
      free_no_match m r f =
          ends (r.inode == 0) (leb (needed i name) r.record_length) (same_bytes r.name m) f
        where
          ends : (x y z : Bool) → (x && y) ≡ true → (not x && z) ≡ false
          ends true y z h = refl
          ends false y z h = absurd (cc)

  -- In a directory block whose records fill it, each with room for its name, and where the scan does not
  -- find a name of at most 255 bytes, put the name with an inode number that is not 0, and let the block
  -- have room for it: then the scan of the new block finds that inode number under the name, and under every other name
  -- what it found before.
  pub scan_block-insert_entry :
      (b b' : Buf) (rs : List Entry) (m : List ℕ)
      → i < 2 ^ 32
      → length (as_bytes name) ≤ 255
      → b.size ≡ 512
      → Tidy b 0 rs 512
      → scan_block b (as_bytes name) 512 ≡ ok none
      → insert_entry b 512 i name ≡ ok (done b')
      → b'.size ≡ 512
      → scan_block b' m 512
        ≡ (if same_bytes (as_bytes name) m then ok (some i) else scan_block b m 512)
  scan_block-insert_entry b b' rs m hi short sb t absent h sb' =
      let none_there = ok-injective (sym (scan_block-Tidy b 512 (omega arith) nb rs t) ∙ absent) in
      elim (insert_entry_lem i name b sb rs hi short t) [
        | inl (rs', c, e, p, sc, t') ↦
            let same : c ≡ b' = done_inj (ok-injective (sym p ∙ h)) in
            let t2 = subst (λ x. Tidy x 0 rs' 512) same t' in
            scan_block-Tidy b' 512 (omega arith) m rs' t2
            ∙ ap ok (find_entry-insert_record rs rs' m none_there e)
            ∙ choose (same_bytes nb m) (find_entry m rs)
            ∙ ap (λ x. if same_bytes nb m then ok (some i) else x)
                (sym (scan_block-Tidy b 512 (omega arith) m rs t))
        | inr (c, e, p, sc, t') ↦
            let same = done_inj (ok-injective (sym p ∙ h)) in
            absurd (omega (arith, ap (λ x. x.size) same))
      ]
    where
      done_inj : {x y : Buf} → ◌≡◌ {A = Reply Buf} (done x) (done y) → x ≡ y
      done_inj h = cc

      choose :
          (x : Bool) (o : Option ℕ)
          → ok (if x then some i else o) ≡ (if x then ok (some i) else ok o)
      choose true o = refl
      choose false o = refl
