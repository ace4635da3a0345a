-- ===== src/Bfs/Names.antt =====
-- The names that `format` accepts, said without its loop.
use ufs_fuse.Base.{
  ℕ, ◌≤◌, ◌≡◌, ◌≢◌, ◌↔◌, inl, inr, refl, ap, subst, Bool, true, false, not, ◌||◌, ◌&&◌, none, some,
  List, [], ◌∷◌, length, ltb, ◌==◌, Bool-cases, Option-cases, ==_ne, lt→ltb, ltb→lt, ltb→le, le→ltb,
  arith, if◌then◌else◌,
}
use ufs_fuse.Core.Image.{Buf}
use ufs_fuse.Ufs.Dir.{same_bytes}
use ufs_fuse.Ufs.Dir.Scan.{IsAscii}
use ufs_fuse.Ufs.Write.Entries.{String, byte_length}
use ufs_fuse.Ufs.Write.Lookup.{same_bytes-eq}
use ufs_fuse.Ufs.Write.RoundTrip.{same_bytes_refl, as_bytes-IsAscii}
use ufs_fuse.Bfs.Format.{
  bad_name, name_too_long, name_not_ascii, duplicate_name, contains_char, contains_name, is_ascii,
  name_error, check_names, first_error,
}

-- The character is not in the string.
abbrev pub Lacks : ℕ → String → Type 0
Lacks c [] = Unit {0}
Lacks c (d ∷ ds) = (c ≢ d) × Lacks c ds

-- One to fourteen ASCII characters, none of them a slash.
abbrev pub IsName : String → Type 0
IsName name = (name ≢ []) × Lacks 47 name × (length name ≤ 14) × IsAscii name

abbrev pub AllNames : List (String × Buf) → Type 0
AllNames [] = Unit {0}
AllNames (f ∷ files) = IsName f.0 × AllNames files

-- No file has the name, and no two files have the same.
abbrev pub Unused : String → List (String × Buf) → Type 0
Unused name [] = Unit {0}
Unused name (f ∷ files) = (name ≢ f.0) × Unused name files

abbrev pub Distinct : List (String × Buf) → Type 0
Distinct [] = Unit {0}
Distinct (f ∷ files) = Unused f.0 files × Distinct files

abbrev Fresh : String → List String → Type 0
Fresh name [] = Unit {0}
Fresh name (n ∷ ns) = (n ≢ name) × Fresh name ns

abbrev AllFresh : List String → List (String × Buf) → Type 0
AllFresh seen [] = Unit {0}
AllFresh seen (f ∷ files) = Fresh f.0 seen × AllFresh seen files

or_false : (x y : Bool) → (x || y) ≡ false → (x ≡ false) × (y ≡ false)
or_false true y h = absurd (cc)
or_false false y h = (refl, h)

and_true : (x y : Bool) → (x && y) ≡ true → (x ≡ true) × (y ≡ true)
and_true true y h = (refl, h)
and_true false y h = absurd (cc)

contains_char_lem : (c : ℕ) (s : String) → (contains_char c s ≡ false) ↔ Lacks c s
unfolding contains_char
contains_char_lem c [] = (λ h. tt, λ h. refl)
contains_char_lem c (d ∷ ds) = (
  λ h.
      let (x, y) = or_false (c == d) (contains_char c ds) h in
      (λ e. absurd (ground arith), (contains_char_lem c ds).0 y),
  λ h. rw (==_ne c d h.0) ((contains_char_lem c ds).1 h.1),
)

is_ascii_lem : (s : String) → (is_ascii s ≡ true) ↔ IsAscii s
unfolding is_ascii
is_ascii_lem [] = (λ h. tt, λ h. refl)
is_ascii_lem (c ∷ cs) = (
  λ h. let (x, y) = and_true (ltb c 128) (is_ascii cs) h in (ltb→lt c 128 x, (is_ascii_lem cs).0 y),
  λ h. rw (lt→ltb c 128 h.0) ((is_ascii_lem cs).1 h.1),
)

same_bytes_ne : (xs ys : List ℕ) → (same_bytes xs ys ≡ false) ↔ (xs ≢ ys)
same_bytes_ne xs ys = (
  λ h e. absurd (let t = subst (λ z. same_bytes xs z ≡ true) e (same_bytes_refl xs) in cc),
  λ h. elim (Bool-cases (same_bytes xs ys)) [
    | inl t ↦ absurd (h (same_bytes-eq xs ys t))
    | inr f ↦ f
  ],
)

contains_name_lem :
    (name : String) (ns : List String) → (contains_name name ns ≡ false) ↔ Fresh name ns
unfolding contains_name
contains_name_lem name [] = (λ h. tt, λ h. refl)
contains_name_lem name (n ∷ ns) = (
  λ h.
      let (x, y) = or_false (same_bytes n name) (contains_name name ns) h in
      ((same_bytes_ne n name).0 x, (contains_name_lem name ns).0 y),
  λ h. rw ((same_bytes_ne n name).1 h.0) ((contains_name_lem name ns).1 h.1),
)

-- The chain of the four tests gives no error only where all are passed.
passed :
    (name : String) (a b c d : Bool)
    → (if a
        then some (bad_name name)
        else if b
        then some (name_too_long name)
        else if not c
        then some (name_not_ascii name)
        else if d
        then some (duplicate_name name)
        else none)
      ≡ none
    → (a ≡ false) × (b ≡ false) × (c ≡ true) × (d ≡ false)
passed name true b c d h = absurd (cc)
passed name false true c d h = absurd (cc)
passed name false false false d h = absurd (cc)
passed name false false true true h = absurd (cc)
passed name false false true false h = (refl, refl, refl, refl)

length-ascii : (name : String) → IsAscii name → byte_length name ≡ length name
unfolding byte_length
length-ascii name h = ap length (as_bytes-IsAscii name h)

name_error_lem :
    (seen : List String) (name : String)
    → (name_error seen name ≡ none) ↔ (IsName name × Fresh name seen)
unfolding name_error
name_error_lem seen name = (
  λ h.
      let (e, l, a, f) =
        passed name (same_bytes name [] || contains_char 47 name) (ltb 14 (byte_length name))
          (is_ascii name) (contains_name name seen) h in
      let (n, s) = or_false (same_bytes name []) (contains_char 47 name) e in
      let ascii = (is_ascii_lem name).0 a in
      (
        (
          (same_bytes_ne name []).0 n,
          (contains_char_lem 47 name).0 s,
          omega (arith, ltb→le 14 (byte_length name) l, length-ascii name ascii),
          ascii,
        ),
        (contains_name_lem name seen).0 f,
      ),
  λ t.
      let ((n, s, l, a), f) = t in
      rw
        (
          (same_bytes_ne name []).1 n,
          (contains_char_lem 47 name).1 s,
          le→ltb 14 (byte_length name) (omega (arith, length-ascii name a)),
          (is_ascii_lem name).1 a,
          (contains_name_lem name seen).1 f,
        )
        refl,
)

-- A name more that was seen: no file has it.
AllFresh-split :
    (g : String) (seen : List String) (files : List (String × Buf))
    → AllFresh (g ∷ seen) files ↔ (Unused g files × AllFresh seen files)
AllFresh-split g seen [] = (λ h. (tt, tt), λ h. tt)
AllFresh-split g seen (f ∷ files) =
    let more = AllFresh-split g seen files in
    (
      λ h. let (u, a) = more.0 h.1 in ((h.0.0, u), (h.0.1, a)),
      λ h. ((h.0.0, h.1.0), more.1 (h.0.1, h.1.1)),
    )

check_names_seen :
    (seen : List String) (files : List (String × Buf))
    → (check_names seen files ≡ none) ↔ (AllNames files × Distinct files × AllFresh seen files)
unfolding check_names first_error
check_names_seen seen [] = (λ h. (tt, tt, tt), λ h. refl)
check_names_seen seen (f ∷ files) =
    let here = name_error_lem seen f.0 in
    let more = check_names_seen (f.0 ∷ seen) files in
    let split = AllFresh-split f.0 seen files in
    (
      λ h. elim (Option-cases (name_error seen f.0)) [
        | inl e ↦
            let (i, fresh) = here.0 e in
            let (n, d, a) = more.0 (rw e at h) in
            let (u, a') = split.0 a in ((i, n), (u, d), (fresh, a'))
        | inr (x, e) ↦ absurd (let bad = rw e at h in cc)
      ],
      λ t.
          let ((i, n), (u, d), (fresh, a)) = t in
          rw (here.1 (i, fresh)) (more.1 (n, d, split.1 (u, a))),
    )

nothing_seen : (files : List (String × Buf)) → AllFresh [] files
nothing_seen [] = tt
nothing_seen (f ∷ files) = (tt, nothing_seen files)

-- The checks of `format` accept the names of the files exactly where every name has 1 to 14 ASCII
-- characters, none of them a slash, and no two files have the same name.
pub check_names_lem :
    (files : List (String × Buf))
    → (check_names [] files ≡ none) ↔ (AllNames files × Distinct files)
check_names_lem files =
    let both = check_names_seen [] files in
    (λ h. let (n, d, a) = both.0 h in (n, d), λ h. both.1 (h.0, h.1, nothing_seen files))
