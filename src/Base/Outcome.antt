-- ===== src/Base/Outcome.antt =====
-- What a call comes to: a value, or a panic (an index or a slice out of range, a failed assertion, an
-- overflow that a checked build stops at). An error that the source returns is a value, `failed e`, so
-- that what was written to the image before it stays written.
use mathlib.Core.Path.{◌≡◌, refl}
use mathlib.Core.Logic.{◌⊎◌, inl, inr}
use mathlib.Core.Bool.{Bool, true, false}

-- The errors that the allocator and the writer report, one for each message.
pub data Error : Type 0 where
  invalid_cg already_free no_free_inodes no_free_blocks no_free_fragments : Error
  invalid_fragment_request size_not_positive : Error
  unreadable_inode no_directory_slot missing_entry missing_dotdot : Error
  unresolved_path parent_not_a_directory already_exists does_not_exist : Error
  is_a_directory not_a_directory not_empty root_refused : Error
  unsupported_type mixed_types : Error

-- The `Result<T, String>` of the allocator and the writer.
pub data Reply {ℓ} (A : Type ℓ) : Type ℓ where
  done : A → Reply A
  failed : Error → Reply A

pub data Result {ℓ} (A : Type ℓ) : Type ℓ where
  ok : A → Result A
  panic : Result A

-- An `assert!`, or the bounds check of an index.
abbrev pub check : Bool → Result (Unit {0})
check false = panic
check true = ok tt

infixl 5 ◌>>=◌ ◌>>◌
abbrev pub ◌>>=◌ {ℓ κ} : {A : Type ℓ} {B : Type κ} → Result A → (A → Result B) → Result B
panic >>= next = panic
ok value >>= next = next value

abbrev pub map_ok {ℓ κ} : {A : Type ℓ} {B : Type κ} → (A → B) → Result A → Result B
map_ok f m = m >>= λ a. ok (f a)

abbrev pub ◌>>◌ {ℓ} : {B : Type ℓ} → Result (Unit {0}) → Result B → Result B
before >> after = before >>= λ _. after

-- Where a chain ends in a value, so does its first part.
pub >>=-eq-ok {ℓ κ} :
    {A : Type ℓ} {B : Type κ} (m : Result A) (next : A → Result B) {b : B}
    → (m >>= next) ≡ ok b
    → (a : A) × (m ≡ ok a) × (next a ≡ ok b)
>>=-eq-ok panic next h = cc
>>=-eq-ok (ok value) next h = (value, refl, h)

pub Result-cases {ℓ} : {A : Type ℓ} (r : Result A) → (r ≡ panic) ⊎ ((a : A) × (r ≡ ok a))
Result-cases panic = inl refl
Result-cases (ok a) = inr (a, refl)

pub ok-injective {ℓ} : {A : Type ℓ} {a b : A} → ok a ≡ ok b → a ≡ b
ok-injective h = cc
