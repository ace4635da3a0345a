-- ===== src/Ufs/Write/Monad.antt =====
-- A function of write.rs: it has the image as its state, and may report an error or panic. What was
-- written before an error stays written.
use ufs_fuse.Base.{
  Bool, true, false, Option, none, some, Error, Result, ok, panic, Reply, done, failed, map_ok,
}
use ufs_fuse.Core.Image.{Buf}

abbrev pub W : Type 0 → Type 0
W A = Buf → Result (Reply A × Buf)

module _ {A : Type 0} where
  abbrev pub give : A → W A
  give a image = ok (done a, image)

  abbrev pub fail : Error → W A
  fail e image = ok (failed e, image)

  -- A function that only reads, or that only computes.
  abbrev pub reads : (Buf → Result A) → W A
  reads f image = map_ok (λ a. (done a, image)) (f image)

  abbrev pub computes : Result A → W A
  computes r image = map_ok (λ a. (done a, image)) r

  abbrev pub replies : Result (Reply A) → W A
  replies r image = map_ok (λ a. (a, image)) r

  -- `ok_or_else(..)?`
  abbrev pub or_fail : Error → Option A → W A
  or_fail e none = fail e
  or_fail e (some a) = give a

abbrev pub writes : (Buf → Result Buf) → W (Unit {0})
writes f image = map_ok (λ image'. (done tt, image')) (f image)

-- `if c { return Err(e) }`
abbrev pub refuse_if : Bool → Error → W (Unit {0})
refuse_if true e = fail e
refuse_if false e = give tt

module _ {A B : Type 0} where
  -- What follows a step, from what the step came to.
  abbrev pub after : Result (Reply A × Buf) → (A → W B) → Result (Reply B × Buf)
  after panic next = panic
  after (ok (done a, image)) next = next a image
  after (ok (failed e, image)) next = ok (failed e, image)

  infixl 5 ◌>>=◌ ◌>>◌
  abbrev pub ◌>>=◌ : W A → (A → W B) → W B
  (m >>= next) image = after (m image) next

  abbrev pub ◌>>◌ : W A → W B → W B
  m >> next = m >>= λ _. next
