-- ===== src/Ufs/Bitmap/Bits.antt =====
-- The bits of a byte, by a table over all bytes.
use ufs_fuse.Base.{
  ℕ, zero, suc, ◌<◌, ◌≡◌, refl, Bool, true, false, not, ◌&&◌, ◌==◌, ltb, ltb→lt, arith,
  if◌then◌else◌,
}
use ufs_fuse.Ufs.Bitmap.{test_bit, with_bit}

-- `p` holds of every number below the second argument.
every : (ℕ → Bool) → ℕ → Bool
every p zero = true
every p (suc n) = if p n then every p n else false

every-at : (p : ℕ → Bool) (x n : ℕ) → x < n → every p n ≡ true → p x ≡ true
unfolding every
every-at p x zero lt h = absurd (omega arith)
every-at p x (suc n) lt h = ground (arith, every-at p x n)

infix 50 ◌<=>◌
abbrev ◌<=>◌ : Bool → Bool → Bool
true <=> b = b
false <=> b = not b

<=>-eq : (a b : Bool) → (a <=> b) ≡ true → a ≡ b
<=>-eq a b h = ground arith

-- The bit `j` after bit `k` was set or cleared, and that the result is a byte.
abbrev row : ℕ → ℕ → ℕ → Bool → Bool
row b k j on =
    (test_bit (with_bit b k on) j <=> (if k == j then on else test_bit b j))
    && ltb (with_bit b k on) 256

-- All rows of one value of the bit.
abbrev table : Bool → ℕ → Bool
table on b = every (λ k. every (λ j. row b k j on) 8) 8

table_holds : (on : Bool) → every (table on) 256 ≡ true
unfolding every test_bit with_bit
table_holds true = refl
table_holds false = refl

row_lem : (b k j : ℕ) (on : Bool) → b < 256 → k < 8 → j < 8 → row b k j on ≡ true
row_lem b k j on hb hk hj =
    let of_byte = every-at (table on) b 256 hb (table_holds on) in
    let of_bit = every-at (λ k. every (λ j. row b k j on) 8) k 8 hk of_byte in
    every-at (λ j. row b k j on) j 8 hj of_bit

pub test_bit-with_bit :
    (b k j : ℕ) (on : Bool)
    → b < 256
    → k < 8
    → j < 8
    → test_bit (with_bit b k on) j ≡ (if k == j then on else test_bit b j)
test_bit-with_bit b k j on hb hk hj = <=>-eq _ _ (and_left _ _ (row_lem b k j on hb hk hj))
  where
    and_left : (x y : Bool) → (x && y) ≡ true → x ≡ true
    and_left x y h = ground arith

pub with_bit-lt : (b k : ℕ) (on : Bool) → b < 256 → k < 8 → with_bit b k on < 256
with_bit-lt b k on hb hk = ltb→lt _ _ (and_right _ _ (row_lem b k 0 on hb hk (omega arith)))
  where
    and_right : (x y : Bool) → (x && y) ≡ true → y ≡ true
    and_right x y h = ground arith
