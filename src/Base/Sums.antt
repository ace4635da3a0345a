-- ===== src/Base/Sums.antt =====
-- Sums of the values of a function below a bound.
use Prim.Native.Nat.{ℕ, zero, suc, ◌+◌, ◌*◌, ◌≤◌, ◌<◌}
use mathlib.Core.Path.{◌≡◌, refl, ap}
use mathlib.Core.Logic.{◌≢◌}
use native.Mathlib.Omega.{arith}
use native.Mathlib.Decide.{ℕ_discrete}

-- `f 0 + .. + f (n - 1)`
abbrev pub sum_to : (ℕ → ℕ) → ℕ → ℕ
sum_to f zero = 0
sum_to f (suc n) = f n + sum_to f n

pub sum_to-same : (f g : ℕ → ℕ) (n : ℕ) → ((k : ℕ) → k < n → f k ≡ g k) → sum_to f n ≡ sum_to g n
sum_to-same f g zero h = refl
sum_to-same f g (suc n) h =
    omega (arith, h n (omega arith), sum_to-same f g n (λ k p. h k (omega arith)))

-- Two functions that differ at one place only.
pub sum_to-one :
    (f g : ℕ → ℕ) (n l : ℕ)
    → l < n
    → ((k : ℕ) → k < n → k ≢ l → f k ≡ g k)
    → sum_to f n + g l ≡ sum_to g n + f l
sum_to-one f g zero l p h = absurd (omega arith)
sum_to-one f g (suc n) l p h = elim (ℕ_discrete n l) [
  | yes e ↦
      let same = sum_to-same f g n (λ k q. h k (omega arith) (λ c. omega arith)) in
      omega (arith, same, ap f e, ap g e)
  | no ne ↦
      let below = sum_to-one f g n l (omega arith) (λ k q. h k (omega arith)) in
      omega (arith, h n (omega arith) ne, below)
]

pub sum_to_le : (f : ℕ → ℕ) (m n : ℕ) → ((k : ℕ) → k < n → f k ≤ m) → sum_to f n ≤ n * m
sum_to_le f m zero h = omega arith
sum_to_le f m (suc n) h =
    omega (arith, h n (omega arith), sum_to_le f m n (λ k p. h k (omega arith)))

-- A term is at most the sum.
pub le-sum_to : (f : ℕ → ℕ) (n k : ℕ) → k < n → f k ≤ sum_to f n
le-sum_to f zero k h = absurd (omega arith)
le-sum_to f (suc n) k h = elim (ℕ_discrete n k) [
  | yes e ↦ omega (arith, ap f e)
  | no ne ↦ omega (arith, le-sum_to f n k (omega arith))
]
