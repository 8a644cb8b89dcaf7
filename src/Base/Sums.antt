-- ===== src/Base/Sums.antt =====
-- Sums over the numbers below a bound.
use Prim.Native.Nat.{ℕ, zero, suc, ◌+◌, ◌≤◌, ◌<◌}
use mathlib.Core.Path.{◌≡◌, refl, sym}
use native.Mathlib.Decide.{ℕ_discrete}
use native.Mathlib.Omega.{arith}

unfoldable pub sum_below : ℕ → (ℕ → ℕ) → ℕ
sum_below zero f = 0
sum_below (suc n) f = f n + sum_below n f

pub sum_below-ext :
    (n : ℕ) (f g : ℕ → ℕ) → ((i : ℕ) → i < n → f i ≡ g i) → sum_below n f ≡ sum_below n g
unfolding sum_below
sum_below-ext zero f g h = refl
sum_below-ext (suc n) f g h =
    omega (arith, h n (omega arith), sum_below-ext n f g (λ i l. h i (omega arith)))

pub sum_below-le : (n : ℕ) (f : ℕ → ℕ) → ((i : ℕ) → f i ≤ 1) → sum_below n f ≤ n
unfolding sum_below
sum_below-le zero f h = omega arith
sum_below-le (suc n) f h = omega (arith, h n, sum_below-le n f h)

-- two functions that differ at one place
pub sum_below-change :
    (n : ℕ) (f g : ℕ → ℕ) (k : ℕ)
    → k < n
    → ((i : ℕ) → (i ≡ k → ⊥) → f i ≡ g i)
    → sum_below n f + g k ≡ sum_below n g + f k
unfolding sum_below
sum_below-change zero f g k h e = absurd (omega arith)
sum_below-change (suc n) f g k h e = elim (ℕ_discrete n k) [
  | yes p ↦
      rw (sym p) (omega (arith, sum_below-ext n f g (λ i l. e i (λ q. omega (arith, l, p, q)))))
  | no p ↦ omega (arith, e n p, sum_below-change n f g k (omega arith) e)
]

-- one summand is part of the sum
pub le-sum_below : (n : ℕ) (f : ℕ → ℕ) (k : ℕ) → k < n → f k ≤ sum_below n f
unfolding sum_below
le-sum_below zero f k h = absurd (omega arith)
le-sum_below (suc n) f k h = elim (ℕ_discrete k n) [
  | yes p ↦ rw p (omega arith)
  | no p ↦ omega (arith, le-sum_below n f k (omega arith))
]

-- two summands are part of the sum
pub two-le-sum_below : (n : ℕ) (f : ℕ → ℕ) (j k : ℕ) → j < k → k < n → f j + f k ≤ sum_below n f
unfolding sum_below
two-le-sum_below zero f j k h l = absurd (omega arith)
two-le-sum_below (suc n) f j k h l = elim (ℕ_discrete k n) [
  | yes p ↦ rw p (omega (arith, le-sum_below n f j (omega arith)))
  | no p ↦ omega (arith, two-le-sum_below n f j k h (omega arith))
]

pub sum_below-zero : (n : ℕ) → sum_below n (λ i. 0) ≡ 0
unfolding sum_below
sum_below-zero zero = refl
sum_below-zero (suc n) = omega (arith, sum_below-zero n)
