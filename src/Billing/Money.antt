-- ===== src/Billing/Money.antt =====
-- Python's floats, as far as billing_service.py computes with them.
use secure_multi_tenant_saas.Prelude.{ℕ, ◌≤◌, ◌≡◌}

-- `lit m d` is the literal of the decimal number m / 10 ^ d, `times n x` the product of an integer
-- and a float, and `round2 x` is `round(x, 2)`.
pub record Money : Type 1 where
  pub Amount : Type 0
  pub lit : ℕ → ℕ → Amount
  pub times : ℕ → Amount → Amount
  pub plus : Amount → Amount → Amount
  pub round2 : Amount → Amount

-- What is relied on: IEEE 754 rounds to the nearest, so products and sums of numbers that are not
-- negative grow with their arguments, zero times a number is zero, and adding zero changes
-- nothing; `round` grows with its argument and keeps a number of two decimals.
module _ (money : Money) where
  open money use {Amount, lit, times, plus, round2}

  pub record IsMoney : Type 1 where
    pub AtMost : Amount → Amount → Type 0
    pub plus_mono : (x y z : Amount) → AtMost y z → AtMost (plus x y) (plus x z)
    pub times_mono : (m n a d : ℕ) → m ≤ n → AtMost (times m (lit a d)) (times n (lit a d))
    pub round2_mono : (x y : Amount) → AtMost x y → AtMost (round2 x) (round2 y)
    pub times_zero : (a d : ℕ) → times 0 (lit a d) ≡ lit 0 2
    pub plus_zero : (x : Amount) → plus x (lit 0 2) ≡ x
    pub round2_exact : (m : ℕ) → round2 (lit m 2) ≡ lit m 2
