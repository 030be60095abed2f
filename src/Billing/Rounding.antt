-- ===== src/Billing/Rounding.antt =====
-- An amount finer than the columns: decimal.Decimal keeps it, numeric(18, 6) rounds it.
use sms.Prelude.{ℕ, zero, suc, ◌+◌, ◌*◌, ◌/◌, ◌≡◌, refl, arith}
use sms.Prelude.Int.{ℤ, pos, negsuc, sub_ℕ, scale, ◌≤ℤ◌}

-- The decimal.Decimal of `numerator` / 10 ^ `finer` millionths: an amount with at most six decimals
-- has `finer` 0.
pub record Decimal : Type 0 where
  pub numerator : ℤ
  pub finer : ℕ

abbrev pub ten_to : ℕ → ℕ
ten_to zero = 1
ten_to (suc n) = 10 * ten_to n

-- The parts of a millionth in which the amount is a whole number.
abbrev pub parts : Decimal → ℕ
parts d = ten_to d.finer

-- What a column of the domain `billing_money` stores for `z` / `unit` millionths: PostgreSQL rounds
-- half away from zero.
unfoldable pub to_numeric : ℕ → ℤ → ℤ
to_numeric unit (pos n) = pos ((2 * n + unit) / (2 * unit))
to_numeric unit (negsuc n) = sub_ℕ 0 ((2 * suc n + unit) / (2 * unit))

half : (n : ℕ) → (2 * n + 1) / 2 ≡ n
half n = omega arith

-- Whole millionths are stored as they are.
pub to_numeric_whole : (z : ℤ) → to_numeric 1 z ≡ z
unfolding to_numeric
to_numeric_whole (pos n) = rw (half n) refl
to_numeric_whole (negsuc n) = rw (half (suc n)) (ground arith)

pub to_numeric_nonneg : (unit : ℕ) (z : ℤ) → pos 1 ≤ℤ z → pos 0 ≤ℤ to_numeric unit z
unfolding to_numeric
to_numeric_nonneg unit (pos n) h = omega arith
to_numeric_nonneg unit (negsuc n) h = absurd (omega (arith, h))

pub scale_one : (z : ℤ) → scale z 1 ≡ z
unfolding scale
scale_one (pos n) = ground arith
scale_one (negsuc n) = ground arith
