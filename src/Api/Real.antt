-- ===== src/Api/Real.antt =====
-- C's `double`, as a parameter, and the 16.16 fixed-point conversions of
-- technosoftSup/src/tmlSerial.cpp on top of it.
use technosoft_tml_motor.Prelude.{ℕ, Bool}
use technosoft_tml_motor.Prelude.Int.{ℤ, to_word32, signed32}

-- The operations on `double` that the code uses.
pub record Real : Type 1 where
  pub R : Type 0
  pub is_zero : R → Bool
  pub is_positive : R → Bool
  pub fabs : R → R
  pub neg : R → R
  pub mul : R → R → R
  pub div : R → R → R
  pub two_16 : R
  pub of_int : ℤ → R
  -- `(int32_t)x`, toward zero.
  pub to_int32 : R → ℤ

module _ (F : Real) where
  -- `doubleToFixed1616`.
  unfoldable pub to_fixed : F.R → ℕ
  to_fixed v = to_word32 (F.to_int32 (F.mul v F.two_16))

  -- `fixed1616ToDouble`.
  unfoldable pub of_fixed : ℕ → F.R
  of_fixed w = F.div (F.of_int (signed32 w)) F.two_16
