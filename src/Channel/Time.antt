-- ===== src/Channel/Time.antt =====
-- The microseconds of the clock and the finer time behind it.
use technosoft_tml_motor.Prelude.{
  ℕ, zero, suc, ◌+◌, ◌*◌, ◌≤◌, ◌<◌, arith, leb, Bool-cases, inl, inr,
}
use technosoft_tml_motor.Channel.System.{Posix}

mul_le_mul : (m n k : ℕ) → m ≤ n → m * k ≤ n * k
mul_le_mul m n zero h = omega arith
mul_le_mul m n (suc k) h = omega (arith, mul_le_mul m n k h)

module _ (P : Posix) where
  -- A microsecond that has not begun lies ahead.
  pub time_before : (w : P.World) (n : ℕ) → P.now w < n → P.time w < n * P.grain
  time_before w n h =
      let bound : (P.now w + 1) * P.grain ≤ n * P.grain =
        mul_le_mul (P.now w + 1) n P.grain (omega arith) in
      omega (arith, P.now_left w)

  pub now_later : (w w' : P.World) → P.time w ≤ P.time w' → P.now w ≤ P.now w'
  now_later w w' h = elim (Bool-cases (leb (P.now w) (P.now w'))) [
    | inl le ↦ ground arith
    | inr gt ↦
        let before : P.time w' < P.now w * P.grain = time_before w' (P.now w) (ground arith) in
        absurd (omega (arith, P.now_begun w, before))
  ]
