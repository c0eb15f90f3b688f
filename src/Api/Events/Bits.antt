-- ===== src/Api/Events/Bits.antt =====
-- What the masks for the limit switches do to a register.
use technosoft_tml_motor.Prelude.{
  ℕ, ◌-◌, ◌*◌, ◌/◌, ◌%◌, ◌^◌, ◌<◌, ◌≡◌, ◌∙◌, Bool, true, false, if◌then◌else◌, bit_and, arith,
}
use technosoft_tml_motor.Prelude.Bits.{without_digit, bit_and-hole}
use technosoft_tml_motor.Link.{Link}
use technosoft_tml_motor.Api.Events.{clear16, lsp_bit, lsn_bit, without_limits}

without_lsp : (v : ℕ) → v < 2 ^ 16 → bit_and v (clear16 lsp_bit) ≡ v - 64 * (v / 64 % 2)
without_lsp v h =
    let digit : without_digit 6 v ≡ v - 64 * (v / 64 % 2) = omega arith in
    bit_and-hole 6 9 v (omega arith) ∙ digit

without_lsn : (v : ℕ) → v < 2 ^ 16 → bit_and v (clear16 lsn_bit) ≡ v - 128 * (v / 128 % 2)
without_lsn v h =
    let digit : without_digit 7 v ≡ v - 128 * (v / 128 % 2) = omega arith in
    bit_and-hole 7 8 v (omega arith) ∙ digit

-- For a 16-bit register value, TS_DisableLimitProtection's masking takes away exactly the bit 6
-- where the positive switch is chosen and the bit 7 where the negative one is, and leaves every
-- other bit.
pub without_limits-digits :
    (L : Link) (lsp lsn : Bool) (v : ℕ)
    → v < 2 ^ 16
    → without_limits L lsp lsn v
      ≡ v - (if lsp then 64 * (v / 64 % 2) else 0) - (if lsn then 128 * (v / 128 % 2) else 0)
unfolding without_limits
without_limits-digits L true true v h =
    omega (arith, without_lsn (bit_and v (clear16 lsp_bit)), without_lsp v h)
without_limits-digits L true false v h = omega (arith, without_lsp v h)
without_limits-digits L false true v h = omega (arith, without_lsn v h)
without_limits-digits L false false v h = omega arith
