-- ===== src/Api/Events.antt =====
-- The event masks: read, change bits, write back.
pub mod Order
pub mod Bits
use technosoft_tml_motor.Prelude.{
  ℕ, ◌*◌, ◌+◌, ◌-◌, ◌/◌, ◌%◌, ◌^◌, Bool, true, false, not, ◌||◌, ◌==◌, if◌then◌else◌, codes,
  bit_and, bit_or,
}
use technosoft_tml_motor.Prelude.State.{State}
use technosoft_tml_motor.VarMap.{Name}
use technosoft_tml_motor.Link.{Link}
use technosoft_tml_motor.Drive.{Chan, Ident, write_data16, read_data16}
use technosoft_tml_motor.Api.Act.{
  Act, Outcome, done, must, may, read_or, return, ident, ◌>>=◌, ◌>>◌, resolve_addr,
}

-- `~(WORD)m` cut to a WORD.
abbrev pub clear16 : ℕ → ℕ
clear16 m = 2 ^ 16 - 1 - m

abbrev pub lsp_bit : ℕ
lsp_bit = 2 ^ 6

abbrev pub lsn_bit : ℕ
lsn_bit = 2 ^ 7

abbrev pub motion_complete_bit : ℕ
motion_complete_bit = 2 ^ 10

module _ (L : Link) where
  abbrev pub mer_mask_addr : Ident → ℕ
  mer_mask_addr i = resolve_addr (codes "MER_MASK") 0x0914 i

  abbrev pub mer_addr : Ident → ℕ
  mer_addr i = resolve_addr (codes "MER") 0x0910 i

  -- The arguments of TS_SetEventOnMotionComplete are only logged.
  unfoldable pub set_event_on_motion_complete : Act L (Unit {0})
  set_event_on_motion_complete = do
    i ← ident L
    let addr = resolve_addr (codes "SRL_MASK") 0x0912 i
    mask ← read_or L 0 (read_data16 L addr)
    must L (write_data16 L addr (bit_or mask motion_complete_bit))

  -- `positive` is `LSWType == LSW_POSITIVE`; the other arguments are only logged.
  unfoldable pub set_event_on_limit_switch : Bool → Act L (Unit {0})
  set_event_on_limit_switch positive = do
    i ← ident L
    mask ← read_or L 0 (read_data16 L (mer_mask_addr i))
    must L (write_data16 L (mer_mask_addr i) (bit_or mask (if positive then lsp_bit else lsn_bit)))

  -- A write that is made only when it changes the register, and whose result is not looked at.
  unfoldable pub write_if_changed : ℕ → ℕ → ℕ → Act L (Unit {0})
  write_if_changed addr old new =
      if new == old then return L tt else may L (write_data16 L addr new)

  unfoldable pub clear_limit_switch_event : Act L (Unit {0})
  unfolding write_if_changed
  clear_limit_switch_event = do
    i ← ident L
    mask ← read_or L 0 (read_data16 L (mer_mask_addr i))
    write_if_changed (mer_mask_addr i) mask (bit_and mask (clear16 (lsp_bit + lsn_bit)))
    mer ← read_or L 0 (read_data16 L (mer_addr i))
    write_if_changed (mer_addr i) mer (bit_and mer (clear16 (lsp_bit + lsn_bit)))

  -- The two conditional `&=`, the positive switch first.
  unfoldable pub without_limits : Bool → Bool → ℕ → ℕ
  without_limits lsp lsn v =
      let v₁ = if lsp then bit_and v (clear16 lsp_bit) else v in
      if lsn then bit_and v₁ (clear16 lsn_bit) else v₁

  unfoldable pub disable_limit_protection : Bool → Bool → Act L (Unit {0})
  unfolding write_if_changed without_limits
  disable_limit_protection lsp lsn = do
    i ← ident L
    mask ← read_or L 0 (read_data16 L (mer_mask_addr i))
    must L (write_data16 L (mer_mask_addr i) (without_limits lsp lsn mask))
    mer ← read_or L 0 (read_data16 L (mer_addr i))
    if mer == 0 then return L tt else write_if_changed (mer_addr i) mer (without_limits lsp lsn mer)
