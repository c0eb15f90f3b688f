-- ===== src/Api/Motion.antt =====
-- The motion commands of the TS_* interface.
pub mod Order
use technosoft_tml_motor.Prelude.{ℕ, Bool, true, false, if◌then◌else◌, codes}
use technosoft_tml_motor.Prelude.Int.{ℤ, to_word32}
use technosoft_tml_motor.VarMap.{Name}
use technosoft_tml_motor.Link.{Link}
use technosoft_tml_motor.Drive.{
  Chan, Ident, send_command, send_mcr_config, write_data32, read_data16,
}
use technosoft_tml_motor.Drive.Opcodes.{
  McrChange, cpa, cpr, mode_pp3, mode_sp1, tum1, op_upd, op_upd_imm,
}
use technosoft_tml_motor.Api.Act.{Act, Outcome, must, may, return, ident, ◌>>=◌, ◌>>◌, resolve_addr}
use technosoft_tml_motor.Api.Real.{Real, to_fixed}

-- `MoveMoment`: UPDATE_IMMEDIATE, UPDATE_ON_EVENT, or any other value (UPDATE_NONE).
pub data Moment : Type 0 where
  immediate on_event none_now : Moment

-- `ReferenceBase`: FROM_REFERENCE, or any other value (FROM_MEASURE).
pub data Base : Type 0 where
  from_reference from_measure : Base

module _ (L : Link) where
  -- `writeData32(resolveAddr(name, fallback), v)`.
  unfoldable pub write_named : Name → ℕ → ℕ → Act L (Unit {0})
  write_named name fallback v = do
    i ← ident L
    must L (write_data32 L (resolve_addr name fallback i) v)

  -- A diagnostic read, whose result is only logged.
  unfoldable pub look_at : Name → ℕ → Act L (Unit {0})
  look_at name fallback = do i ← ident L; may L (read_data16 L (resolve_addr name fallback i))

  unfoldable pub configure_mcr : McrChange → Act L (Unit {0})
  configure_mcr change = must L (send_mcr_config L change)

  unfoldable pub update : Moment → Act L (Unit {0})
  update immediate = must L (send_command L op_upd_imm)
  update on_event = must L (send_command L op_upd)
  update none_now = return L tt

  unfoldable pub set_base : Base → Act L (Unit {0})
  unfolding configure_mcr
  set_base from_reference = configure_mcr tum1
  set_base from_measure = return L tt

  module _ (F : Real) where
    -- Acceleration and speed are written as magnitudes, and not at all when they are zero.
    unfoldable pub write_magnitude : Name → ℕ → F.R → Act L (Unit {0})
    unfolding write_named
    write_magnitude name fallback x =
        if F.is_zero x then return L tt else write_named name fallback (to_fixed F (F.fabs x))

    unfoldable pub move_absolute : ℤ → F.R → F.R → Moment → Base → Act L (Unit {0})
    unfolding write_magnitude write_named configure_mcr set_base look_at update
    move_absolute position speed acceleration moment base = do
      write_magnitude (codes "CACC") 0x0232 acceleration
      write_magnitude (codes "CSPD") 0x0230 speed
      write_named (codes "CPOS") 0x022E (to_word32 position)
      configure_mcr cpa
      configure_mcr mode_pp3
      set_base base
      look_at (codes "MER") 0x0910
      look_at (codes "MER_MASK") 0x0914
      update moment
      look_at (codes "SRL") 0x090E
      look_at (codes "MER") 0x0910

    -- `IsAdditive` is only logged.
    unfoldable pub move_relative : ℤ → F.R → F.R → Moment → Base → Act L (Unit {0})
    unfolding write_magnitude write_named configure_mcr set_base update
    move_relative position speed acceleration moment base = do
      write_magnitude (codes "CACC") 0x0232 acceleration
      write_magnitude (codes "CSPD") 0x0230 speed
      write_named (codes "CPOS") 0x022E (to_word32 position)
      configure_mcr cpr
      configure_mcr mode_pp3
      set_base base
      update moment

    -- The sign of the speed is the direction; `ReferenceBase` is not used.
    unfoldable pub move_velocity : F.R → F.R → Moment → Act L (Unit {0})
    unfolding write_magnitude write_named configure_mcr update
    move_velocity speed acceleration moment = do
      write_magnitude (codes "CACC") 0x0232 acceleration
      write_named (codes "CSPD") 0x0230 (to_fixed F speed)
      configure_mcr mode_sp1
      update moment
