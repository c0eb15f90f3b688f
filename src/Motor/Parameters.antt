-- ===== src/Motor/Parameters.antt =====
-- The command parameters of `TmlController::writeInt32`, for a value that is not 0 and an axis that
-- the controller has; any other write goes on to asynMotorController.
use technosoft_tml_motor.Prelude.{ℕ, Bool, true, false, if◌then◌else◌, if_cases, codes}
use technosoft_tml_motor.Prelude.Int.{pos}
use technosoft_tml_motor.Prelude.State.{State, ◌>>=◌, ◌>>◌, pure}
use technosoft_tml_motor.Motor.Calls.{Calls}
use technosoft_tml_motor.Motor.Axis.{Axis, Io, call, modify_axis, and_then}
use technosoft_tml_motor.Motor.Select.{select_axis}
use technosoft_tml_motor.Motor.Select.Ready.{Ready, All-update_at, Readies, and_then-Readies}
use technosoft_tml_motor.Motor.Select.SelectReady.{select_axis-Ready}
use technosoft_tml_motor.Motor.Homing.{force_home}
use technosoft_tml_motor.Motor.Commands.Ready.{force_home-Readies}
use technosoft_tml_motor.Api.Real.{Real}

pub data Command : Type 0 where
  reset_fault save_eeprom reset_drive home_by_force clear_encoder clear_steps : Command

abbrev pub fault_reset : Axis → Axis
fault_reset a = record a { params = record (a.params) { power_on_failed = false } }

abbrev pub encoder_cleared : Axis → Axis
encoder_cleared a = record a { params = record (a.params) { encoder = pos 0 } }

abbrev pub steps_cleared : Axis → Axis
steps_cleared a = record a { params = record (a.params) { position = pos 0 } }

module _ (F : Real) (C : Calls F.R) where
  -- `if (selectAxis() == asynSuccess) f();`, the result not looked at.
  unfoldable pub when_selected : ℕ → State C.St Bool → Io C Bool
  unfolding select_axis
  when_selected i f = do ok ← and_then C (select_axis C i) (call C f); pure true

  unfoldable pub clear_counter : ℕ → Bool → Io C Bool
  unfolding select_axis
  clear_counter i encoder = and_then C (select_axis C i) (
      and_then C
        (call C (C.set_long_variable (if encoder then codes "APOS" else codes "TPOS") (pos 0)))
        (λ g.
          (modify_axis C i (if encoder then encoder_cleared else steps_cleared) >> pure true) g))

  -- `one`, `forty`, `velo` and `accl` are those of forceHome.
  unfoldable pub write_int32 : Command → ℕ → F.R → F.R → F.R → F.R → Io C Bool
  unfolding when_selected clear_counter
  write_int32 reset_fault i one forty velo accl = do
    when_selected i C.reset_fault
    modify_axis C i fault_reset
    pure true
  write_int32 save_eeprom i one forty velo accl = when_selected i C.save
  write_int32 reset_drive i one forty velo accl = when_selected i C.reset
  write_int32 home_by_force i one forty velo accl = force_home F C i one forty velo accl
  write_int32 clear_encoder i one forty velo accl = clear_counter i true
  write_int32 clear_steps i one forty velo accl = clear_counter i false

  when_selected-Readies : (i : ℕ) (f : State C.St Bool) → Readies C (when_selected i f)
  unfolding when_selected
  when_selected-Readies i f g h =
      and_then-Readies C (select_axis C i) (call C f) (select_axis-Ready C i) (λ g h. h) g h

  clear_counter-Readies : (i : ℕ) (encoder : Bool) → Readies C (clear_counter i encoder)
  unfolding clear_counter
  clear_counter-Readies i encoder g h =
      let write : Io C Bool =
        call C (C.set_long_variable (if encoder then codes "APOS" else codes "TPOS") (pos 0)) in
      let note : Io C Bool = λ g.
        (modify_axis C i (if encoder then encoder_cleared else steps_cleared) >> pure true) g in
      and_then-Readies C (select_axis C i) (and_then C write note) (select_axis-Ready C i)
        (and_then-Readies C write note (λ g h. h)
          (λ g h.
            All-update_at Ready (if encoder then encoder_cleared else steps_cleared) g.axes i
              (λ x q.
                if_cases (λ (f : Axis → Axis). Ready (f x)) encoder encoder_cleared steps_cleared
                  (λ _. q) (λ _. q))
              h))
        g h

  pub write_int32-Readies :
      (command : Command) (i : ℕ) (one forty velo accl : F.R)
      → Readies C (write_int32 command i one forty velo accl)
  unfolding write_int32
  write_int32-Readies reset_fault i one forty velo accl g h =
      All-update_at Ready fault_reset (when_selected i C.reset_fault g).1.axes i (λ x q. q)
        (when_selected-Readies i C.reset_fault g h)
  write_int32-Readies save_eeprom i one forty velo accl g h = when_selected-Readies i C.save g h
  write_int32-Readies reset_drive i one forty velo accl g h = when_selected-Readies i C.reset g h
  write_int32-Readies home_by_force i one forty velo accl g h =
      force_home-Readies F C i one forty velo accl g h
  write_int32-Readies clear_encoder i one forty velo accl g h = clear_counter-Readies i true g h
  write_int32-Readies clear_steps i one forty velo accl g h = clear_counter-Readies i false g h
