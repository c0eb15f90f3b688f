-- ===== src/Motor/Calls.antt =====
-- The TS_* calls as the motor driver uses them, with the clock and the sleep of EPICS. A result is
-- `false` or `none` where the C function returns FALSE or a negative number. `Table` has the calls.
use technosoft_tml_motor.Prelude.{ℕ, Bool, Option}
use technosoft_tml_motor.Prelude.Int.{ℤ}
use technosoft_tml_motor.Prelude.State.{State}
use technosoft_tml_motor.VarMap.{Name}

-- The registers that the driver reads, by the index that it passes to TS_ReadStatus.
pub data Register : Type 0 where
  mcr msr isr srl srh mer : Register

-- `R` is C's double.
pub record Calls (R : Type 0) : Type 1 where
  pub St : Type 0
  -- `epicsTimeGetCurrent`, in milliseconds since the EPICS epoch, and `epicsThreadSleep`.
  pub now : St → ℕ
  pub sleep : ℕ → St → St
  pub open_channel : State St (Option ℕ)
  -- TS_GetLastErrorText.
  pub error_text : St → Name
  pub close_channel : ℕ → St → St
  pub select_channel : ℕ → State St Bool
  pub load_setup : Name → State St (Option ℕ)
  pub setup_axis : ℕ → ℕ → State St Bool
  pub select_axis : ℕ → State St Bool
  pub drive_initialisation : State St Bool
  pub power : Bool → State St Bool
  pub read_status : Register → State St (Option ℕ)
  pub get_long_variable : Name → State St (Option ℤ)
  pub get_int_variable : Name → State St (Option ℤ)
  pub set_int_variable : Name → ℤ → State St Bool
  pub set_long_variable : Name → ℤ → State St Bool
  pub set_position : ℤ → State St Bool
  pub disable_limit_protection : Bool → Bool → State St Bool
  pub clear_limit_switch_event : St → St
  pub move_absolute : ℤ → R → R → State St Bool
  pub move_relative : ℤ → R → R → State St Bool
  pub move_velocity : R → R → State St Bool
  pub set_event_on_motion_complete : State St Bool
  pub set_event_on_limit_switch : Bool → State St Bool
  pub abort : State St Bool
  pub reset_fault : State St Bool
  pub save : State St Bool
  pub reset : State St Bool
