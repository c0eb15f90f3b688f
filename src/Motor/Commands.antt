-- ===== src/Motor/Commands.antt =====
-- The commands of the motor record: configure, move, moveVelocity, stop, setPosition and
-- setClosedLoop of TmlAxis. A target position is the number that the cast to `long` gives. The
-- parts between two takings of the lock follow each other without a poll in between.
pub mod Ready
use technosoft_tml_motor.Prelude.{
  ℕ, Bool, true, false, not, ◌&&◌, ◌||◌, Option, none, some, get_elem?, take, if◌then◌else◌,
  bytes_eq, codes,
}
use technosoft_tml_motor.Prelude.Int.{ℤ, pos}
use technosoft_tml_motor.Prelude.State.{State, ◌>>=◌, ◌>>◌, pure}
use technosoft_tml_motor.VarMap.{Name}
use technosoft_tml_motor.Motor.Calls.{Calls, mer}
use technosoft_tml_motor.Motor.Axis.{Axis, Params, Controller, Io, call, act, modify_axis, and_then}
use technosoft_tml_motor.Motor.Select.{bit_set, value_or_0, reinit_axis, select_axis}
use technosoft_tml_motor.Motor.Power.{power_on, power_off}
use technosoft_tml_motor.Motor.Decode.{homed_at_zero}
use technosoft_tml_motor.Api.Real.{Real}

-- The notes on an axis.
abbrev pub no_homing : Axis → Axis
no_homing a = record a { homing_active = false; stopping = false }

abbrev pub started : Axis → Axis
started a = record a { params = record (a.params) { is_done = false; is_moving = true } }

abbrev pub homing_started : Bool → Axis → Axis
homing_started forwards a = record a {
  homing_active = true;
  homing_move_seen = false;
  homing_toward_lsp = forwards;
  stopping = false;
  params = record (a.params) { is_done = false; is_moving = true; homed = false };
}

abbrev pub stopped : Axis → Axis
stopped a = record a {
  homing_active = false;
  stopping = true;
  params = record (a.params) { is_done = true; is_moving = false };
}

unfoldable pub configured_as : ℕ → Name → Name → Bool → Bool → ℤ → Axis → Axis
configured_as axis_id setup_file homing_switch ignore_lsp ignore_lsn scr_value a = record a {
  axis_id = axis_id;
  setup_file = take 511 setup_file;
  ignore_lsp = ignore_lsp;
  ignore_lsn = ignore_lsn;
  scr_value = scr_value;
  use_lsp = bytes_eq homing_switch (codes "LSP") || bytes_eq homing_switch (codes "lsp");
  configured = true;
}

abbrev pub configured_offline : Axis → Axis
configured_offline a = record a {
  activated = false;
  needs_reinit = true;
  countdown = 0;
  backoff = 1;
  params = record (a.params) {
    active = false;
    comms_error = true;
    fault_text = codes "Channel not connected";
  };
}

abbrev pub configured_online : Axis → Axis
configured_online a = record a {
  activated = true;
  needs_reinit = false;
  params = record (a.params) { active = true };
}

abbrev pub not_responding : Axis → Axis
not_responding a = record a {
  activated = false;
  needs_reinit = true;
  params = record (a.params) {
    active = false;
    fault_text = codes "Drive not responding — will retry";
  };
}

module _ (F : Real) (C : Calls F.R) where
  -- A command on the axis `i`: it needs to be configured.
  abbrev pub on_axis : (Axis → Io C Bool) → Option Axis → Io C Bool
  on_axis f none g = (false, g)
  on_axis f (some a) g = if a.configured then f a g else (false, g)

  unfoldable pub init_configured : ℕ → Axis → Option ℕ → Io C Bool
  unfolding reinit_axis
  init_configured i a none = modify_axis C i configured_offline >> pure true
  init_configured i a (some fd) = do
    call C (C.select_channel fd)
    ok ← reinit_axis C i a
    if ok
        then modify_axis C i configured_online >> pure true
        else modify_axis C i not_responding >> pure true

  unfoldable pub configure_of : ℕ → (Axis → Axis) → Option Axis → Io C Bool
  unfolding init_configured
  configure_of i set none g = (false, g)
  configure_of i set (some a) g = (do modify_axis C i set; init_configured i (set a) g.channel_fd) g

  -- `configAxis` and `configure`.
  unfoldable pub configure : ℕ → ℕ → Name → Name → Bool → Bool → ℤ → Io C Bool
  unfolding configure_of configured_as
  configure i axis_id setup_file homing_switch ignore_lsp ignore_lsn scr_value g =
      configure_of i
        (configured_as axis_id setup_file homing_switch ignore_lsp ignore_lsn scr_value)
        (get_elem? g.axes i) g

  -- What a motion command does before its move: select, power on, and disarm the limit events.
  unfoldable pub prepare : ℕ → Io C Bool
  unfolding select_axis power_on
  prepare i = and_then C (select_axis C i) (power_on C i)

  unfoldable pub started_move : ℕ → Bool → Io C Bool
  started_move i false = pure false
  started_move i true = do call C C.set_event_on_motion_complete; modify_axis C i started; pure true

  unfoldable pub run_move : ℕ → Bool → ℤ → F.R → F.R → Io C Bool
  unfolding started_move
  run_move i relative position velocity acceleration = do
    modify_axis C i no_homing
    act C C.clear_limit_switch_event
    ok ← call C (
        if relative
        then C.move_relative position velocity acceleration
        else C.move_absolute position velocity acceleration)
    started_move i ok

  unfoldable pub move : ℕ → Bool → ℤ → F.R → F.R → Io C Bool
  unfolding prepare run_move
  move i relative position velocity acceleration g =
      on_axis (λ a. and_then C (prepare i) (run_move i relative position velocity acceleration))
        (get_elem? g.axes i) g

  unfoldable pub run_jog : ℕ → F.R → F.R → Io C Bool
  run_jog i velocity acceleration = do
    modify_axis C i no_homing
    act C C.clear_limit_switch_event
    ok ← call C (C.move_velocity velocity acceleration)
    if ok then modify_axis C i started >> pure true else pure false

  unfoldable pub move_velocity : ℕ → F.R → F.R → Io C Bool
  unfolding prepare run_jog
  move_velocity i velocity acceleration g =
      on_axis (λ a. and_then C (prepare i) (run_jog i velocity acceleration)) (get_elem? g.axes i) g

  unfoldable pub clear_if : Bool → Io C (Unit {0})
  clear_if b = act C (λ s. if b then C.clear_limit_switch_event s else s)

  -- `stop`: the results of selectAxis and of TS_ABORT are not looked at.
  unfoldable pub stop : ℕ → Io C Bool
  unfolding select_axis clear_if
  stop i g =
      on_axis
        (λ a. do
          select_axis C i
          call C C.abort
          clear_if a.homing_active
          modify_axis C i stopped
          pure true)
        (get_elem? g.axes i) g

  unfoldable pub set_position : ℕ → ℤ → Io C Bool
  unfolding select_axis
  set_position i position g =
      on_axis (λ a. and_then C (select_axis C i) (call C (C.set_position position)))
        (get_elem? g.axes i) g

  unfoldable pub set_closed_loop : ℕ → Bool → Io C Bool
  unfolding power_on power_off
  set_closed_loop i closed g =
      on_axis (λ a. if closed then power_on C i else power_off C i) (get_elem? g.axes i) g
