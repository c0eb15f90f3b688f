-- ===== src/Motor/Lifecycle.antt =====
-- The constructors and destructors of TmlController and TmlAxis, `configAxis` and `TmlAxisConfig`,
-- and how the device path is passed on.
use technosoft_tml_motor.Prelude.{
  ℕ, zero, suc, Bool, true, false, Option, none, some, [], if◌then◌else◌, take, replicate, codes,
}
use technosoft_tml_motor.Prelude.Int.{ℤ, pos, negsuc}
use technosoft_tml_motor.Prelude.State.{◌>>=◌, ◌>>◌, pure}
use technosoft_tml_motor.VarMap.{Name}
use technosoft_tml_motor.Channel.Address.{has_byte}
use technosoft_tml_motor.Channel.Open.{channel_xport_ip}
use technosoft_tml_motor.Motor.Calls.{Calls}
use technosoft_tml_motor.Motor.Axis.{Axis, Params, Controller, Io, call, act}
use technosoft_tml_motor.Motor.Status.{set_conn_status}
use technosoft_tml_motor.Motor.Commands.{configure}
use technosoft_tml_motor.Api.Real.{Real}

abbrev pub channel_rs232 : ℕ
channel_rs232 = 0

-- `tmlChannelType`: a path with no `/` is an address.
unfoldable pub channel_type : Name → ℕ
unfolding has_byte
channel_type path = if has_byte b'/' path then channel_rs232 else channel_xport_ip

-- `devicePath_` and `tmlDevName`, with buffers of 256 bytes.
abbrev pub dev_name : Name → Name
dev_name path = take 255 path

-- `baudRate > 0 ? baudRate : 9600`.
abbrev pub baud_or_default : ℤ → ℕ
baud_or_default (pos zero) = 9600
baud_or_default (pos (suc n)) = suc n
baud_or_default (negsuc n) = 9600

-- The constructor of TmlAxis; `p` is what the parameters were before.
unfoldable pub new_axis : Params → Axis
new_axis p = record {
  axis_id = 0;
  setup_file = [];
  setup_idx = none;
  configured = false;
  activated = false;
  powered = false;
  homing_active = false;
  homing_move_seen = false;
  homing_toward_lsp = false;
  stopping = false;
  use_lsp = false;
  ignore_lsp = false;
  ignore_lsn = false;
  scr_value = pos 0;
  needs_reinit = false;
  countdown = 0;
  backoff = 1;
  poll_count = 0;
  params = record p { active = false; fault_text = codes "Not initialized" };
}

module _ (F : Real) (C : Calls F.R) where
  abbrev pub unconnected : ℕ → Params → C.St → Controller C
  unconnected count p s = record {
    channel_fd = none;
    last_reconnect = 0;
    conn_ok = none;
    axes = replicate count (new_axis p);
    lib = s;
  }

  unfoldable pub connected_as : Option ℕ → Io C Bool
  connected_as none g =
      (set_conn_status C false (C.error_text g.lib) >> pure false)
        (record g { channel_fd = none; last_reconnect = C.now g.lib })
  connected_as (some fd) g =
      (set_conn_status C true [] >> pure true)
        (record g { channel_fd = some fd; last_reconnect = C.now g.lib })

  -- The constructor of TmlController. The axes, which it makes at its end, are made first here: their
  -- constructors set other parameters than `setConnStatus`.
  unfoldable pub new_controller : ℕ → Params → C.St → Controller C
  unfolding connected_as new_axis
  new_controller count p s =
      ((do fd ← call C C.open_channel; connected_as fd) (unconnected count p s)).1

  -- The destructors. An axis in use is switched off, whatever comes of it.
  unfoldable pub release_axis : Axis → Option ℕ → Io C (Unit {0})
  release_axis a none g = (tt, g)
  release_axis a (some fd) g =
      if a.configured
      then (do
        call C (C.select_channel fd)
        call C (C.select_axis a.axis_id)
        call C (C.power false)
        pure tt)
          g
      else (tt, g)

  unfoldable pub release_controller : Option ℕ → Io C (Unit {0})
  release_controller none g = (tt, g)
  release_controller (some fd) g = act C (C.close_channel fd) g

  -- `configAxis`: a number below 0 or beyond the axes is refused.
  unfoldable pub config_axis : ℤ → ℕ → Name → Name → Bool → Bool → ℤ → Io C Bool
  unfolding configure
  config_axis (negsuc n) axis_id setup_file homing_switch ignore_lsp ignore_lsn scr_value =
      pure false
  config_axis (pos i) axis_id setup_file homing_switch ignore_lsp ignore_lsn scr_value =
      configure F C i axis_id setup_file homing_switch ignore_lsp ignore_lsn scr_value

  -- `TmlAxisConfig` on the port that `findAsynPortDriver` gives.
  unfoldable pub axis_config :
      Option (Controller C) → ℤ → ℕ → Name → Name → Bool → Bool → ℤ → Option (Bool × Controller C)
  unfolding config_axis
  axis_config none i axis_id setup_file homing_switch ignore_lsp ignore_lsn scr_value = none
  axis_config (some g) i axis_id setup_file homing_switch ignore_lsp ignore_lsn scr_value =
      some (config_axis i axis_id setup_file homing_switch ignore_lsp ignore_lsn scr_value g)
