-- ===== src/Tests/Motors.antt =====
-- Runs of the motor driver's properties, over the library on the line of `Sim`.
use technosoft_tml_motor.Prelude.{
  ◌^◌, true, false, none, some, [], ◌∷◌, All, ◌≡◌, refl, if◌then◌else◌, ltb, codes, arith,
  get_elem?,
}
use technosoft_tml_motor.Prelude.Int.{pos}
use technosoft_tml_motor.Api.Table.{opened, initial, open_channel}
use technosoft_tml_motor.Motor.Calls.{Calls}
use technosoft_tml_motor.Motor.Axis.{Axis, Params, Controller}
use technosoft_tml_motor.Motor.Select.Ready.{Ready}
use technosoft_tml_motor.Motor.Poll.Reports.{Polls}
use technosoft_tml_motor.Motor.Poll.Homing.{poll-Polls}
use technosoft_tml_motor.Motor.Poll.Backoff
use technosoft_tml_motor.Motor.Poll.Backoff.{fails, countdown-fails, Waiting, polls-Waiting}
use technosoft_tml_motor.Motor.Commands.{configure, configured_as, not_responding, stop}
use technosoft_tml_motor.Motor.Poll.{poll, reinit_failed}
use technosoft_tml_motor.Motor.Runs.{Run, start, next, polls, configures, stops}
use technosoft_tml_motor.Motor.Lifecycle.{new_axis, new_controller}
use technosoft_tml_motor.Motor.Recovery.{Run-Ready_new, Tries, Run-Tries}
use technosoft_tml_motor.Motor.Status.{set_conn_status, publish}
use technosoft_tml_motor.Motor.Status.Published.{Agrees, Publishes, set_conn_status-Publishes}
use technosoft_tml_motor.Motor.Library.{library}
use technosoft_tml_motor.Motor.Ownership.Tables.{Holds, Run-Holds}
use technosoft_tml_motor.Tests.Sim.{Fixed, link, channel, fixed}

abbrev lib : Calls Fixed
lib =
    library link fixed (λ g. 60000) (λ ms g. g) (λ g. opened 3 (channel [])) (λ path m. m) (λ e. [])

abbrev params : Params
params = record {
  position = pos 0;
  encoder = pos 0;
  reg_srh = 0;
  reg_srl = 0;
  reg_mer = 0;
  is_done = true;
  is_moving = false;
  high_limit = false;
  low_limit = false;
  power_on = false;
  problem = false;
  comms_error = false;
  following_error = false;
  direction = true;
  at_home = false;
  homed = false;
  active = false;
  power_on_failed = false;
  fault_text = codes "Not initialized";
  conn_ok = none;
  conn_msg = [];
  slow = record {
    reg_mcr = 0;
    reg_msr = 0;
    reg_isr = 0;
    cspd = pos 0;
    potm = pos 0;
    enable_off = pos 0;
    pcr = pos 0;
  };
}

abbrev axis : Axis
axis = record {
  axis_id = 0;
  setup_file = [];
  setup_idx = none;
  configured = false;
  activated = false;
  powered = false;
  homing_active = false;
  homing_move_seen = false;
  homing_toward_lsp = false;
  stopping = false;
  use_lsp = false;
  ignore_lsp = false;
  ignore_lsn = false;
  scr_value = pos 0;
  needs_reinit = false;
  countdown = 0;
  backoff = 1;
  poll_count = 0;
  params = params;
}

-- Two axes, not configured yet, on a channel that is just opened.
abbrev fresh : Controller lib
fresh = new_controller fixed lib 2 params (initial link)

-- The library where a setup file cannot be loaded.
abbrev deaf : Calls Fixed
deaf = record lib { load_setup = λ path g. (none, g) }

abbrev deaf_fresh : Controller deaf
deaf_fresh = new_controller fixed deaf 2 params (initial link)

abbrev with_axis : Controller deaf
with_axis =
    (configure fixed deaf 1 2 (codes "a.t.zip") (codes "LSP") false false (pos 0) deaf_fresh).1

one_configured : Run fixed deaf deaf_fresh with_axis
one_configured =
    next (start deaf_fresh)
      (configures 1 2 (codes "a.t.zip") (codes "LSP") false false (pos 0) deaf_fresh)

Run-Ready_new_example : All Ready (stop fixed deaf 1 with_axis).1.axes
Run-Ready_new_example =
    Run-Ready_new fixed deaf 2 params (initial link) (stop fixed deaf 1 with_axis).1
      (next one_configured (stops 1 with_axis))

-- The first poll behind it fails again.
abbrev polled : Controller deaf
polled = (poll deaf 1 with_axis).1

abbrev not_set_up : Axis
not_set_up = reinit_failed (
    not_responding (
      configured_as 2 (codes "a.t.zip") (codes "LSP") false false (pos 0)
        (publish true [] (new_axis params))))

is_not_set_up : get_elem? polled.axes 1 ≡ some not_set_up
unfolding configure poll new_controller open_channel set_conn_status
is_not_set_up = refl

still_open : polled.channel_fd ≡ some 3
unfolding configure poll new_controller open_channel set_conn_status
still_open = refl

configured_axis : not_set_up.configured ≡ true
unfolding configured_as reinit_failed
configured_axis = refl

to_be_set_up : not_set_up.needs_reinit ≡ true
unfolding configured_as reinit_failed
to_be_set_up = refl

Run-Tries_example : Tries fixed deaf 1 30 polled
Run-Tries_example =
    Run-Tries fixed deaf 2 params (initial link) polled 1 not_set_up 3
      (next one_configured (polls 1 with_axis)) is_not_set_up still_open configured_axis
      to_be_set_up

fresh-Agrees : Agrees fresh.conn_ok [] fresh.axes
unfolding new_controller open_channel set_conn_status
fresh-Agrees = (((refl, refl), ((refl, refl), tt)), omega arith)

set_conn_status-Publishes_example :
    let g' = (set_conn_status lib false (codes "no reply") fresh).1 in
    (g'.conn_ok ≡ some false) × All (Publishes false (codes "no reply")) g'.axes
set_conn_status-Publishes_example =
    set_conn_status-Publishes lib false [] (codes "no reply") fresh fresh-Agrees

-- A library that answers every read, with a complete motion at the positive switch.
abbrev answering : Calls Fixed
answering = record lib {
  select_channel = λ fd g. (true, g);
  select_axis = λ n g. (true, g);
  get_long_variable = λ name g. (some (pos 7), g);
  read_status = λ reg g. (some 0x8440, g);
}

-- An axis that homes towards that switch, with a stop pending.
abbrev homing : Axis
homing = record axis {
  configured = true;
  homing_active = true;
  homing_toward_lsp = true;
  stopping = true;
}

abbrev at_switch : Controller answering
at_switch = record (new_controller fixed answering 2 params (initial link)) {
  channel_fd = some 3;
  axes = axis ∷ homing ∷ [];
}

poll-Polls_example : Polls answering 1 homing (poll answering 1 at_switch)
poll-Polls_example = poll-Polls answering 1 homing at_switch refl

countdown-fails_example : (fails 7 axis).countdown ≡ (if ltb 6 5 then 2 ^ 6 else 30)
countdown-fails_example = countdown-fails 6 axis refl

abbrev waiting_axis : Axis
waiting_axis = record axis { configured = true; needs_reinit = true; countdown = 4 }

abbrev waiting : Controller lib
waiting = record fresh { channel_fd = some 3; axes = axis ∷ waiting_axis ∷ [] }

waiting-holds : Waiting lib 1 4 waiting
waiting-holds = record {
  axis = waiting_axis;
  fd = 3;
  here = refl;
  channel = refl;
  in_use = refl;
  to_do = refl;
  left = refl;
}

polls-Waiting_example :
    ((Backoff.polls lib 4 1 waiting).lib ≡ waiting.lib)
    × Waiting lib 1 0 (Backoff.polls lib 4 1 waiting)
polls-Waiting_example = polls-Waiting lib 1 4 waiting waiting-holds

Run-Holds_example :
    Holds link (stop fixed lib 1 fresh).1.channel_fd (stop fixed lib 1 fresh).1.lib.channels
Run-Holds_example =
    Run-Holds link fixed (λ g. 60000) (λ ms g. g) (λ g. opened 3 (channel [])) (λ path m. m)
      (λ e. []) (λ ms g. refl) 2 params (stop fixed lib 1 fresh).1
      (next (start fresh) (stops 1 fresh))
