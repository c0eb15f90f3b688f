-- ===== src/Motor/Library.antt =====
-- The TS_* functions of `Api` and `Table` as the calls that the motor driver makes. The clock, the
-- sleep, what `TmlChannel::open` gives, what `loadFromZip` reads and the texts of the errors are
-- arguments.
use technosoft_tml_motor.Prelude.{ℕ, Bool, true, false, Option, none, some}
use technosoft_tml_motor.Prelude.Int.{ℤ, pos}
use technosoft_tml_motor.Prelude.State.{State}
use technosoft_tml_motor.VarMap.{Name, VarMap}
use technosoft_tml_motor.Link.{Link}
use technosoft_tml_motor.Drive.{Chan}
use technosoft_tml_motor.Api.Act.{Act, Fn, ApiError}
use technosoft_tml_motor.Api.Real.{Real}
use technosoft_tml_motor.Api.Commands
use technosoft_tml_motor.Api.Variables.{
  get_long_variable, get_int_variable, set_int_variable, set_long_variable,
}
use technosoft_tml_motor.Api.Motion.{
  move_absolute, move_relative, move_velocity, immediate, from_reference,
}
use technosoft_tml_motor.Api.Events.{
  set_event_on_motion_complete, set_event_on_limit_switch, clear_limit_switch_event,
  disable_limit_protection,
}
use technosoft_tml_motor.Api.Table.{
  Globals, Opened, call, open_channel, close_channel, select_channel, load_setup, setup_axis,
  select_axis,
}
use technosoft_tml_motor.Motor.Calls.{Calls, Register, mcr, msr, isr, srl, srh, mer}

-- REG_MCR to REG_MER.
abbrev register_index : Register → ℤ
register_index mcr = pos 0
register_index msr = pos 1
register_index isr = pos 2
register_index srl = pos 3
register_index srh = pos 4
register_index mer = pos 5

abbrev succeeds : {A : Type 0} → Option A → Bool
succeeds none = false
succeeds (some a) = true

module _ (L : Link) (F : Real) (now : Globals L → ℕ) (sleep : ℕ → Globals L → Globals L)
    (open_result : Globals L → Opened (Chan L)) (load : Name → VarMap → VarMap)
    (text : ApiError → Name) where
  -- A BOOL result.
  abbrev run : {A : Type 0} → Fn → Act L A → State (Globals L) Bool
  run fn act g = let (o, g') = call L fn act g in (succeeds o, g')

  abbrev pub library : Calls F.R
  library = record {
    St = Globals L;
    now = now;
    sleep = sleep;
    open_channel = λ g. open_channel L (open_result g) g;
    error_text = λ g. text g.error;
    close_channel = λ fd g. close_channel L (pos fd) g;
    select_channel = λ fd g. select_channel L (pos fd) g;
    load_setup = λ path g. load_setup L load path g;
    setup_axis = λ axis idx g. let (o, g') = setup_axis L axis (pos idx) g in (succeeds o, g');
    select_axis = λ axis. run Fn.select_axis (select_axis L axis);
    drive_initialisation = run Fn.drive_initialisation (Commands.drive_initialisation L);
    power = λ on. run Fn.power (Commands.power L on);
    read_status = λ reg. call L Fn.read_status (Commands.read_status L (register_index reg));
    get_long_variable = λ name. call L Fn.get_long (get_long_variable L name);
    get_int_variable = λ name. call L Fn.get_int (get_int_variable L name);
    set_int_variable = λ name z. run Fn.set_int (set_int_variable L name z);
    set_long_variable = λ name z. run Fn.set_long (set_long_variable L name z);
    set_position = λ z. run Fn.set_position (Commands.set_position L z);
    disable_limit_protection =
        λ lsp lsn. run Fn.disable_limit_protection (disable_limit_protection L lsp lsn);
    clear_limit_switch_event =
        λ g. (call L Fn.clear_limit_switch_event (clear_limit_switch_event L) g).1;
    move_absolute =
        λ p v a. run Fn.move_absolute (move_absolute L F p v a immediate from_reference);
    move_relative =
        λ p v a. run Fn.move_relative (move_relative L F p v a immediate from_reference);
    move_velocity = λ v a. run Fn.move_velocity (move_velocity L F v a immediate);
    set_event_on_motion_complete =
        run Fn.set_event_on_motion_complete (set_event_on_motion_complete L);
    set_event_on_limit_switch =
        λ positive. run Fn.set_event_on_limit_switch (set_event_on_limit_switch L positive);
    abort = run Fn.abort (Commands.abort L);
    reset_fault = run Fn.reset_fault (Commands.reset_fault L);
    save = run Fn.save (Commands.save L);
    reset = run Fn.reset (Commands.reset L);
  }
