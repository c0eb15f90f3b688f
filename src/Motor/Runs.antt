-- ===== src/Motor/Runs.antt =====
-- Sequences of commands and polls of the driver.
use technosoft_tml_motor.Prelude.{ℕ, Bool, All, get_elem?, refl}
use technosoft_tml_motor.Prelude.Int.{ℤ}
use technosoft_tml_motor.VarMap.{Name}
use technosoft_tml_motor.Motor.Calls.{Calls}
use technosoft_tml_motor.Motor.Axis.{Controller}
use technosoft_tml_motor.Motor.Select.Ready.{Ready}
use technosoft_tml_motor.Motor.Select.SelectReady.{ensure_channel-Ready}
use technosoft_tml_motor.Motor.Poll.{poll, poll_controller}
use technosoft_tml_motor.Motor.Poll.Ready.{poll-Ready}
use technosoft_tml_motor.Motor.Commands.{
  configured_as, configure, move, move_velocity, stop, set_position, set_closed_loop,
}
use technosoft_tml_motor.Motor.Homing.{home}
use technosoft_tml_motor.Motor.Commands.Ready.{
  configure_of-Readies, move-Readies, move_velocity-Readies, home-Readies, stop-Readies,
  set_position-Readies, set_closed_loop-Readies,
}
use technosoft_tml_motor.Motor.Parameters.{Command, write_int32, write_int32-Readies}
use technosoft_tml_motor.Api.Real.{Real}

module _ (F : Real) (C : Calls F.R) where
  -- One step of the driver: a poll of the controller or of an axis, or a command.
  pub data Step : Controller C → Controller C → Type 0 where
    ensures : (g : Controller C) → Step g (poll_controller C g).1
    polls : (i : ℕ) (g : Controller C) → Step g (poll C i g).1
    configures :
        (i axis_id : ℕ) (setup_file homing_switch : Name) (ignore_lsp ignore_lsn : Bool)
        (scr_value : ℤ) (g : Controller C)
        → Step g
            (configure F C i axis_id setup_file homing_switch ignore_lsp ignore_lsn scr_value g).1
    moves :
        (i : ℕ) (relative : Bool) (position : ℤ) (velocity acceleration : F.R) (g : Controller C)
        → Step g (move F C i relative position velocity acceleration g).1
    jogs :
        (i : ℕ) (velocity acceleration : F.R) (g : Controller C)
        → Step g (move_velocity F C i velocity acceleration g).1
    homes :
        (i : ℕ) (one velo velocity acceleration : F.R) (forwards : Bool) (g : Controller C)
        → Step g (home F C i one velo velocity acceleration forwards g).1
    writes :
        (command : Command) (i : ℕ) (one forty velo accl : F.R) (g : Controller C)
        → Step g (write_int32 F C command i one forty velo accl g).1
    stops : (i : ℕ) (g : Controller C) → Step g (stop F C i g).1
    sets : (i : ℕ) (position : ℤ) (g : Controller C) → Step g (set_position F C i position g).1
    closes : (i : ℕ) (closed : Bool) (g : Controller C) → Step g (set_closed_loop F C i closed g).1

  pub data Run : Controller C → Controller C → Type 0 where
    start : (g : Controller C) → Run g g
    next : {g h k : Controller C} → Run g h → Step h k → Run g k

  Step-Ready : {g h : Controller C} → Step g h → All Ready g.axes → All Ready h.axes
  unfolding configure
  Step-Ready (ensures g) r = ensure_channel-Ready C g r
  Step-Ready (polls i g) r = poll-Ready C i g r
  Step-Ready (configures i axis_id setup_file homing_switch ignore_lsp ignore_lsn scr_value g) r =
      configure_of-Readies F C i
        (configured_as axis_id setup_file homing_switch ignore_lsp ignore_lsn scr_value)
        (get_elem? g.axes i) g (λ x p. p) refl r
  Step-Ready (moves i relative position velocity acceleration g) r =
      move-Readies F C i relative position velocity acceleration g r
  Step-Ready (jogs i velocity acceleration g) r =
      move_velocity-Readies F C i velocity acceleration g r
  Step-Ready (homes i one velo velocity acceleration forwards g) r =
      home-Readies F C i one velo velocity acceleration forwards g r
  Step-Ready (writes command i one forty velo accl g) r =
      write_int32-Readies F C command i one forty velo accl g r
  Step-Ready (stops i g) r = stop-Readies F C i g r
  Step-Ready (sets i position g) r = set_position-Readies F C i position g r
  Step-Ready (closes i closed g) r = set_closed_loop-Readies F C i closed g r

  -- From controllers where it holds, as with axes that are not configured, every sequence of
  -- configurations, commands and polls keeps this: an axis that is configured and waits for no
  -- reinitialisation has the index of a loaded setup, whatever the channel does and however often
  -- it is lost and opened again.
  pub Run-Ready : (g h : Controller C) → All Ready g.axes → Run g h → All Ready h.axes
  Run-Ready g h r (start _) = r
  Run-Ready g h r (next {h = m} run step) = Step-Ready step (Run-Ready g m r run)
