-- ===== src/Motor/Ownership/Runs.antt =====
-- The driver's channel in the runs from the constructor of the controller.
use technosoft_tml_motor.Prelude.{ℕ, true, false, Option, none, some, get_elem?, []}
use technosoft_tml_motor.Motor.Calls.{Calls}
use technosoft_tml_motor.Motor.Axis.{Params, Controller, call}
use technosoft_tml_motor.Motor.Select.{select_axis}
use technosoft_tml_motor.Motor.Power.{power_on, power_off}
use technosoft_tml_motor.Motor.Commands.{
  configured_as, configure, prepare, run_move, move, run_jog, move_velocity, set_position,
  set_closed_loop,
}
use technosoft_tml_motor.Motor.Lifecycle.{unconnected, connected_as, new_controller}
use technosoft_tml_motor.Motor.Runs.{
  Step, ensures, polls, configures, moves, jogs, homes, writes, stops, sets, closes, Run, start,
  next,
}
use technosoft_tml_motor.Motor.Ownership.{
  Ownership, Owned, and_then-Owning, choice-Owning, set_conn_status-Owning,
}
use technosoft_tml_motor.Motor.Ownership.Polls.{poll-Owning}
use technosoft_tml_motor.Api.Real.{Real}
use technosoft_tml_motor.Motor.Ownership.Orders.{
  on_axis-Owning, configure_of-Owning, prepare-Owning, run_move-Owning, run_jog-Owning, home-Owning,
  stop-Owning, write_int32-Owning,
}
use technosoft_tml_motor.Motor.Ownership.Selection.{select_axis-Owning, ensure_channel-Owning}
use technosoft_tml_motor.Motor.Ownership.Power.{power_on-Owning, power_off-Owning}

module _ (F : Real) {C : Calls F.R} (O : Ownership C) where
  Step-Owned : {g h : Controller C} → Step F C g h → Owned O g → Owned O h
  unfolding configure move move_velocity set_position set_closed_loop
  Step-Owned (ensures g) o = ensure_channel-Owning O g o
  Step-Owned (polls i g) o = poll-Owning O i g o
  Step-Owned (configures i axis_id file switch lsp lsn scr g) o =
      configure_of-Owning F O i (configured_as axis_id file switch lsp lsn scr) (get_elem? g.axes i)
        g o
  Step-Owned (moves i relative p v a g) o =
      on_axis-Owning F O _ (get_elem? g.axes i)
        (λ x.
          and_then-Owning O (prepare F C i) (run_move F C i relative p v a) (prepare-Owning F O i)
            (run_move-Owning F O i relative p v a))
        g o
  Step-Owned (jogs i v a g) o =
      on_axis-Owning F O _ (get_elem? g.axes i)
        (λ x.
          and_then-Owning O (prepare F C i) (run_jog F C i v a) (prepare-Owning F O i)
            (run_jog-Owning F O i v a))
        g o
  Step-Owned (homes i one velo v a forwards g) o = home-Owning F O i one velo v a forwards g o
  Step-Owned (writes c i one forty velo accl g) o =
      write_int32-Owning F O c i one forty velo accl g o
  Step-Owned (stops i g) o = stop-Owning F O i g o
  Step-Owned (sets i p g) o =
      on_axis-Owning F O _ (get_elem? g.axes i)
        (λ x.
          and_then-Owning O (select_axis C i) (call C (C.set_position p)) (select_axis-Owning O i)
            (λ g h. O.sets_position p _ _ h))
        g o
  Step-Owned (closes i closed g) o =
      on_axis-Owning F O _ (get_elem? g.axes i)
        (λ x.
          choice-Owning O closed (power_on C i) (power_off C i) (power_on-Owning O i)
            (power_off-Owning O i))
        g o

  Run-Owned : {g h : Controller C} → Run F C g h → Owned O g → Owned O h
  Run-Owned (start g) o = o
  Run-Owned (next run step) o = Step-Owned step (Run-Owned run o)

  connected_as-Owning :
      (new : Option ℕ) (g : Controller C) → O.Owns new g.lib → Owned O (connected_as F C new g).1
  unfolding connected_as
  connected_as-Owning none g h =
      set_conn_status-Owning O false (C.error_text g.lib)
        (record g { channel_fd = none; last_reconnect = C.now g.lib }) h
  connected_as-Owning (some fd) g h =
      set_conn_status-Owning O true []
        (record g { channel_fd = some fd; last_reconnect = C.now g.lib }) h

  pub Run-Owned_new :
      (count : ℕ) (p : Params) (s : C.St) (g : Controller C)
      → O.Owns none s
      → Run F C (new_controller F C count p s) g
      → Owned O g
  unfolding new_controller
  Run-Owned_new count p s g free run =
      let (new, g₁) = call C C.open_channel (unconnected F C count p s) in
      Run-Owned run (connected_as-Owning new g₁ (O.opens s free))
