-- ===== src/Motor/Homing.antt =====
-- The homing commands `home` and `forceHome`.
use technosoft_tml_motor.Prelude.{
  ℕ, Bool, true, false, Option, none, some, get_elem?, if◌then◌else◌,
}
use technosoft_tml_motor.Prelude.Int.{pos}
use technosoft_tml_motor.Prelude.State.{◌>>=◌, ◌>>◌, pure}
use technosoft_tml_motor.Motor.Calls.{Calls, mer}
use technosoft_tml_motor.Motor.Axis.{Axis, Io, call, act, modify_axis, and_then}
use technosoft_tml_motor.Motor.Select.{bit_set, value_or_0, select_axis}
use technosoft_tml_motor.Motor.Decode.{homed_at_zero}
use technosoft_tml_motor.Api.Real.{Real}
use technosoft_tml_motor.Motor.Commands.{homing_started, on_axis, prepare}

module _ (F : Real) (C : Calls F.R) where
  -- The move F C towards the switch and the event on it; `forwards` is LSW_POSITIVE.
  unfoldable pub run_home : ℕ → F.R → F.R → Bool → Io C Bool
  run_home i velocity acceleration forwards = do
    act C C.clear_limit_switch_event
    ok ←
        and_then C
          (call C (
            C.move_velocity (if forwards then F.fabs velocity else F.neg (F.fabs velocity))
              (F.fabs acceleration)))
          (call C (C.set_event_on_limit_switch forwards))
    if ok then modify_axis C i (homing_started forwards) >> pure true else pure false

  -- HVEL, or VELO where it is 0 and VELO is positive.
  unfoldable pub home_velocity : F.R → F.R → Option F.R
  home_velocity velocity velo =
      if F.is_zero velocity then if F.is_positive velo then some velo else none else some velocity

  unfoldable pub home_at : ℕ → Option F.R → F.R → Bool → Io C Bool
  unfolding prepare run_home
  home_at i none acceleration forwards = pure false
  home_at i (some velocity) acceleration forwards =
      and_then C (prepare F C i) (run_home i velocity acceleration forwards)

  -- `velo` is the motor record's VELO; `one` is 1.0.
  unfoldable pub home : ℕ → F.R → F.R → F.R → F.R → Bool → Io C Bool
  unfolding home_velocity home_at
  home i one velo velocity acceleration forwards g =
      on_axis F C
        (λ a.
          home_at i (home_velocity velocity velo)
            (if F.is_zero acceleration then one else acceleration) forwards)
        (get_elem? g.axes i) g

  -- At the switch already: the position is set to zero without a move.
  unfoldable pub home_here : ℕ → Io C Bool
  unfolding select_axis
  home_here i = do
    select_axis C i
    call C (C.set_position (pos 0))
    act C C.clear_limit_switch_event
    modify_axis C i homed_at_zero
    pure true

  unfoldable pub force_from : ℕ → F.R → F.R → F.R → F.R → Axis → Io C Bool
  unfolding home_here home
  force_from i one forty velo accl a = do
    v ← call C (C.read_status mer)
    if bit_set (value_or_0 v) (if a.use_lsp then 6 else 7)
        then home_here i
        else home i one velo (if F.is_positive velo then velo else forty)
            (if F.is_positive accl then accl else one) a.use_lsp

  -- `forceHome`; `forty` is 40.0, `velo` and `accl` the motor record's VELO and ACCL.
  unfoldable pub force_home : ℕ → F.R → F.R → F.R → F.R → Io C Bool
  unfolding select_axis force_from
  force_home i one forty velo accl g =
      on_axis F C (λ a. and_then C (select_axis C i) (force_from i one forty velo accl a))
        (get_elem? g.axes i) g
