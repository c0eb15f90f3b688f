-- ===== src/Motor/Ownership/Orders.antt =====
-- The driver's channel across configure, the commands and writeInt32.
use technosoft_tml_motor.Prelude.{
  ℕ, Bool, true, false, Option, none, some, get_elem?, if◌then◌else◌, if_cases, codes,
}
use technosoft_tml_motor.Prelude.Int.{ℤ, pos}
use technosoft_tml_motor.Prelude.State.{State, pure, ◌>>◌}
use technosoft_tml_motor.Motor.Calls.{Calls, mer}
use technosoft_tml_motor.Motor.Axis.{Axis, Controller, Io, call, act, modify_axis, and_then}
use technosoft_tml_motor.Motor.Select.{bit_set, value_or_0, reinit_axis, select_axis}
use technosoft_tml_motor.Motor.Power.{power_on}
use technosoft_tml_motor.Motor.Commands.{
  clear_if, no_homing, on_axis, init_configured, configure_of, prepare, started_move, run_move,
  run_jog, stop,
}
use technosoft_tml_motor.Motor.Homing.{
  run_home, home_velocity, home_at, home, home_here, force_from, force_home,
}
use technosoft_tml_motor.Motor.Parameters.{
  Command, reset_fault, save_eeprom, reset_drive, home_by_force, clear_encoder, clear_steps,
  when_selected, clear_counter, write_int32, encoder_cleared, steps_cleared,
}
use technosoft_tml_motor.Motor.Ownership.{
  Kept, Ownership, Owned, Owning, and_then-Owning, choice-Owning,
}
use technosoft_tml_motor.Api.Real.{Real}
use technosoft_tml_motor.Motor.Ownership.Selection.{reinit_axis-Owning, select_axis-Owning}
use technosoft_tml_motor.Motor.Ownership.Power.{power_on-Owning}

module _ (F : Real) {C : Calls F.R} (O : Ownership C) where
  pub on_axis-Owning :
      (f : Axis → Io C Bool) (o : Option Axis)
      → ((a : Axis) → Owning O (f a))
      → Owning O (on_axis F C f o)
  on_axis-Owning f none hf g h = h
  on_axis-Owning f (some a) hf g h =
      if_cases (λ (r : Bool × Controller C). Owned O r.1) a.configured (f a g) (false, g)
        (λ _. hf a g h) (λ _. h)

  init_configured-Owning :
      (i : ℕ) (a : Axis) (fd : Option ℕ) → Owning O (init_configured F C i a fd)
  unfolding init_configured
  init_configured-Owning i a none g h = h
  init_configured-Owning i a (some fd) g h =
      let (_, g₁) = call C (C.select_channel fd) g in
      let (ok, g₂) = reinit_axis C i a g₁ in
      choice-Owning O ok _ _ (λ g h. h) (λ g h. h) g₂
        (reinit_axis-Owning O i a g₁ (O.selects fd _ _ h))

  pub configure_of-Owning :
      (i : ℕ) (set : Axis → Axis) (o : Option Axis) → Owning O (configure_of F C i set o)
  unfolding configure_of
  configure_of-Owning i set none g h = h
  configure_of-Owning i set (some a) g h =
      init_configured-Owning i (set a) g.channel_fd (modify_axis C i set g).1 h

  pub prepare-Owning : (i : ℕ) → Owning O (prepare F C i)
  unfolding prepare
  prepare-Owning i =
      and_then-Owning O (select_axis C i) (power_on C i) (select_axis-Owning O i)
        (power_on-Owning O i)

  started_move-Owning : (i : ℕ) (ok : Bool) → Owning O (started_move F C i ok)
  unfolding started_move
  started_move-Owning i false g h = h
  started_move-Owning i true g h = O.awaits_end _ _ h

  pub run_move-Owning :
      (i : ℕ) (relative : Bool) (p : ℤ) (v a : F.R) → Owning O (run_move F C i relative p v a)
  unfolding run_move
  run_move-Owning i relative p v a g h =
      let g₁ = (act C C.clear_limit_switch_event (modify_axis C i no_homing g).1).1 in
      let m : State C.St Bool = if relative then C.move_relative p v a else C.move_absolute p v a in
      let kept : Kept O.Owns m =
        if_cases (λ (m : State C.St Bool). Kept O.Owns m) relative _ _ (λ _. O.moves_by p v a)
          (λ _. O.moves_to p v a) in
      let (ok, g₂) = call C m g₁ in started_move-Owning i ok g₂ (kept _ _ (O.clears _ _ h))

  pub run_jog-Owning : (i : ℕ) (v a : F.R) → Owning O (run_jog F C i v a)
  unfolding run_jog
  run_jog-Owning i v a g h =
      let g₁ = (act C C.clear_limit_switch_event (modify_axis C i no_homing g).1).1 in
      let (ok, g₂) = call C (C.move_velocity v a) g₁ in
      choice-Owning O ok _ _ (λ g h. h) (λ g h. h) g₂ (O.runs v a _ _ (O.clears _ _ h))

  run_home-Owning : (i : ℕ) (v a : F.R) (forwards : Bool) → Owning O (run_home F C i v a forwards)
  unfolding run_home
  run_home-Owning i v a forwards g h =
      let g₁ = (act C C.clear_limit_switch_event g).1 in
      let run : Io C Bool =
        call C (C.move_velocity (if forwards then F.fabs v else F.neg (F.fabs v)) (F.fabs a)) in
      let wait : Io C Bool = call C (C.set_event_on_limit_switch forwards) in
      let (ok, g₂) = and_then C run wait g₁ in
      choice-Owning O ok _ _ (λ g h. h) (λ g h. h) g₂
        (and_then-Owning O run wait (λ g h. O.runs _ _ _ _ h) (λ g h. O.awaits_limit _ _ _ h) g₁
          (O.clears _ _ h))

  home_at-Owning :
      (i : ℕ) (v : Option F.R) (a : F.R) (forwards : Bool) → Owning O (home_at F C i v a forwards)
  unfolding home_at
  home_at-Owning i none a forwards g h = h
  home_at-Owning i (some v) a forwards g h =
      and_then-Owning O (prepare F C i) (run_home F C i v a forwards) (prepare-Owning i)
        (run_home-Owning i v a forwards) g h

  pub home-Owning :
      (i : ℕ) (one velo v a : F.R) (forwards : Bool) → Owning O (home F C i one velo v a forwards)
  unfolding home
  home-Owning i one velo v a forwards g =
      on_axis-Owning _ (get_elem? g.axes i)
        (λ x. home_at-Owning i (home_velocity F C v velo) (if F.is_zero a then one else a) forwards)
        g

  home_here-Owning : (i : ℕ) → Owning O (home_here F C i)
  unfolding home_here
  home_here-Owning i g h = O.clears _ _ (O.sets_position (pos 0) _ _ (select_axis-Owning O i g h))

  force_from-Owning :
      (i : ℕ) (one forty velo accl : F.R) (a : Axis)
      → Owning O (force_from F C i one forty velo accl a)
  unfolding force_from
  force_from-Owning i one forty velo accl a g h =
      let (v, g₁) = call C (C.read_status mer) g in
      choice-Owning O (bit_set (value_or_0 v) (if a.use_lsp then 6 else 7)) _ _ (home_here-Owning i)
        (home-Owning i one velo (if F.is_positive velo then velo else forty)
          (if F.is_positive accl then accl else one) a.use_lsp)
        g₁ (O.reads mer _ _ h)

  force_home-Owning :
      (i : ℕ) (one forty velo accl : F.R) → Owning O (force_home F C i one forty velo accl)
  unfolding force_home
  force_home-Owning i one forty velo accl g =
      on_axis-Owning _ (get_elem? g.axes i)
        (λ a.
          and_then-Owning O (select_axis C i) (force_from F C i one forty velo accl a)
            (select_axis-Owning O i) (force_from-Owning i one forty velo accl a))
        g

  pub stop-Owning : (i : ℕ) → Owning O (stop F C i)
  unfolding stop clear_if
  stop-Owning i g =
      on_axis-Owning _ (get_elem? g.axes i)
        (λ a g h.
          let (_, g₁) = call C C.abort (select_axis C i g).1 in
          let h₁ : Owned O g₁ = O.aborts _ _ (select_axis-Owning O i g h) in
          if_cases (λ (s : C.St). O.Owns g₁.channel_fd s) a.homing_active _ _ (λ _. O.clears _ _ h₁)
            (λ _. h₁))
        g

  when_selected-Owning :
      (i : ℕ) (f : State C.St Bool) → Kept O.Owns f → Owning O (when_selected F C i f)
  unfolding when_selected
  when_selected-Owning i f k =
      and_then-Owning O (select_axis C i) (call C f) (select_axis-Owning O i) (λ g h. k _ _ h)

  clear_counter-Owning : (i : ℕ) (encoder : Bool) → Owning O (clear_counter F C i encoder)
  unfolding clear_counter
  clear_counter-Owning i encoder =
      let write : Io C Bool =
        call C (C.set_long_variable (if encoder then codes "APOS" else codes "TPOS") (pos 0)) in
      let note : Io C Bool = λ g.
        (modify_axis C i (if encoder then encoder_cleared else steps_cleared) >> pure true) g in
      and_then-Owning O (select_axis C i) (and_then C write note) (select_axis-Owning O i)
        (and_then-Owning O write note (λ g h. O.sets_long _ _ _ _ h) (λ g h. h))

  pub write_int32-Owning :
      (c : Command) (i : ℕ) (one forty velo accl : F.R)
      → Owning O (write_int32 F C c i one forty velo accl)
  unfolding write_int32
  write_int32-Owning reset_fault i one forty velo accl =
      when_selected-Owning i C.reset_fault O.resets_fault
  write_int32-Owning save_eeprom i one forty velo accl = when_selected-Owning i C.save O.saves
  write_int32-Owning reset_drive i one forty velo accl = when_selected-Owning i C.reset O.resets
  write_int32-Owning home_by_force i one forty velo accl = force_home-Owning i one forty velo accl
  write_int32-Owning clear_encoder i one forty velo accl = clear_counter-Owning i true
  write_int32-Owning clear_steps i one forty velo accl = clear_counter-Owning i false
