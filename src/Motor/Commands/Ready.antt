-- ===== src/Motor/Commands/Ready.antt =====
-- Setups and delays of the axes across the commands.
use technosoft_tml_motor.Prelude.{
  ℕ, ◌≡◌, refl, ap, ◌∙◌, Bool, true, false, Option, none, some, All, get_elem?, if◌then◌else◌,
  if_cases, arith,
}
use technosoft_tml_motor.Prelude.Int.{ℤ}
use technosoft_tml_motor.Prelude.State.{pure}
use technosoft_tml_motor.Motor.Calls.{Calls, mer}
use technosoft_tml_motor.Motor.Axis.{
  Axis, Controller, Io, call, act, modify_axis, and_then, update_at,
}
use technosoft_tml_motor.Motor.Select.{
  bit_set, value_or_0, with_setup_idx, reinit_axis, select_axis,
}
use technosoft_tml_motor.Motor.Power.{power_on, power_off}
use technosoft_tml_motor.Motor.Select.Ready.{
  Ready, Paced, Ready-to_do, All-update_at, update_at_twice, Readies, and_then-Readies,
}
use technosoft_tml_motor.Motor.Select.SelectReady.{select_axis-Ready}
use technosoft_tml_motor.Motor.Select.PowerReady.{power_on-Ready, power_off-Ready}
use technosoft_tml_motor.Motor.Decode.{homed_at_zero}
use technosoft_tml_motor.Motor.Poll.Backoff.{get_elem?-update_at}
use technosoft_tml_motor.Motor.Poll.Ready.{Noted, reinit_axis-Noted}
use technosoft_tml_motor.Motor.Commands.{
  clear_if, no_homing, started, homing_started, stopped, configured_offline, configured_online,
  not_responding, on_axis, init_configured, configure_of, prepare, started_move, run_move, move,
  run_jog, move_velocity, stop, set_position, set_closed_loop,
}
use technosoft_tml_motor.Motor.Homing.{
  run_home, home_velocity, home_at, home, home_here, force_from, force_home,
}
use technosoft_tml_motor.Api.Real.{Real}

module _ (F : Real) (C : Calls F.R) where
  on_axis-Readies :
      (f : Axis → Io C Bool) (o : Option Axis)
      → ((a : Axis) → Readies C (f a))
      → Readies C (on_axis F C f o)
  on_axis-Readies f none hf g h = h
  on_axis-Readies f (some a) hf g h =
      if_cases (λ (r : Bool × Controller C). All Ready r.1.axes) a.configured (f a g) (false, g)
        (λ _. hf a g h) (λ _. h)

  init_configured-Ready :
      (i : ℕ) (set : Axis → Axis) (a : Axis) (g : Controller C) (fd : Option ℕ)
      → ((x : Axis) → Paced x → Paced (set x))
      → get_elem? g.axes i ≡ some a
      → All Ready g.axes
      → All Ready (init_configured F C i (set a) fd (modify_axis C i set g).1).1.axes
  unfolding init_configured
  init_configured-Ready i set a g none pace here h =
      rw (update_at_twice set configured_offline g.axes i) (
        All-update_at Ready _ g.axes i
          (λ x q. Ready-to_do (configured_offline (set x)) refl (omega arith, omega arith)) h)
  init_configured-Ready i set a g (some fd) pace here h =
      let g₁ = (call C (C.select_channel fd) (modify_axis C i set g).1).1 in
      let noted : Noted C i g₁ (reinit_axis C i (set a) g₁) =
        reinit_axis-Noted C i (set a) g₁ (get_elem?-update_at g.axes i a set here) in
      let (ok, g₂) = reinit_axis C i (set a) g₁ in
      let whole : (f : Axis → Axis)
          → update_at g₂.axes i f ≡ update_at g.axes i (λ x. f (with_setup_idx noted.idx (set x))) =
        λ f.
          ap (λ t. update_at t i f) noted.axes
          ∙ update_at_twice (with_setup_idx noted.idx) f g₁.axes i
          ∙ update_at_twice set (λ x. f (with_setup_idx noted.idx x)) g.axes i in
      if_cases (λ (m : Io C Bool). All Ready (m g₂).1.axes) ok _ _
        (λ e.
          rw (whole configured_online)
            (All-update_at Ready _ g.axes i (λ x q. ((λ _ _. noted.needed e), pace x q.1)) h))
        (λ _. rw (whole not_responding) (
          All-update_at Ready _ g.axes i
            (λ x q.
              Ready-to_do (not_responding (with_setup_idx noted.idx (set x))) refl (pace x q.1))
            h))

  pub configure_of-Readies :
      (i : ℕ) (set : Axis → Axis) (o : Option Axis) (g : Controller C)
      → ((x : Axis) → Paced x → Paced (set x))
      → get_elem? g.axes i ≡ o
      → All Ready g.axes
      → All Ready (configure_of F C i set o g).1.axes
  unfolding configure_of
  configure_of-Readies i set none g pace here h = h
  configure_of-Readies i set (some a) g pace here h =
      init_configured-Ready i set a g g.channel_fd pace here h

  prepare-Readies : (i : ℕ) → Readies C (prepare F C i)
  unfolding prepare
  prepare-Readies i =
      and_then-Readies C (select_axis C i) (power_on C i) (select_axis-Ready C i)
        (power_on-Ready C i)

  started_move-Readies : (i : ℕ) (ok : Bool) → Readies C (started_move F C i ok)
  unfolding started_move
  started_move-Readies i false g h = h
  started_move-Readies i true g h = All-update_at Ready started g.axes i (λ x q. q) h

  run_move-Readies :
      (i : ℕ) (relative : Bool) (position : ℤ) (velocity acceleration : F.R)
      → Readies C (run_move F C i relative position velocity acceleration)
  unfolding run_move
  run_move-Readies i relative position velocity acceleration g h =
      let g₁ = (act C C.clear_limit_switch_event (modify_axis C i no_homing g).1).1 in
      let (ok, g₂) =
        call C
          (if relative
            then C.move_relative position velocity acceleration
            else C.move_absolute position velocity acceleration)
          g₁ in
      started_move-Readies i ok g₂ (All-update_at Ready no_homing g.axes i (λ x q. q) h)

  run_jog-Readies :
      (i : ℕ) (velocity acceleration : F.R) → Readies C (run_jog F C i velocity acceleration)
  unfolding run_jog
  run_jog-Readies i velocity acceleration g h =
      let ready = All-update_at Ready no_homing g.axes i (λ x q. q) h in
      let (ok, g₁) =
        call C (C.move_velocity velocity acceleration)
          (act C C.clear_limit_switch_event (modify_axis C i no_homing g).1).1 in
      if_cases (λ (m : Io C Bool). All Ready (m g₁).1.axes) ok _ (pure false)
        (λ _. All-update_at Ready started g₁.axes i (λ x q. q) ready) (λ _. ready)

  run_home-Readies :
      (i : ℕ) (velocity acceleration : F.R) (forwards : Bool)
      → Readies C (run_home F C i velocity acceleration forwards)
  unfolding run_home
  run_home-Readies i velocity acceleration forwards g h =
      let m₁ : Io C Bool = call C (
        C.move_velocity (if forwards then F.fabs velocity else F.neg (F.fabs velocity))
          (F.fabs acceleration)) in
      let m₂ : Io C Bool = call C (C.set_event_on_limit_switch forwards) in
      let g₁ = (act C C.clear_limit_switch_event g).1 in
      let (ok, g₂) = and_then C m₁ m₂ g₁ in
      let ready : All Ready g₂.axes = and_then-Readies C m₁ m₂ (λ g h. h) (λ g h. h) g₁ h in
      if_cases (λ (m : Io C Bool). All Ready (m g₂).1.axes) ok _ (pure false)
        (λ _. All-update_at Ready (homing_started forwards) g₂.axes i (λ x q. q) ready) (λ _. ready)

  home_at-Readies :
      (i : ℕ) (velocity : Option F.R) (acceleration : F.R) (forwards : Bool)
      → Readies C (home_at F C i velocity acceleration forwards)
  unfolding home_at
  home_at-Readies i none acceleration forwards g h = h
  home_at-Readies i (some velocity) acceleration forwards g h =
      and_then-Readies C (prepare F C i) (run_home F C i velocity acceleration forwards)
        (prepare-Readies i) (run_home-Readies i velocity acceleration forwards) g h

  pub home-Readies :
      (i : ℕ) (one velo velocity acceleration : F.R) (forwards : Bool)
      → Readies C (home F C i one velo velocity acceleration forwards)
  unfolding home
  home-Readies i one velo velocity acceleration forwards g h =
      on_axis-Readies _ (get_elem? g.axes i)
        (λ a.
          home_at-Readies i (home_velocity F C velocity velo)
            (if F.is_zero acceleration then one else acceleration) forwards)
        g h

  home_here-Readies : (i : ℕ) → Readies C (home_here F C i)
  unfolding home_here
  home_here-Readies i g h =
      All-update_at Ready homed_at_zero (select_axis C i g).1.axes i (λ x q. q)
        (select_axis-Ready C i g h)

  force_from-Readies :
      (i : ℕ) (one forty velo accl : F.R) (a : Axis)
      → Readies C (force_from F C i one forty velo accl a)
  unfolding force_from
  force_from-Readies i one forty velo accl a g h =
      let (v, g₁) = call C (C.read_status mer) g in
      if_cases (λ (m : Io C Bool). All Ready (m g₁).1.axes)
        (bit_set (value_or_0 v) (if a.use_lsp then 6 else 7)) _ _ (λ _. home_here-Readies i g₁ h)
        (λ _.
          home-Readies i one velo (if F.is_positive velo then velo else forty)
            (if F.is_positive accl then accl else one) a.use_lsp g₁ h)

  pub move-Readies :
      (i : ℕ) (relative : Bool) (position : ℤ) (velocity acceleration : F.R)
      → Readies C (move F C i relative position velocity acceleration)
  unfolding move
  move-Readies i relative position velocity acceleration g h =
      on_axis-Readies _ (get_elem? g.axes i)
        (λ a.
          and_then-Readies C (prepare F C i)
            (run_move F C i relative position velocity acceleration) (prepare-Readies i)
            (run_move-Readies i relative position velocity acceleration))
        g h

  pub move_velocity-Readies :
      (i : ℕ) (velocity acceleration : F.R) → Readies C (move_velocity F C i velocity acceleration)
  unfolding move_velocity
  move_velocity-Readies i velocity acceleration g h =
      on_axis-Readies _ (get_elem? g.axes i)
        (λ a.
          and_then-Readies C (prepare F C i) (run_jog F C i velocity acceleration)
            (prepare-Readies i) (run_jog-Readies i velocity acceleration))
        g h

  pub force_home-Readies :
      (i : ℕ) (one forty velo accl : F.R) → Readies C (force_home F C i one forty velo accl)
  unfolding force_home
  force_home-Readies i one forty velo accl g h =
      on_axis-Readies _ (get_elem? g.axes i)
        (λ a.
          and_then-Readies C (select_axis C i) (force_from F C i one forty velo accl a)
            (select_axis-Ready C i) (force_from-Readies i one forty velo accl a))
        g h

  pub stop-Readies : (i : ℕ) → Readies C (stop F C i)
  unfolding stop clear_if
  stop-Readies i g h =
      on_axis-Readies _ (get_elem? g.axes i)
        (λ a g h.
          All-update_at Ready stopped (select_axis C i g).1.axes i (λ x q. q)
            (select_axis-Ready C i g h))
        g h

  pub set_position-Readies : (i : ℕ) (position : ℤ) → Readies C (set_position F C i position)
  unfolding set_position
  set_position-Readies i position g h =
      on_axis-Readies _ (get_elem? g.axes i)
        (λ a.
          and_then-Readies C (select_axis C i) (call C (C.set_position position))
            (select_axis-Ready C i) (λ g h. h))
        g h

  pub set_closed_loop-Readies : (i : ℕ) (closed : Bool) → Readies C (set_closed_loop F C i closed)
  unfolding set_closed_loop
  set_closed_loop-Readies i closed g h =
      on_axis-Readies _ (get_elem? g.axes i)
        (λ a.
          if_cases (λ (m : Io C Bool). Readies C m) closed (power_on C i) (power_off C i)
            (λ _. power_on-Ready C i) (λ _. power_off-Ready C i))
        g h
