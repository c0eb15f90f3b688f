-- ===== src/Motor/Select/Even.antt =====
-- reinitAxis and selectAxis leave all axes alike.
use mathlib.Core.Path.{subst}
use technosoft_tml_motor.Prelude.{
  ℕ, ◌≡◌, Bool, true, false, ◌&&◌, bytes_eq, Option, none, some, List, [], get_elem?, if_cases,
}
use technosoft_tml_motor.Prelude.State.{pure}
use technosoft_tml_motor.VarMap.{Name}
use technosoft_tml_motor.Motor.Calls.{Calls}
use technosoft_tml_motor.Motor.Axis.{
  Axis, mark_others, update_at, Controller, Io, call, act, and_then,
}
use technosoft_tml_motor.Motor.Status.{current_message, is_state, set_conn_status}
use technosoft_tml_motor.Motor.Select.{
  with_setup_idx, lost_selection, not_recovered, recovered, load_once, reinit_axis, select_retry,
  recover, reopened, reconnect, choose, select_with, select_of, select_axis,
}
use technosoft_tml_motor.Motor.Select.Ready.{set_up-Keeps, select_retry-Keeps}
use technosoft_tml_motor.Motor.Select.Alike.{
  Each, Each-refl, Each-trans, Each-update_at, mark_others-Each, publish_all-Each, recovered-Alike,
  not_recovered-Alike, with_setup_idx-Alike, lost_selection-Alike,
}

module _ {R : Type 0} (C : Calls R) where
  -- The computation leaves all axes alike.
  abbrev pub Evens : {A : Type 0} → Io C A → Type 0
  Evens m = (g : Controller C) → Each g.axes (m g).1.axes

  and_then-Evens : (m k : Io C Bool) → Evens m → Evens k → Evens (and_then C m k)
  and_then-Evens m k hm hk g =
      let (ok, g') = m g in
      if_cases (λ (r : Bool × Controller C). Each g.axes r.1.axes) ok (k g') (false, g')
        (λ _. Each-trans g.axes g'.axes _ (hm g) (hk g')) (λ _. hm g)

  set_conn_status-Evens : (ok : Bool) (msg : Name) → Evens (set_conn_status C ok msg)
  unfolding set_conn_status
  set_conn_status-Evens ok msg g =
      if_cases (λ (k : Controller C). Each g.axes k.axes)
        (is_state g.conn_ok ok && bytes_eq (current_message g.axes) msg) _ _ (λ _. Each-refl g.axes)
        (λ _. publish_all-Each ok msg g.axes)

  load_once-Evens : (i : ℕ) (a : Axis) (o : Option ℕ) → Evens (load_once C i a o)
  unfolding load_once
  load_once-Evens i a none g =
      let (idx, s) = C.load_setup a.setup_file g.lib in
      Each-update_at (with_setup_idx idx) g.axes i (with_setup_idx-Alike idx)
  load_once-Evens i a (some idx) g = Each-refl g.axes

  pub reinit_axis-Evens : (i : ℕ) (a : Axis) → Evens (reinit_axis C i a)
  unfolding reinit_axis
  reinit_axis-Evens i a g =
      let (idx, g') = load_once C i a a.setup_idx g in
      rw (set_up-Keeps C a idx g') (load_once-Evens i a a.setup_idx g)

  recover-Evens : (i : ℕ) (a : Axis) → Evens (recover C i a)
  unfolding recover
  recover-Evens i a g =
      let marked : List Axis = mark_others i g.axes in
      let stored : List Axis = update_at marked i (with_setup_idx none) in
      let g₁ : Controller C = record g { axes = stored } in
      let b : Axis = with_setup_idx none a in
      let (ok, g₂) = reinit_axis C i b g₁ in
      let begun : Each g.axes stored =
        Each-trans g.axes marked stored (mark_others-Each i g.axes)
          (Each-update_at (with_setup_idx none) marked i (with_setup_idx-Alike none)) in
      let all : Each g.axes g₂.axes =
        Each-trans g.axes stored g₂.axes begun (reinit_axis-Evens i b g₁) in
      if_cases (λ (m : Io C Bool). Each g.axes (m g₂).1.axes) ok _ _
        (λ _. Each-trans g.axes g₂.axes _ all (Each-update_at recovered g₂.axes i recovered-Alike))
        (λ _.
          Each-trans g.axes g₂.axes _ all
            (Each-update_at not_recovered g₂.axes i not_recovered-Alike))

  reopened-Evens : (i : ℕ) (a : Axis) (new : Option ℕ) → Evens (reopened C i a new)
  unfolding reopened
  reopened-Evens i a none g =
      set_conn_status-Evens false (C.error_text g.lib)
        (record g { channel_fd = none; last_reconnect = C.now g.lib })
  reopened-Evens i a (some fd) g =
      let g₁ : Controller C = record g { channel_fd = some fd; last_reconnect = C.now g.lib } in
      let (_, g₂) = set_conn_status C true [] g₁ in
      Each-trans g.axes g₂.axes _ (set_conn_status-Evens true [] g₁) (
        and_then-Evens (call C (C.select_channel fd)) (recover C i a) (λ g. Each-refl g.axes)
          (recover-Evens i a) g₂)

  reconnect-Evens : (i : ℕ) (a : Axis) (fd : ℕ) → Evens (reconnect C i a fd)
  unfolding reconnect
  reconnect-Evens i a fd g =
      if_cases (λ (r : Bool × Controller C). Each g.axes r.1.axes) _ (false, g) _
        (λ _. Each-refl g.axes)
        (λ _.
          let (new, g₁) = call C C.open_channel (act C (C.close_channel fd) g).1 in
          reopened-Evens i a new g₁)

  choose-Evens : (i : ℕ) (a : Axis) → Evens (choose C i a)
  unfolding choose
  choose-Evens i a g =
      let (ok, g₁) = call C (C.select_axis a.axis_id) g in
      if_cases (λ (m : Io C Bool). Each g.axes (m g₁).1.axes) ok (pure true) _
        (λ _. Each-refl g.axes) (λ _. Each-update_at lost_selection g.axes i lost_selection-Alike)

  select_with-Evens : (i : ℕ) (a : Axis) (fd : Option ℕ) → Evens (select_with C i a fd)
  unfolding select_with
  select_with-Evens i a none g = Each-refl g.axes
  select_with-Evens i a (some fd) g =
      let (ok, g₁) = select_retry C 3 fd g in
      let same : g₁.axes ≡ g.axes = select_retry-Keeps C 3 fd g in
      if_cases (λ (m : Io C Bool). Each g.axes (m g₁).1.axes) ok (choose C i a) (reconnect C i a fd)
        (λ _. subst (λ xs. Each xs (choose C i a g₁).1.axes) same (choose-Evens i a g₁))
        (λ _. subst (λ xs. Each xs (reconnect C i a fd g₁).1.axes) same (reconnect-Evens i a fd g₁))

  select_of-Evens : (i : ℕ) (o : Option Axis) → Evens (select_of C i o)
  unfolding select_of
  select_of-Evens i none g = Each-refl g.axes
  select_of-Evens i (some a) g =
      if_cases (λ (r : Bool × Controller C). Each g.axes r.1.axes) a.configured
        (select_with C i a g.channel_fd g) (false, g) (λ _. select_with-Evens i a g.channel_fd g)
        (λ _. Each-refl g.axes)

  pub select_axis-Evens : (i : ℕ) → Evens (select_axis C i)
  unfolding select_axis
  select_axis-Evens i g = select_of-Evens i (get_elem? g.axes i) g
