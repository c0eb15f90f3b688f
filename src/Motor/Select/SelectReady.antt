-- ===== src/Motor/Select/SelectReady.antt =====
-- Setups and delays of the axes across selectAxis and ensureChannel.
use technosoft_tml_motor.Prelude.{
  ℕ, ◌≡◌, refl, arith, ap, ◌∙◌, Bool, true, false, Option, none, some, List, [], All, get_elem?,
  if_cases,
}
use technosoft_tml_motor.Prelude.State.{pure}
use technosoft_tml_motor.Motor.Calls.{Calls}
use technosoft_tml_motor.Motor.Axis.{
  Axis, mark_all, mark_others, update_at, Controller, Io, call, act,
}
use technosoft_tml_motor.Motor.Status.{set_conn_status}
use technosoft_tml_motor.Motor.Select.{
  with_setup_idx, lost_selection, not_recovered, recovered, load_once, set_up, reinit_axis,
  select_retry, recover, reopened, reconnect, choose, select_with, select_of, select_axis,
  opened_again, ensure_open, ensure_channel,
}
use technosoft_tml_motor.Motor.Select.Ready.{
  Ready, Ready-to_do, All-update_at, update_at_twice, mark_all-Ready, mark_others-Ready, Readies,
  and_then-Readies, set_conn_status-Readies, set_up-Keeps, set_up-needs_idx, select_retry-Keeps,
}

module _ {R : Type 0} (C : Calls R) where
  -- A fresh load at the axis `i`, then the setup, then one of two notes.
  recover-Readies : (i : ℕ) (a : Axis) → Readies C (recover C i a)
  unfolding recover reinit_axis load_once
  recover-Readies i a g h =
      let (idx, s) = C.load_setup a.setup_file g.lib in
      let b : Axis = with_setup_idx none a in
      let marked : List Axis = mark_others i g.axes in
      let stored : List Axis =
        update_at (update_at marked i (with_setup_idx none)) i (with_setup_idx idx) in
      let g₁ : Controller C = record g { axes = stored; lib = s } in
      let (ok, g₂) = set_up C b idx g₁ in
      let ready : All Ready marked = mark_others-Ready i g.axes h in
      let whole : (f : Axis → Axis)
          → update_at g₂.axes i f
            ≡ update_at marked i (λ x. f (with_setup_idx idx (with_setup_idx none x))) =
        λ f.
          ap (λ t. update_at t i f) (set_up-Keeps C b idx g₁)
          ∙ update_at_twice (with_setup_idx idx) f (update_at marked i (with_setup_idx none)) i
          ∙ update_at_twice (with_setup_idx none) _ marked i in
      if_cases (λ (m : Io C Bool). All Ready (m g₂).1.axes) ok _ _
        (λ e.
          let (k, found) = set_up-needs_idx C b idx g₁ e in
          rw (whole recovered)
            (All-update_at Ready _ marked i (λ x q. ((λ _ _. (k, found)), q.1)) ready))
        (λ _. rw (whole not_recovered) (
          All-update_at Ready _ marked i
            (λ x _.
              Ready-to_do (not_recovered (with_setup_idx idx (with_setup_idx none x))) refl
                (omega arith, omega arith))
            ready))

  reopened-Readies : (i : ℕ) (a : Axis) (new : Option ℕ) → Readies C (reopened C i a new)
  unfolding reopened
  reopened-Readies i a none g h =
      set_conn_status-Readies C false (C.error_text g.lib)
        (record g { channel_fd = none; last_reconnect = C.now g.lib }) h
  reopened-Readies i a (some fd) g h =
      let g₁ : Controller C = record g { channel_fd = some fd; last_reconnect = C.now g.lib } in
      let (_, g₂) = set_conn_status C true [] g₁ in
      and_then-Readies C (call C (C.select_channel fd)) (recover C i a) (λ g h. h)
        (recover-Readies i a) g₂ (set_conn_status-Readies C true [] g₁ h)

  reconnect-Readies : (i : ℕ) (a : Axis) (fd : ℕ) → Readies C (reconnect C i a fd)
  unfolding reconnect
  reconnect-Readies i a fd g h =
      if_cases (λ (r : Bool × Controller C). All Ready r.1.axes) _ (false, g) _ (λ _. h)
        (λ _.
          let (new, g₁) = call C C.open_channel (act C (C.close_channel fd) g).1 in
          reopened-Readies i a new g₁ h)

  choose-Readies : (i : ℕ) (a : Axis) → Readies C (choose C i a)
  unfolding choose
  choose-Readies i a g h =
      let (ok, g₁) = call C (C.select_axis a.axis_id) g in
      if_cases (λ (m : Io C Bool). All Ready (m g₁).1.axes) ok (pure true) _ (λ _. h)
        (λ _.
          All-update_at Ready lost_selection g.axes i
            (λ x _. Ready-to_do (lost_selection x) refl (omega arith, omega arith)) h)

  select_with-Readies : (i : ℕ) (a : Axis) (fd : Option ℕ) → Readies C (select_with C i a fd)
  unfolding select_with
  select_with-Readies i a none g h = h
  select_with-Readies i a (some fd) g h =
      let (ok, g₁) = select_retry C 3 fd g in
      let kept : All Ready g₁.axes = rw (select_retry-Keeps C 3 fd g) h in
      if_cases (λ (m : Io C Bool). All Ready (m g₁).1.axes) ok (choose C i a) (reconnect C i a fd)
        (λ _. choose-Readies i a g₁ kept) (λ _. reconnect-Readies i a fd g₁ kept)

  select_of-Readies : (i : ℕ) (o : Option Axis) → Readies C (select_of C i o)
  unfolding select_of
  select_of-Readies i none g h = h
  select_of-Readies i (some a) g h =
      if_cases (λ (r : Bool × Controller C). All Ready r.1.axes) a.configured
        (select_with C i a g.channel_fd g) (false, g)
        (λ _. select_with-Readies i a g.channel_fd g h) (λ _. h)

  pub select_axis-Ready :
      (i : ℕ) (g : Controller C) → All Ready g.axes → All Ready (select_axis C i g).1.axes
  unfolding select_axis
  select_axis-Ready i g h = select_of-Readies i (get_elem? g.axes i) g h

  opened_again-Readies : (new : Option ℕ) → Readies C (opened_again C new)
  unfolding opened_again
  opened_again-Readies none g h = set_conn_status-Readies C false (C.error_text g.lib) g h
  opened_again-Readies (some fd) g h =
      set_conn_status-Readies C true [] (record g { channel_fd = some fd; axes = mark_all g.axes })
        (mark_all-Ready g.axes h)

  ensure_open-Readies : (fd : Option ℕ) → Readies C (ensure_open C fd)
  unfolding ensure_open
  ensure_open-Readies (some fd) g h = h
  ensure_open-Readies none g h =
      if_cases (λ (r : Bool × Controller C). All Ready r.1.axes) _ (false, g) _ (λ _. h)
        (λ _.
          let (new, g₁) = call C C.open_channel (record g { last_reconnect = C.now g.lib }) in
          opened_again-Readies new g₁ h)

  pub ensure_channel-Ready :
      (g : Controller C) → All Ready g.axes → All Ready (ensure_channel C g).1.axes
  unfolding ensure_channel
  ensure_channel-Ready g h = ensure_open-Readies g.channel_fd g h
