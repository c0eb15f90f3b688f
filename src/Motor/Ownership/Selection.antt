-- ===== src/Motor/Ownership/Selection.antt =====
-- The driver's channel across reinitAxis, selectAxis and ensureChannel.
use mathlib.Core.Path.{subst}
use technosoft_tml_motor.Prelude.{
  ◌≡◌, refl, sym, ◌∙◌, ℕ, zero, suc, ◌||◌, Bool, true, false, Option, none, some, [], get_elem?,
  if◌then◌else◌, if_cases, ltb, codes,
}
use technosoft_tml_motor.Prelude.State.{pure}
use technosoft_tml_motor.Motor.Calls.{Calls, mer}
use technosoft_tml_motor.Motor.Axis.{
  Axis, Controller, Io, call, act, modify_axis, and_then, mark_all, mark_others,
}
use technosoft_tml_motor.Motor.Status.{set_conn_status}
use technosoft_tml_motor.Motor.Select.{
  is_nonzero, with_setup_idx, load_once, write_scr, disable_limits, after_init, set_up, reinit_axis,
  select_retry, recover, reopened, reconnect, choose, select_with, select_of, select_axis,
  opened_again, ensure_open, ensure_channel,
}
use technosoft_tml_motor.Motor.Ownership.{
  Ownership, Owned, Owning, and_then-Owning, set_conn_status-Owning,
}

module _ {R : Type 0} {C : Calls R} (O : Ownership C) where
  load_once-Owning : (i : ℕ) (a : Axis) (idx : Option ℕ) → Owning O (load_once C i a idx)
  unfolding load_once
  load_once-Owning i a none g h = O.loads a.setup_file _ _ h
  load_once-Owning i a (some idx) g h = h

  write_scr-Owning : (a : Axis) → Owning O (write_scr C a)
  unfolding write_scr
  write_scr-Owning a g h =
      if_cases (λ (r : Unit {0} × Controller C). Owned O r.1) (is_nonzero a.scr_value) _ _
        (λ _. O.gets_long _ _ _ (O.sets_int _ _ _ _ h)) (λ _. h)

  disable_limits-Owning : (a : Axis) → Owning O (disable_limits C a)
  unfolding disable_limits
  disable_limits-Owning a g h =
      if_cases (λ (r : Unit {0} × Controller C). Owned O r.1) (a.ignore_lsp || a.ignore_lsn) _ _
        (λ _. O.disables _ _ _ _ h) (λ _. h)

  after_init-Owning : (a : Axis) → Owning O (after_init C a)
  unfolding after_init
  after_init-Owning a g h =
      let g₁ =
        (call C (C.get_int_variable (codes "MER_MASK")) (call C (C.read_status mer) g).1).1 in
      disable_limits-Owning a (write_scr C a g₁).1
        (write_scr-Owning a g₁ (O.gets_int _ _ _ (O.reads _ _ _ h)))

  set_up-Owning : (a : Axis) (idx : Option ℕ) → Owning O (set_up C a idx)
  unfolding set_up
  set_up-Owning a none g h = h
  set_up-Owning a (some idx) g h =
      let first : Io C Bool = call C (C.setup_axis a.axis_id idx) in
      let second : Io C Bool = call C (C.select_axis a.axis_id) in
      let third : Io C Bool = call C C.drive_initialisation in
      and_then-Owning O first (and_then C second (and_then C third (after_init C a)))
        (λ g h. O.sets_up _ _ _ _ h)
        (and_then-Owning O second (and_then C third (after_init C a)) (λ g h. O.chooses _ _ _ h)
          (and_then-Owning O third (after_init C a) (λ g h. O.initialises _ _ h)
            (after_init-Owning a)))
        g h

  pub reinit_axis-Owning : (i : ℕ) (a : Axis) → Owning O (reinit_axis C i a)
  unfolding reinit_axis
  reinit_axis-Owning i a g h =
      let (idx, g') = load_once C i a a.setup_idx g in
      set_up-Owning a idx g' (load_once-Owning i a a.setup_idx g h)

  select_retry-Kept :
      (left fd : ℕ) (o : Option ℕ) (g : Controller C)
      → O.Owns o g.lib
      → O.Owns o (select_retry C left fd g).1.lib
  unfolding select_retry
  select_retry-Kept zero fd o g h = h
  select_retry-Kept (suc left) fd o g h =
      let (ok, g₁) = call C (C.select_channel fd) g in
      let h₁ : O.Owns o g₁.lib = O.selects fd _ _ h in
      if_cases (λ (m : Io C Bool). O.Owns o (m g₁).1.lib) ok (pure true) _ (λ _. h₁)
        (λ _.
          select_retry-Kept left fd o (act C (λ s. if ltb 0 left then C.sleep 50 s else s) g₁).1 (
            if_cases (λ (s : C.St). O.Owns o s) (ltb 0 left) _ _ (λ _. O.sleeps 50 _ _ h₁)
              (λ _. h₁)))

  select_retry_fd :
      (left fd : ℕ) (g : Controller C) → (select_retry C left fd g).1.channel_fd ≡ g.channel_fd
  unfolding select_retry
  select_retry_fd zero fd g = refl
  select_retry_fd (suc left) fd g =
      let (ok, g₁) = call C (C.select_channel fd) g in
      if_cases (λ (m : Io C Bool). (m g₁).1.channel_fd ≡ g.channel_fd) ok (pure true) _ (λ _. refl)
        (λ _. select_retry_fd left fd (act C (λ s. if ltb 0 left then C.sleep 50 s else s) g₁).1)

  recover-Owning : (i : ℕ) (a : Axis) → Owning O (recover C i a)
  unfolding recover
  recover-Owning i a g h =
      let lost : Controller C = record g { axes = mark_others i g.axes } in
      let b : Axis = with_setup_idx none a in
      let g₁ : Controller C = (modify_axis C i (with_setup_idx none) lost).1 in
      let (ok, g₂) = reinit_axis C i b g₁ in
      let h₂ : Owned O g₂ = reinit_axis-Owning i b g₁ h in
      if_cases (λ (m : Io C Bool). Owned O (m g₂).1) ok _ _ (λ _. h₂) (λ _. h₂)

  reopened-Owning :
      (i : ℕ) (a : Axis) (new : Option ℕ) (g : Controller C)
      → O.Owns new g.lib
      → Owned O (reopened C i a new g).1
  unfolding reopened
  reopened-Owning i a none g h =
      set_conn_status-Owning O false (C.error_text g.lib)
        (record g { channel_fd = none; last_reconnect = C.now g.lib }) h
  reopened-Owning i a (some fd) g h =
      let g₁ : Controller C = record g { channel_fd = some fd; last_reconnect = C.now g.lib } in
      let (_, g₂) = set_conn_status C true [] g₁ in
      and_then-Owning O (call C (C.select_channel fd)) (recover C i a) (λ g h. O.selects fd _ _ h)
        (recover-Owning i a) g₂ (set_conn_status-Owning O true [] g₁ h)

  reconnect-Owning :
      (i : ℕ) (a : Axis) (fd : ℕ) (g : Controller C)
      → O.Owns (some fd) g.lib
      → Owned O g
      → Owned O (reconnect C i a fd g).1
  unfolding reconnect
  reconnect-Owning i a fd g own h =
      if_cases (λ (r : Bool × Controller C). Owned O r.1) _ (false, g) _ (λ _. h)
        (λ _.
          let (new, g₁) = call C C.open_channel (act C (C.close_channel fd) g).1 in
          reopened-Owning i a new g₁ (O.opens _ (O.closes fd _ own)))

  choose-Owning : (i : ℕ) (a : Axis) → Owning O (choose C i a)
  unfolding choose
  choose-Owning i a g h =
      let (ok, g₁) = call C (C.select_axis a.axis_id) g in
      let h₁ : Owned O g₁ = O.chooses a.axis_id _ _ h in
      if_cases (λ (m : Io C Bool). Owned O (m g₁).1) ok (pure true) _ (λ _. h₁) (λ _. h₁)

  select_with-Owning :
      (i : ℕ) (a : Axis) (fd : Option ℕ) (g : Controller C)
      → g.channel_fd ≡ fd
      → Owned O g
      → Owned O (select_with C i a fd g).1
  unfolding select_with
  select_with-Owning i a none g same h = h
  select_with-Owning i a (some fd) g same h =
      let (ok, g₁) = select_retry C 3 fd g in
      let own : O.Owns (some fd) g.lib = subst (λ o. O.Owns o g.lib) same h in
      let own₁ : O.Owns (some fd) g₁.lib = select_retry-Kept 3 fd (some fd) g own in
      let h₁ : Owned O g₁ =
        subst (λ o. O.Owns o g₁.lib) (sym (select_retry_fd 3 fd g ∙ same)) own₁ in
      if_cases (λ (m : Io C Bool). Owned O (m g₁).1) ok (choose C i a) (reconnect C i a fd)
        (λ _. choose-Owning i a g₁ h₁) (λ _. reconnect-Owning i a fd g₁ own₁ h₁)

  select_of-Owning : (i : ℕ) (o : Option Axis) → Owning O (select_of C i o)
  unfolding select_of
  select_of-Owning i none g h = h
  select_of-Owning i (some a) g h =
      if_cases (λ (r : Bool × Controller C). Owned O r.1) a.configured
        (select_with C i a g.channel_fd g) (false, g)
        (λ _. select_with-Owning i a g.channel_fd g refl h) (λ _. h)

  pub select_axis-Owning : (i : ℕ) → Owning O (select_axis C i)
  unfolding select_axis
  select_axis-Owning i g h = select_of-Owning i (get_elem? g.axes i) g h

  opened_again-Owning :
      (new : Option ℕ) (g : Controller C)
      → g.channel_fd ≡ none
      → O.Owns new g.lib
      → Owned O (opened_again C new g).1
  unfolding opened_again
  opened_again-Owning none g closed h =
      set_conn_status-Owning O false (C.error_text g.lib) g
        (subst (λ o. O.Owns o g.lib) (sym closed) h)
  opened_again-Owning (some fd) g closed h =
      set_conn_status-Owning O true [] (record g { channel_fd = some fd; axes = mark_all g.axes }) h

  ensure_open-Owning :
      (fd : Option ℕ) (g : Controller C)
      → g.channel_fd ≡ fd
      → Owned O g
      → Owned O (ensure_open C fd g).1
  unfolding ensure_open
  ensure_open-Owning (some fd) g same h = h
  ensure_open-Owning none g same h =
      if_cases (λ (r : Bool × Controller C). Owned O r.1) _ (false, g) _ (λ _. h)
        (λ _.
          let (new, g₁) = call C C.open_channel (record g { last_reconnect = C.now g.lib }) in
          opened_again-Owning new g₁ same (O.opens _ (subst (λ o. O.Owns o g.lib) same h)))

  pub ensure_channel-Owning : Owning O (ensure_channel C)
  unfolding ensure_channel
  ensure_channel-Owning g h = ensure_open-Owning g.channel_fd g refl h
