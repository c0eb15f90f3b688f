-- ===== src/Motor/Ownership.antt =====
-- What the driver relies on of the library about channels: the one that it has opened is its own until
-- it closes it, and no other call opens or closes one.
pub mod Selection
pub mod Power
pub mod Polls
pub mod Orders
pub mod Runs
pub mod Tables
use mathlib.Core.Path.{subst}
use technosoft_tml_motor.Prelude.{
  ◌≡◌, refl, sym, ◌∙◌, ℕ, zero, suc, ◌&&◌, ◌||◌, Bool, true, false, bytes_eq, Option, none, some,
  [], get_elem?, if◌then◌else◌, if_cases, ltb, codes,
}
use technosoft_tml_motor.Prelude.Int.{ℤ}
use technosoft_tml_motor.Prelude.State.{State, pure, ◌>>◌}
use technosoft_tml_motor.VarMap.{Name}
use technosoft_tml_motor.Motor.Calls.{Calls, Register, mer, srl}
use technosoft_tml_motor.Motor.Axis.{
  Axis, Controller, Io, call, act, modify_axis, and_then, mark_all, mark_others,
}
use technosoft_tml_motor.Motor.Status.{current_message, is_state, set_conn_status}
use technosoft_tml_motor.Motor.Select.{
  bit_set, value_or_0, is_nonzero, with_setup_idx, recovered, not_recovered, lost_selection,
  switched_on, load_once, write_scr, disable_limits, after_init, set_up, reinit_axis, select_retry,
  recover, reopened, reconnect, choose, select_with, select_of, select_axis, opened_again,
  ensure_open, ensure_channel,
}
use technosoft_tml_motor.Motor.Power.{
  power_wait, switch_on, power_on_of, power_on, switch_off, power_off_of, power_off,
}

-- The call leaves the ownership as it is.
abbrev pub Kept : {St A : Type 0} → (Option ℕ → St → Type 0) → State St A → Type 0
Kept {St} Owns m = (o : Option ℕ) (s : St) → Owns o s → Owns o (m s).1

-- `Owns o s` says that the library has the channel `o` open, or none.
pub record Ownership {R : Type 0} (C : Calls R) : Type 1 where
  pub Owns : Option ℕ → C.St → Type 0
  pub opens : (s : C.St) → Owns none s → Owns (C.open_channel s).0 (C.open_channel s).1
  pub closes : (fd : ℕ) (s : C.St) → Owns (some fd) s → Owns none (C.close_channel fd s)
  pub sleeps : (ms : ℕ) (o : Option ℕ) (s : C.St) → Owns o s → Owns o (C.sleep ms s)
  pub clears : (o : Option ℕ) (s : C.St) → Owns o s → Owns o (C.clear_limit_switch_event s)
  pub selects : (fd : ℕ) → Kept Owns (C.select_channel fd)
  pub loads : (path : Name) → Kept Owns (C.load_setup path)
  pub sets_up : (axis idx : ℕ) → Kept Owns (C.setup_axis axis idx)
  pub chooses : (axis : ℕ) → Kept Owns (C.select_axis axis)
  pub initialises : Kept Owns C.drive_initialisation
  pub powers : (on : Bool) → Kept Owns (C.power on)
  pub reads : (reg : Register) → Kept Owns (C.read_status reg)
  pub gets_long : (name : Name) → Kept Owns (C.get_long_variable name)
  pub gets_int : (name : Name) → Kept Owns (C.get_int_variable name)
  pub sets_int : (name : Name) (z : ℤ) → Kept Owns (C.set_int_variable name z)
  pub sets_long : (name : Name) (z : ℤ) → Kept Owns (C.set_long_variable name z)
  pub sets_position : (z : ℤ) → Kept Owns (C.set_position z)
  pub disables : (lsp lsn : Bool) → Kept Owns (C.disable_limit_protection lsp lsn)
  pub moves_to : (p : ℤ) (v a : R) → Kept Owns (C.move_absolute p v a)
  pub moves_by : (p : ℤ) (v a : R) → Kept Owns (C.move_relative p v a)
  pub runs : (v a : R) → Kept Owns (C.move_velocity v a)
  pub awaits_end : Kept Owns C.set_event_on_motion_complete
  pub awaits_limit : (positive : Bool) → Kept Owns (C.set_event_on_limit_switch positive)
  pub aborts : Kept Owns C.abort
  pub resets_fault : Kept Owns C.reset_fault
  pub saves : Kept Owns C.save
  pub resets : Kept Owns C.reset

module _ {R : Type 0} {C : Calls R} (O : Ownership C) where
  -- The noted channel is the one that is open.
  abbrev pub Owned : Controller C → Type 0
  Owned g = O.Owns g.channel_fd g.lib

  abbrev pub Owning : {A : Type 0} → Io C A → Type 0
  Owning m = (g : Controller C) → Owned g → Owned (m g).1

  pub and_then-Owning : (m k : Io C Bool) → Owning m → Owning k → Owning (and_then C m k)
  and_then-Owning m k hm hk g h =
      let (ok, g') = m g in
      if_cases (λ (r : Bool × Controller C). Owned r.1) ok (k g') (false, g') (λ _. hk g' (hm g h))
        (λ _. hm g h)

  pub call-Owning : {A : Type 0} (f : State C.St A) → Kept O.Owns f → Owning (call C f)
  call-Owning f k g h = k g.channel_fd g.lib h

  -- A choice after a step.
  pub choice-Owning :
      {A : Type 0} (b : Bool) (m k : Io C A) → Owning m → Owning k → Owning (if b then m else k)
  choice-Owning {A} b m k hm hk = if_cases (λ (x : Io C A). Owning x) b m k (λ _. hm) (λ _. hk)

  pub set_conn_status-Owning : (ok : Bool) (msg : Name) → Owning (set_conn_status C ok msg)
  unfolding set_conn_status
  set_conn_status-Owning ok msg g h =
      if_cases (λ (k : Controller C). Owned k)
        (is_state g.conn_ok ok && bytes_eq (current_message g.axes) msg) _ _ (λ _. h) (λ _. h)
