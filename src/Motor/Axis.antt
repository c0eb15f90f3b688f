-- ===== src/Motor/Axis.antt =====
-- The fields of a TmlAxis and of its TmlController, and the parameters that an axis publishes.
use technosoft_tml_motor.Prelude.{
  ℕ, zero, suc, Bool, true, false, Option, none, List, [], ◌∷◌, if◌then◌else◌,
}
use technosoft_tml_motor.Prelude.Int.{ℤ}
use technosoft_tml_motor.Prelude.State.{State}
use technosoft_tml_motor.VarMap.{Name}
use technosoft_tml_motor.Motor.Calls.{Calls}

-- The parameters that only every tenth poll sets. `cspd` is the raw 16.16 value.
pub record Slow : Type 0 where
  pub reg_mcr : ℕ
  pub reg_msr : ℕ
  pub reg_isr : ℕ
  pub cspd : ℤ
  pub potm : ℤ
  pub enable_off : ℤ
  pub pcr : ℤ

-- The asyn parameters of one axis, as `setIntegerParam`, `setDoubleParam` and `setStringParam` leave
-- them; flags are Booleans.
pub record Params : Type 0 where
  pub position : ℤ
  pub encoder : ℤ
  pub reg_srh : ℕ
  pub reg_srl : ℕ
  pub reg_mer : ℕ
  pub is_done : Bool
  pub is_moving : Bool
  pub high_limit : Bool
  pub low_limit : Bool
  pub power_on : Bool
  pub problem : Bool
  pub comms_error : Bool
  pub following_error : Bool
  pub direction : Bool
  pub at_home : Bool
  pub homed : Bool
  pub active : Bool
  pub power_on_failed : Bool
  pub fault_text : Name
  -- CONN_STATUS, where it was set, and CONN_MSG.
  pub conn_ok : Option Bool
  pub conn_msg : Name
  pub slow : Slow

pub record Axis : Type 0 where
  pub axis_id : ℕ
  pub setup_file : Name
  pub setup_idx : Option ℕ
  pub configured : Bool
  pub activated : Bool
  pub powered : Bool
  pub homing_active : Bool
  pub homing_move_seen : Bool
  pub homing_toward_lsp : Bool
  pub stopping : Bool
  pub use_lsp : Bool
  pub ignore_lsp : Bool
  pub ignore_lsn : Bool
  pub scr_value : ℤ
  pub needs_reinit : Bool
  pub countdown : ℕ
  pub backoff : ℕ
  pub poll_count : ℕ
  pub params : Params

abbrev pub update_at : List Axis → ℕ → (Axis → Axis) → List Axis
update_at [] i f = []
update_at (a ∷ as_) zero f = f a ∷ as_
update_at (a ∷ as_) (suc i) f = a ∷ update_at as_ i f

-- The lost setup of a configured axis, as the reconnections note it.
unfoldable pub mark_lost : Axis → Axis
mark_lost a =
    if a.configured
    then record a {
      setup_idx = none;
      needs_reinit = true;
      countdown = 0;
      backoff = 1;
      activated = false;
      powered = false;
      stopping = false;
    }
    else a

-- The same, with TML_ACTIVE cleared.
unfoldable pub mark_inactive : Axis → Axis
unfolding mark_lost
mark_inactive a =
    if a.configured
    then record (mark_lost a) { params = record (a.params) { active = false } }
    else a

-- The loop over all axes, and over all but the axis `i`.
abbrev pub mark_all : List Axis → List Axis
mark_all [] = []
mark_all (a ∷ as_) = mark_lost a ∷ mark_all as_

abbrev pub mark_all_inactive : List Axis → List Axis
mark_all_inactive [] = []
mark_all_inactive (a ∷ as_) = mark_inactive a ∷ mark_all_inactive as_

abbrev pub mark_others : ℕ → List Axis → List Axis
mark_others i [] = []
mark_others zero (a ∷ as_) = a ∷ mark_all_inactive as_
mark_others (suc i) (a ∷ as_) = mark_inactive a ∷ mark_others i as_

module _ {R : Type 0} (C : Calls R) where
  -- `last_reconnect` is 0 where it was never set, as `secPastEpoch` is; `conn_ok` is missing where
  -- `connOk_` is -1.
  pub record Controller : Type 0 where
    pub channel_fd : Option ℕ
    pub last_reconnect : ℕ
    pub conn_ok : Option Bool
    pub axes : List Axis
    pub lib : C.St

  abbrev pub Io : Type 0 → Type 0
  Io A = State Controller A

  abbrev pub call : {A : Type 0} → State C.St A → Io A
  call f g = let (a, s) = f g.lib in (a, record g { lib = s })

  abbrev pub act : (C.St → C.St) → Io (Unit {0})
  act f g = (tt, record g { lib = f g.lib })

  abbrev pub modify_axis : ℕ → (Axis → Axis) → Io (Unit {0})
  modify_axis i f g = (tt, record g { axes = update_at g.axes i f })

  -- `if (!m) return asynError;` and what follows.
  abbrev pub and_then : Io Bool → Io Bool → Io Bool
  and_then m k g = let (ok, g') = m g in if ok then k g' else (false, g')
