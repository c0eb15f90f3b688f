-- ===== src/Motor/Select.antt =====
-- Setting an axis up, selecting it, and what happens when the channel is lost: reinitAxis, selectAxis
-- and ensureChannel of technosoftSup/src/drvTmlMotor.cpp.
pub mod Ready
pub mod SelectReady
pub mod PowerReady
pub mod Alike
pub mod Even
use technosoft_tml_motor.Prelude.{
  [], ℕ, zero, suc, ◌-◌, ◌/◌, ◌^◌, Bool, true, false, not, ◌&&◌, ◌||◌, Option, none, some, List,
  get_elem?, if◌then◌else◌, ◌==◌, ltb, bit_and, codes,
}
use technosoft_tml_motor.Prelude.Int.{ℤ, pos, negsuc, to_word16, signed16}
use technosoft_tml_motor.Prelude.State.{State, ◌>>=◌, ◌>>◌, pure}
use technosoft_tml_motor.Motor.Status.{set_conn_status}
use technosoft_tml_motor.Motor.Calls.{Calls, srl, mer}
use technosoft_tml_motor.Motor.Axis.{
  Axis, Params, mark_all, mark_others, Controller, Io, call, act, modify_axis, and_then,
}

-- `v & (1 << k)`, as a test.
abbrev pub bit_set : ℕ → ℕ → Bool
bit_set v k = not (bit_and v (2 ^ k) == 0)

abbrev pub value_or_0 : Option ℕ → ℕ
value_or_0 none = 0
value_or_0 (some v) = v

abbrev pub is_nonzero : ℤ → Bool
is_nonzero (pos zero) = false
is_nonzero (pos (suc n)) = true
is_nonzero (negsuc n) = true

-- The notes on an axis.
abbrev pub with_setup_idx : Option ℕ → Axis → Axis
with_setup_idx idx a = record a { setup_idx = idx }

abbrev pub lost_selection : Axis → Axis
lost_selection a = record a { needs_reinit = true; activated = false; countdown = 0; backoff = 1 }

abbrev pub not_recovered : Axis → Axis
not_recovered a = record a {
  activated = false;
  powered = false;
  needs_reinit = true;
  countdown = 1;
  backoff = 1;
  params = record (a.params) { active = false };
}

abbrev pub recovered : Axis → Axis
recovered a = record a {
  powered = false;
  stopping = false;
  needs_reinit = false;
  activated = true;
  params = record (a.params) { active = true };
}

abbrev pub switched_on : Axis → Axis
switched_on a = record a {
  powered = true;
  activated = true;
  params = record (a.params) { active = true; power_on_failed = false };
}

abbrev pub switched_off : Axis → Axis
switched_off a = record a {
  powered = false;
  params = record (a.params) { active = false; power_on_failed = false };
}

abbrev pub not_switched_on : Axis → Axis
not_switched_on a = record a { params = record (a.params) { power_on_failed = true } }

module _ {R : Type 0} (C : Calls R) where
  -- TS_LoadSetup on the first call only; the result is `setupIdx_`.
  unfoldable pub load_once : ℕ → Axis → Option ℕ → Io C (Option ℕ)
  load_once i a (some idx) = pure (some idx)
  load_once i a none = do
    idx ← call C (C.load_setup a.setup_file)
    modify_axis C i (with_setup_idx idx)
    pure idx

  -- The SCR write and the look at APOS, neither of which is fatal.
  unfoldable pub write_scr : Axis → Io C (Unit {0})
  write_scr a g =
      if is_nonzero a.scr_value
      then (do
        call C (C.set_int_variable (codes "SCR") (signed16 (to_word16 a.scr_value)))
        call C (C.get_long_variable (codes "APOS"))
        pure tt)
          g
      else (tt, g)

  unfoldable pub disable_limits : Axis → Io C (Unit {0})
  disable_limits a g =
      if a.ignore_lsp || a.ignore_lsn
      then (do call C (C.disable_limit_protection a.ignore_lsp a.ignore_lsn); pure tt) g
      else (tt, g)

  -- What follows TS_DriveInitialisation; nothing of it is fatal.
  unfoldable pub after_init : Axis → Io C Bool
  unfolding write_scr disable_limits
  after_init a = do
    call C (C.read_status mer)
    call C (C.get_int_variable (codes "MER_MASK"))
    write_scr a
    disable_limits a
    pure true

  unfoldable pub set_up : Axis → Option ℕ → Io C Bool
  unfolding after_init
  set_up a none = pure false
  set_up a (some idx) = and_then C (call C (C.setup_axis a.axis_id idx)) (
      and_then C (call C (C.select_axis a.axis_id))
        (and_then C (call C C.drive_initialisation) (after_init a)))

  -- `reinitAxis` of the axis `i`, with the fields `a`.
  unfoldable pub reinit_axis : ℕ → Axis → Io C Bool
  unfolding load_once set_up
  reinit_axis i a = do idx ← load_once i a a.setup_idx; set_up a idx

  -- Tier 1: three attempts, with pauses between them.
  unfoldable pub select_retry : ℕ → ℕ → Io C Bool
  select_retry zero fd = pure false
  select_retry (suc left) fd = do
    ok ← call C (C.select_channel fd)
    if ok
        then pure true
        else (do act C (λ s. if ltb 0 left then C.sleep 50 s else s); select_retry left fd)

  -- The end of tier 3, on the new channel.
  unfoldable pub recover : ℕ → Axis → Io C Bool
  unfolding reinit_axis
  recover i a g =
      let lost : Controller C = record g { axes = mark_others i g.axes } in
      (do
        modify_axis C i (with_setup_idx none)
        ok ← reinit_axis i (with_setup_idx none a)
        if ok
            then modify_axis C i recovered >> pure true
            else modify_axis C i not_recovered >> pure false)
        lost

  unfoldable pub reopened : ℕ → Axis → Option ℕ → Io C Bool
  unfolding recover
  reopened i a none g =
      (set_conn_status C false (C.error_text g.lib) >> pure false)
        (record g { channel_fd = none; last_reconnect = C.now g.lib })
  reopened i a (some fd) g =
      (set_conn_status C true [] >> and_then C (call C (C.select_channel fd)) (recover i a))
        (record g { channel_fd = some fd; last_reconnect = C.now g.lib })

  -- Tiers 2 and 3.
  unfoldable pub reconnect : ℕ → Axis → ℕ → Io C Bool
  unfolding reopened
  reconnect i a fd g =
      if ltb (C.now g.lib - g.last_reconnect) 3000 && ltb 0 (g.last_reconnect / 1000)
      then (false, g)
      else (do act C (C.close_channel fd); new ← call C C.open_channel; reopened i a new) g

  unfoldable pub choose : ℕ → Axis → Io C Bool
  choose i a = do
    ok ← call C (C.select_axis a.axis_id)
    if ok then pure true else modify_axis C i lost_selection >> pure false

  unfoldable pub select_with : ℕ → Axis → Option ℕ → Io C Bool
  unfolding select_retry reconnect choose
  select_with i a none = pure false
  select_with i a (some fd) = do ok ← select_retry 3 fd; if ok then choose i a else reconnect i a fd

  unfoldable pub select_of : ℕ → Option Axis → Io C Bool
  unfolding select_with
  select_of i none g = (false, g)
  select_of i (some a) g = if a.configured then select_with i a g.channel_fd g else (false, g)

  -- `selectAxis`.
  unfoldable pub select_axis : ℕ → Io C Bool
  unfolding select_of
  select_axis i g = select_of i (get_elem? g.axes i) g

  unfoldable pub opened_again : Option ℕ → Io C Bool
  opened_again none g = (set_conn_status C false (C.error_text g.lib) >> pure false) g
  opened_again (some fd) g =
      (set_conn_status C true [] >> pure true)
        (record g { channel_fd = some fd; axes = mark_all g.axes })

  unfoldable pub ensure_open : Option ℕ → Io C Bool
  unfolding opened_again
  ensure_open (some fd) g = (true, g)
  ensure_open none g =
      if ltb 0 (g.last_reconnect / 1000) && ltb (C.now g.lib - g.last_reconnect) 10000
      then (false, g)
      else (do new ← call C C.open_channel; opened_again new)
          (record g { last_reconnect = C.now g.lib })

  -- `ensureChannel`, the controller's poll.
  unfoldable pub ensure_channel : Io C Bool
  unfolding ensure_open
  ensure_channel g = ensure_open g.channel_fd g
