-- ===== src/Motor/Poll.antt =====
-- `TmlAxis::poll`: the retries of a setup that failed, the reads, and the end of homing.
pub mod Backoff
pub mod Ready
pub mod Fair
pub mod Notes
pub mod Reports
pub mod Homing
use technosoft_tml_motor.Prelude.{
  ℕ, zero, suc, ◌+◌, ◌-◌, ◌*◌, ◌%◌, Bool, true, false, ◌||◌, Option, none, some, [], get_elem?,
  if◌then◌else◌, ◌==◌, ltb, codes,
}
use technosoft_tml_motor.Prelude.Int.{ℤ, pos}
use technosoft_tml_motor.Prelude.State.{State, ◌>>=◌, ◌>>◌, pure}
use technosoft_tml_motor.Motor.Calls.{Calls, mcr, msr, isr, srl, srh, mer}
use technosoft_tml_motor.Motor.Axis.{Axis, Params, Slow, Controller, Io, call, act, modify_axis}
use technosoft_tml_motor.Motor.Select.{
  ensure_channel, bit_set, value_or_0, reinit_axis, select_axis,
}
use technosoft_tml_motor.Motor.Decode.{Readings, decode, finishes, homed_at_zero}

-- The notes of a poll that does not get to the status.
abbrev pub without_channel : Axis → Axis
without_channel a = record a {
  params = record (a.params) {
    active = false;
    comms_error = true;
    fault_text = codes "Channel not connected";
  };
}

abbrev pub waited : Axis → Axis
waited a = record a {
  countdown = a.countdown - 1;
  params = record (a.params) { comms_error = true };
}

-- The next delay: twice as long, and 30 at most.
unfoldable pub next_backoff : ℕ → ℕ
next_backoff b =
    let doubled = if ltb b 30 then b * 2 else b in if ltb 30 doubled then 30 else doubled

unfoldable pub reinit_failed : Axis → Axis
unfolding next_backoff
reinit_failed a = record a {
  countdown = a.backoff;
  backoff = next_backoff a.backoff;
  params = record (a.params) { comms_error = true };
}

abbrev pub reinit_done : Axis → Axis
reinit_done a = record a {
  needs_reinit = false;
  activated = true;
  params = record (a.params) { active = true; comms_error = false; fault_text = [] };
}

abbrev pub comms_lost : Axis → Axis
comms_lost a = record a {
  activated = false;
  powered = false;
  params = record (a.params) { active = false; comms_error = true; power_on = false };
}

abbrev pub comms_failed : Axis → Axis
comms_failed a = record a { params = record (a.params) { comms_error = true } }

abbrev pub counted : Axis → Axis
counted a = record a { poll_count = a.poll_count + 1 }

abbrev pub or_zero : Option ℤ → ℤ
or_zero none = pos 0
or_zero (some z) = z

-- The results of a poll: its status, and `*moving`.
abbrev pub Polled : Type 0
Polled = Bool × Bool

-- What the reads of one poll gave, failures included.
pub record PollReads : Type 0 where
  pub tpos : Option ℤ
  pub apos : Option ℤ
  pub reg_srl : Option ℕ
  pub reg_mer : ℕ
  pub reg_srh : ℕ
  pub slow : Option Slow

module _ {R : Type 0} (C : Calls R) where
  unfoldable pub read_slow : Io C Slow
  read_slow = do
    reg_mcr ← call C (C.read_status mcr)
    reg_msr ← call C (C.read_status msr)
    reg_isr ← call C (C.read_status isr)
    cspd ← call C (C.get_long_variable (codes "CSPD"))
    potm ← call C (C.get_int_variable (codes "POTM"))
    enable_off ← call C (C.get_int_variable (codes "ENABLE_OFF"))
    pcr ← call C (C.get_int_variable (codes "PCR"))
    pure (record {
      reg_mcr = value_or_0 reg_mcr;
      reg_msr = value_or_0 reg_msr;
      reg_isr = value_or_0 reg_isr;
      cspd = or_zero cspd;
      potm = or_zero potm;
      enable_off = or_zero enable_off;
      pcr = or_zero pcr;
    })

  -- SRH is read when SRL shows a fault.
  unfoldable pub read_srh : ℕ → Io C ℕ
  read_srh v g =
      if bit_set v 8 || bit_set v 9
      then (do w ← call C (C.read_status srh); pure (value_or_0 w)) g
      else (0, g)

  unfoldable pub read_when_slow : ℕ → Io C (Option Slow)
  unfolding read_slow
  read_when_slow count g =
      if count % 10 == 0 then (do s ← read_slow; pure (some s)) g else (none, g)

  unfoldable pub take_reads : ℕ → Axis → Io C PollReads
  unfolding read_srh read_when_slow
  take_reads i a = do
    tpos ← call C (C.get_long_variable (codes "TPOS"))
    apos ← call C (C.get_long_variable (codes "APOS"))
    reg_srl ← call C (C.read_status srl)
    reg_mer ← call C (C.read_status mer)
    reg_srh ← read_srh (value_or_0 reg_srl)
    slow ← read_when_slow a.poll_count
    modify_axis C i counted
    pure (record {
      tpos = tpos;
      apos = apos;
      reg_srl = reg_srl;
      reg_mer = value_or_0 reg_mer;
      reg_srh = reg_srh;
      slow = slow;
    })

  -- The zero position at the end of homing; none of its results is looked at.
  unfoldable pub finish_homing : ℕ → Bool → Io C (Unit {0})
  unfolding select_axis
  finish_homing i false = pure tt
  finish_homing i true = do
    select_axis C i
    call C (C.set_position (pos 0))
    act C C.clear_limit_switch_event
    modify_axis C i homed_at_zero

  unfoldable pub report : ℕ → Axis → Readings → Io C Polled
  unfolding decode finishes finish_homing
  report i a r = do
    modify_axis C i (decode r)
    finish_homing i (finishes r a)
    pure (true, (decode r a).params.is_moving)

  unfoldable pub report_reads : ℕ → Axis → PollReads → Option ℤ → Option ℕ → Io C Polled
  unfolding report
  report_reads i a r none v = modify_axis C i comms_failed >> pure (false, false)
  report_reads i a r (some p) none = modify_axis C i comms_failed >> pure (false, false)
  report_reads i a r (some p) (some v) =
      report i a (record {
        tpos = p;
        apos = r.apos;
        srl = v;
        srh = r.reg_srh;
        mer = r.reg_mer;
        slow = r.slow;
      })

  unfoldable pub poll_axis : ℕ → Option Axis → Io C Polled
  unfolding take_reads report_reads
  poll_axis i none = pure (false, false)
  poll_axis i (some a) = do r ← take_reads i a; report_reads i a r r.tpos r.reg_srl

  unfoldable pub poll_selected : ℕ → Io C Polled
  unfolding poll_axis
  poll_selected i g = poll_axis i (get_elem? g.axes i) g

  unfoldable pub poll_ready : ℕ → Io C Polled
  unfolding select_axis poll_selected
  poll_ready i = do
    ok ← select_axis C i
    if ok then poll_selected i else modify_axis C i comms_lost >> pure (false, false)

  unfoldable pub poll_reinit : ℕ → Axis → Option ℕ → Io C Polled
  unfolding reinit_axis poll_ready reinit_failed
  poll_reinit i a none = modify_axis C i without_channel >> pure (true, false)
  poll_reinit i a (some fd) =
      if ltb 0 a.countdown then modify_axis C i waited >> pure (true, false) else do
        call C (C.select_channel fd)
        ok ← reinit_axis C i a
        if ok
            then modify_axis C i reinit_done >> poll_ready i
            else modify_axis C i reinit_failed >> pure (true, false)

  unfoldable pub poll_of : ℕ → Option Axis → Io C Polled
  unfolding poll_reinit poll_ready
  poll_of i none g = ((true, false), g)
  poll_of i (some a) g =
      if a.configured
      then if a.needs_reinit then poll_reinit i a g.channel_fd g else poll_ready i g
      else ((true, false), g)

  unfoldable pub poll : ℕ → Io C Polled
  unfolding poll_of
  poll i g = poll_of i (get_elem? g.axes i) g

  -- `TmlController::poll`, which the poller calls before those of the axes.
  abbrev pub poll_controller : Io C Bool
  poll_controller = do ensure_channel C; pure true
