-- ===== src/Motor/Ownership/Polls.antt =====
-- The driver's channel across poll.
use technosoft_tml_motor.Prelude.{
  ℕ, ◌%◌, ◌||◌, Bool, true, false, Option, none, some, get_elem?, if_cases, ltb, ◌==◌, codes,
}
use technosoft_tml_motor.Prelude.Int.{ℤ, pos}
use technosoft_tml_motor.Motor.Calls.{Calls, srl, mer, srh}
use technosoft_tml_motor.Motor.Axis.{Axis, Slow, Controller, call, modify_axis}
use technosoft_tml_motor.Motor.Select.{bit_set, value_or_0, reinit_axis, select_axis}
use technosoft_tml_motor.Motor.Decode.{Readings, decode, finishes}
use technosoft_tml_motor.Motor.Poll.{
  Polled, PollReads, reinit_done, read_slow, read_srh, read_when_slow, take_reads, finish_homing,
  report, report_reads, poll_axis, poll_selected, poll_ready, poll_reinit, poll_of, poll,
}
use technosoft_tml_motor.Motor.Ownership.{Ownership, Owned, Owning, choice-Owning}
use technosoft_tml_motor.Motor.Ownership.Selection.{reinit_axis-Owning, select_axis-Owning}

module _ {R : Type 0} {C : Calls R} (O : Ownership C) where
  read_slow-Owning : Owning O (read_slow C)
  unfolding read_slow
  read_slow-Owning g h = O.gets_int _ _ _ (
      O.gets_int _ _ _
        (O.gets_int _ _ _ (O.gets_long _ _ _ (O.reads _ _ _ (O.reads _ _ _ (O.reads _ _ _ h))))))

  read_srh-Owning : (v : ℕ) → Owning O (read_srh C v)
  unfolding read_srh
  read_srh-Owning v g h =
      if_cases (λ (r : ℕ × Controller C). Owned O r.1) (bit_set v 8 || bit_set v 9) _ _
        (λ _. O.reads srh _ _ h) (λ _. h)

  read_when_slow-Owning : (count : ℕ) → Owning O (read_when_slow C count)
  unfolding read_when_slow
  read_when_slow-Owning count g h =
      if_cases (λ (r : Option Slow × Controller C). Owned O r.1) (count % 10 == 0) _ _
        (λ _. read_slow-Owning g h) (λ _. h)

  take_reads-Owning : (i : ℕ) (a : Axis) → Owning O (take_reads C i a)
  unfolding take_reads
  take_reads-Owning i a g h =
      let (_, g₁) = call C (C.get_long_variable (codes "TPOS")) g in
      let (_, g₂) = call C (C.get_long_variable (codes "APOS")) g₁ in
      let (v, g₃) = call C (C.read_status srl) g₂ in
      let (_, g₄) = call C (C.read_status mer) g₃ in
      let (_, g₅) = read_srh C (value_or_0 v) g₄ in
      read_when_slow-Owning a.poll_count g₅ (
        read_srh-Owning (value_or_0 v) g₄
          (O.reads _ _ _ (O.reads _ _ _ (O.gets_long _ _ _ (O.gets_long _ _ _ h)))))

  finish_homing-Owning : (i : ℕ) (now : Bool) → Owning O (finish_homing C i now)
  unfolding finish_homing
  finish_homing-Owning i false g h = h
  finish_homing-Owning i true g h =
      O.clears _ _ (O.sets_position (pos 0) _ _ (select_axis-Owning O i g h))

  report-Owning : (i : ℕ) (a : Axis) (r : Readings) → Owning O (report C i a r)
  unfolding report
  report-Owning i a r g h = finish_homing-Owning i (finishes r a) (modify_axis C i (decode r) g).1 h

  report_reads-Owning :
      (i : ℕ) (a : Axis) (r : PollReads) (p : Option ℤ) (v : Option ℕ)
      → Owning O (report_reads C i a r p v)
  unfolding report_reads
  report_reads-Owning i a r none v g h = h
  report_reads-Owning i a r (some p) none g h = h
  report_reads-Owning i a r (some p) (some v) g h =
      report-Owning i a
        (record {
          tpos = p;
          apos = r.apos;
          srl = v;
          srh = r.reg_srh;
          mer = r.reg_mer;
          slow = r.slow;
        })
        g h

  poll_axis-Owning : (i : ℕ) (o : Option Axis) → Owning O (poll_axis C i o)
  unfolding poll_axis
  poll_axis-Owning i none g h = h
  poll_axis-Owning i (some a) g h =
      let (r, g₁) = take_reads C i a g in
      report_reads-Owning i a r r.tpos r.reg_srl g₁ (take_reads-Owning i a g h)

  poll_selected-Owning : (i : ℕ) → Owning O (poll_selected C i)
  unfolding poll_selected
  poll_selected-Owning i g h = poll_axis-Owning i (get_elem? g.axes i) g h

  poll_ready-Owning : (i : ℕ) → Owning O (poll_ready C i)
  unfolding poll_ready
  poll_ready-Owning i g h =
      let (ok, g₁) = select_axis C i g in
      choice-Owning O ok (poll_selected C i) _ (poll_selected-Owning i) (λ g h. h) g₁
        (select_axis-Owning O i g h)

  poll_reinit-Owning : (i : ℕ) (a : Axis) (fd : Option ℕ) → Owning O (poll_reinit C i a fd)
  unfolding poll_reinit
  poll_reinit-Owning i a none g h = h
  poll_reinit-Owning i a (some fd) g h =
      choice-Owning O (ltb 0 a.countdown) _ _ (λ g h. h)
        (λ g h.
          let (_, g₁) = call C (C.select_channel fd) g in
          let (ok, g₂) = reinit_axis C i a g₁ in
          choice-Owning O ok _ _ (λ g h. poll_ready-Owning i (modify_axis C i reinit_done g).1 h)
            (λ g h. h) g₂ (reinit_axis-Owning O i a g₁ (O.selects fd _ _ h)))
        g h

  poll_of-Owning : (i : ℕ) (o : Option Axis) → Owning O (poll_of C i o)
  unfolding poll_of
  poll_of-Owning i none g h = h
  poll_of-Owning i (some a) g h =
      if_cases (λ (r : Polled × Controller C). Owned O r.1) a.configured _ ((true, false), g)
        (λ _.
          if_cases (λ (r : Polled × Controller C). Owned O r.1) a.needs_reinit
            (poll_reinit C i a g.channel_fd g) (poll_ready C i g)
            (λ _. poll_reinit-Owning i a g.channel_fd g h) (λ _. poll_ready-Owning i g h))
        (λ _. h)

  pub poll-Owning : (i : ℕ) → Owning O (poll C i)
  unfolding poll
  poll-Owning i g h = poll_of-Owning i (get_elem? g.axes i) g h
