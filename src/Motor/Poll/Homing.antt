-- ===== src/Motor/Poll/Homing.antt =====
-- When TmlAxis::poll ends a homing run, and what it reports while a stop is pending.
use mathlib.Core.Path.{subst}
use technosoft_tml_motor.Prelude.{
  ℕ, ◌≡◌, inl, inr, refl, sym, ap, ◌∙◌, true, false, Option, none, some, get_elem?, if_cases, ltb,
  arith,
}
use technosoft_tml_motor.Prelude.Int.{ℤ}
use technosoft_tml_motor.Motor.Calls.{Calls}
use technosoft_tml_motor.Motor.Axis.{Axis, Controller, Io, call, modify_axis, update_at}
use technosoft_tml_motor.Motor.Select.{with_setup_idx, reinit_axis, select_axis}
use technosoft_tml_motor.Motor.Select.Alike.{
  with_setup_idx-Alike, Alike-refl, Alike-trans, Each, Each-trans, Each-update_at,
}
use technosoft_tml_motor.Motor.Select.Even.{reinit_axis-Evens, select_axis-Evens}
use technosoft_tml_motor.Motor.Poll.Ready.{Noted, reinit_axis-Noted}
use technosoft_tml_motor.Motor.Poll.Backoff.{get_elem?-update_at}
use technosoft_tml_motor.Motor.Poll.{
  Polled, PollReads, without_channel, waited, reinit_failed, reinit_done, comms_lost, comms_failed,
  counted, take_reads, report_reads, poll_axis, poll_selected, poll_ready, poll_reinit, poll_of,
  poll,
}
use technosoft_tml_motor.Motor.Poll.Notes.{
  counted-Alike, comms_failed-Alike, comms_lost-Alike, without_channel-Alike, waited-Alike,
  reinit_done-Alike, reinit_failed-Alike,
}
use technosoft_tml_motor.Motor.Poll.Fair.{failed-Fair}
use technosoft_tml_motor.Motor.Poll.Reports.{
  Polls, failed-Polls, aside-Polls, Polls-after, report-Polls, take_reads_axes,
}

module _ {R : Type 0} (C : Calls R) where
  lost-Polls :
      (i : ℕ) (a : Axis) (g : Controller C)
      → get_elem? g.axes i ≡ some (counted a)
      → Polls C i a ((false, false), (modify_axis C i comms_failed g).1)
  lost-Polls i a g here = record {
    axis = comms_failed (counted a);
    here = get_elem?-update_at g.axes i (counted a) comms_failed here;
    fair =
        failed-Fair a (comms_failed (counted a))
          (Alike-trans a (counted a) _ (counted-Alike a) (comms_failed-Alike (counted a)));
  }

  report_reads-Polls :
      (i : ℕ) (a : Axis) (r : PollReads) (p : Option ℤ) (v : Option ℕ) (g : Controller C)
      → get_elem? g.axes i ≡ some (counted a)
      → Polls C i a (report_reads C i a r p v g)
  unfolding report_reads
  report_reads-Polls i a r none v g here = lost-Polls i a g here
  report_reads-Polls i a r (some p) none g here = lost-Polls i a g here
  report_reads-Polls i a r (some p) (some v) g here =
      report-Polls C i a
        (record {
          tpos = p;
          apos = r.apos;
          srl = v;
          srh = r.reg_srh;
          mer = r.reg_mer;
          slow = r.slow;
        })
        g here

  poll_axis-Polls :
      (i : ℕ) (a : Axis) (o : Option Axis) (g : Controller C)
      → get_elem? g.axes i ≡ o
      → o ≡ some a
      → Polls C i a (poll_axis C i o g)
  unfolding poll_axis
  poll_axis-Polls i a none g here e = absurd (cc e)
  poll_axis-Polls i a (some b) g here e =
      let same : b ≡ a = ground (arith, e) in
      let (r, g₁) = take_reads C i b g in
      let read : get_elem? g₁.axes i ≡ some (counted b) =
        ap (λ t. get_elem? t i) (take_reads_axes C i b g)
        ∙ get_elem?-update_at g.axes i b counted here in
      subst (λ c. Polls C i c (poll_axis C i (some b) g)) same
        (report_reads-Polls i b r r.tpos r.reg_srl g₁ read)

  poll_ready-Polls :
      (i : ℕ) (a : Axis) (g : Controller C)
      → get_elem? g.axes i ≡ some a
      → Polls C i a (poll_ready C i g)
  unfolding poll_ready poll_selected
  poll_ready-Polls i a g here =
      let (ok, g₁) = select_axis C i g in
      let all : Each g.axes g₁.axes = select_axis-Evens C i g in
      if_cases (λ (m : Io C Polled). Polls C i a (m g₁)) ok _ _
        (λ _.
          Polls-after C i a g g₁ _ here all
            (λ b found. poll_axis-Polls i b (get_elem? g₁.axes i) g₁ refl found))
        (λ _.
          failed-Polls C i a g (modify_axis C i comms_lost g₁).1 here (
            Each-trans g.axes g₁.axes _ all (Each-update_at comms_lost g₁.axes i comms_lost-Alike)))

  reinit_failed-Polls :
      (i : ℕ) (a : Axis) (g g' : Controller C) (o : Option ℕ)
      → get_elem? g.axes i ≡ some a
      → a.needs_reinit ≡ true
      → g'.axes ≡ update_at g.axes i (with_setup_idx o)
      → Polls C i a ((true, false), (modify_axis C i reinit_failed g').1)
  unfolding reinit_failed
  reinit_failed-Polls i a g g' o here due same =
      let b : Axis = with_setup_idx o a in
      let found : get_elem? g'.axes i ≡ some b =
        ap (λ t. get_elem? t i) same ∙ get_elem?-update_at g.axes i a (with_setup_idx o) here in
      aside-Polls C i a (reinit_failed b) (modify_axis C i reinit_failed g').1
        (get_elem?-update_at g'.axes i b reinit_failed found)
        (Alike-trans a b _ (with_setup_idx-Alike o a) (reinit_failed-Alike b)) (inr due)

  poll_reinit-Polls :
      (i : ℕ) (a : Axis) (fd : Option ℕ) (g : Controller C)
      → get_elem? g.axes i ≡ some a
      → a.needs_reinit ≡ true
      → Polls C i a (poll_reinit C i a fd g)
  unfolding poll_reinit
  poll_reinit-Polls i a none g here due =
      aside-Polls C i a (without_channel a) (modify_axis C i without_channel g).1
        (get_elem?-update_at g.axes i a without_channel here) (without_channel-Alike a) (inr due)
  poll_reinit-Polls i a (some fd) g here due =
      if_cases (λ (m : Io C Polled). Polls C i a (m g)) (ltb 0 a.countdown) _ _
        (λ _.
          aside-Polls C i a (waited a) (modify_axis C i waited g).1
            (get_elem?-update_at g.axes i a waited here) (waited-Alike a) (inr due))
        (λ _.
          let g₁ = (call C (C.select_channel fd) g).1 in
          let noted : Noted C i g₁ (reinit_axis C i a g₁) = reinit_axis-Noted C i a g₁ here in
          let (ok, g₂) = reinit_axis C i a g₁ in
          let all : Each g.axes g₂.axes = reinit_axis-Evens C i a g₁ in
          let g₃ = (modify_axis C i reinit_done g₂).1 in
          if_cases (λ (m : Io C Polled). Polls C i a (m g₂)) ok _ _
            (λ _.
              Polls-after C i a g g₃ _ here
                (Each-trans g.axes g₂.axes _ all
                  (Each-update_at reinit_done g₂.axes i reinit_done-Alike))
                (λ b found. poll_ready-Polls i b g₃ found))
            (λ _. reinit_failed-Polls i a g g₂ noted.idx here due noted.axes))

  poll_of-Polls :
      (i : ℕ) (a : Axis) (g : Controller C)
      → get_elem? g.axes i ≡ some a
      → Polls C i a (poll_of C i (some a) g)
  unfolding poll_of
  poll_of-Polls i a g here =
      if_cases (λ (r : Polled × Controller C). Polls C i a r) a.configured _ ((true, false), g)
        (λ _.
          if_cases (λ (r : Polled × Controller C). Polls C i a r) a.needs_reinit _
            (poll_ready C i g) (λ due. poll_reinit-Polls i a g.channel_fd g here due)
            (λ _. poll_ready-Polls i a g here))
        (λ off. aside-Polls C i a a g here (Alike-refl a) (inl off))

  -- A poll, whatever the library answers, ends the homing run of an axis only if the SRL that it
  -- publishes says motion complete or a stop was pending, and only if motion was seen by an
  -- earlier poll or the MER that it publishes has the limit switch that the run goes towards; the
  -- axis is then homed, at home and at position 0. A successful poll lets the run go on only if
  -- the axis is not configured or is due for its reinitialisation, or that SRL does not say
  -- complete, or neither motion was seen nor that switch is set. No poll begins a homing run or
  -- notes a stop, and a poll that leaves a stop noted reports the axis as not moving.
  pub poll-Polls :
      (i : ℕ) (a : Axis) (g : Controller C) → get_elem? g.axes i ≡ some a → Polls C i a (poll C i g)
  unfolding poll
  poll-Polls i a g here =
      subst (λ o. Polls C i a (poll_of C i o g)) (sym here) (poll_of-Polls i a g here)
