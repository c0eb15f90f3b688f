-- ===== src/Motor/Poll/Ready.antt =====
-- Setups and delays of the axes across poll.
use technosoft_tml_motor.Prelude.{
  ℕ, zero, suc, ◌≤◌, ◌≡◌, refl, sym, ap, ◌∙◌, Bool, true, false, ◌||◌, Option, none, some, List, [],
  ◌∷◌, All, get_elem?, if_cases, ◌==◌, ltb, ◌%◌, codes, arith,
}
use technosoft_tml_motor.Prelude.Int.{ℤ}
use technosoft_tml_motor.Motor.Calls.{Calls, srl, mer}
use technosoft_tml_motor.Motor.Axis.{Axis, Controller, Io, call, modify_axis, update_at}
use technosoft_tml_motor.Motor.Select.{
  bit_set, value_or_0, with_setup_idx, load_once, set_up, reinit_axis, select_axis,
}
use technosoft_tml_motor.Motor.Select.Ready.{
  Ready, Paced, All-update_at, update_at_twice, Readies, set_up-Keeps, set_up-needs_idx,
}
use technosoft_tml_motor.Motor.Select.SelectReady.{select_axis-Ready}
use technosoft_tml_motor.Motor.Decode.{Readings, decode, finishes, homed_at_zero}
use technosoft_tml_motor.Motor.Poll.{
  Polled, PollReads, next_backoff, without_channel, waited, reinit_failed, reinit_done, comms_lost,
  comms_failed, counted, read_slow, read_srh, read_when_slow, take_reads, finish_homing, report,
  report_reads, poll_axis, poll_selected, poll_ready, poll_reinit, poll_of, poll,
}

pub All-get_elem? :
    (P : Axis → Type 0) (xs : List Axis) (i : ℕ) (a : Axis)
    → get_elem? xs i ≡ some a
    → All P xs
    → P a
All-get_elem? P [] i a e all = absurd (ground (arith, e))
All-get_elem? P (x ∷ xs) zero a e all = let same : x ≡ a = ground (arith, e) in rw (← same) all.0
All-get_elem? P (x ∷ xs) (suc i) a e all = All-get_elem? P xs i a e all.1

next_backoff-le : (b : ℕ) → next_backoff b ≤ 30
unfolding next_backoff
next_backoff-le b = ground arith

update_at-known :
    (P : Axis → Type 0) (f : Axis → Axis) (xs : List Axis) (i : ℕ) (a : Axis)
    → get_elem? xs i ≡ some a
    → P (f a)
    → All P xs
    → All P (update_at xs i f)
update_at-known P f [] i a e h all = all
update_at-known P f (x ∷ xs) zero a e h all =
    let same : x ≡ a = ground (arith, e) in (rw same h, all.1)
update_at-known P f (x ∷ xs) (suc i) a e h all = (all.0, update_at-known P f xs i a e h all.1)

update_at-same :
    (f : Axis → Axis) (xs : List Axis) (i : ℕ) (a : Axis)
    → get_elem? xs i ≡ some a
    → f a ≡ a
    → update_at xs i f ≡ xs
update_at-same f [] i a e h = refl
update_at-same f (x ∷ xs) zero a e h =
    let same : x ≡ a = ground (arith, e) in ap (λ t. t ∷ xs) (ap f same ∙ h ∙ sym same)
update_at-same f (x ∷ xs) (suc i) a e h = ap (◌∷◌ x) (update_at-same f xs i a e h)

module _ {R : Type 0} (C : Calls R) where
  -- reinitAxis notes the index of its setup, and needs one to succeed.
  pub record Noted (i : ℕ) (g : Controller C) (r : Bool × Controller C) : Type 0 where
    pub idx : Option ℕ
    pub needed : r.0 ≡ true → (k : ℕ) × (idx ≡ some k)
    pub axes : r.1.axes ≡ update_at g.axes i (with_setup_idx idx)

  load_once-Noted :
      (i : ℕ) (a : Axis) (o : Option ℕ) (g : Controller C)
      → get_elem? g.axes i ≡ some a
      → a.setup_idx ≡ o
      → let (idx, g') = load_once C i a o g in Noted i g (set_up C a idx g')
  unfolding load_once
  load_once-Noted i a none g here e =
      let (idx, g') = load_once C i a none g in
      record { idx = idx; needed = set_up-needs_idx C a idx g'; axes = set_up-Keeps C a idx g' }
  load_once-Noted i a (some k) g here e = record {
    idx = some k;
    needed = set_up-needs_idx C a (some k) g;
    axes =
        set_up-Keeps C a (some k) g
        ∙ sym (
            update_at-same (with_setup_idx (some k)) g.axes i a here
              (ap (λ o. with_setup_idx o a) (sym e)));
  }

  pub reinit_axis-Noted :
      (i : ℕ) (a : Axis) (g : Controller C)
      → get_elem? g.axes i ≡ some a
      → Noted i g (reinit_axis C i a g)
  unfolding reinit_axis
  reinit_axis-Noted i a g here = load_once-Noted i a a.setup_idx g here refl

  read_srh-Readies : (v : ℕ) → Readies C (read_srh C v)
  unfolding read_srh
  read_srh-Readies v g h =
      if_cases (λ (r : ℕ × Controller C). All Ready r.1.axes) (bit_set v 8 || bit_set v 9) _ (0, g)
        (λ _. h) (λ _. h)

  read_when_slow-Readies : (count : ℕ) → Readies C (read_when_slow C count)
  unfolding read_when_slow read_slow
  read_when_slow-Readies count g h =
      if_cases (λ (r : _ × Controller C). All Ready r.1.axes) (count % 10 == 0) _ (none, g) (λ _. h)
        (λ _. h)

  take_reads-Readies : (i : ℕ) (a : Axis) → Readies C (take_reads C i a)
  unfolding take_reads
  take_reads-Readies i a g h =
      let g₂ =
        (call C (C.get_long_variable (codes "APOS"))
          (call C (C.get_long_variable (codes "TPOS")) g).1).1 in
      let (v, g₃) = call C (C.read_status srl) g₂ in
      let g₄ = (call C (C.read_status mer) g₃).1 in
      let g₅ = (read_srh C (value_or_0 v) g₄).1 in
      let g₆ = (read_when_slow C a.poll_count g₅).1 in
      All-update_at Ready counted g₆.axes i (λ x q. q)
        (read_when_slow-Readies a.poll_count g₅ (read_srh-Readies (value_or_0 v) g₄ h))

  finish_homing-Readies : (i : ℕ) (b : Bool) → Readies C (finish_homing C i b)
  unfolding finish_homing
  finish_homing-Readies i false g h = h
  finish_homing-Readies i true g h =
      All-update_at Ready homed_at_zero (select_axis C i g).1.axes i (λ x r. r)
        (select_axis-Ready C i g h)

  report-Readies : (i : ℕ) (a : Axis) (r : Readings) → Readies C (report C i a r)
  unfolding report decode
  report-Readies i a r g h =
      let g₁ = (modify_axis C i (decode r) g).1 in
      finish_homing-Readies i (finishes r a) g₁
        (All-update_at Ready (decode r) g.axes i (λ x q. q) h)

  report_reads-Readies :
      (i : ℕ) (a : Axis) (r : PollReads) (p : Option ℤ) (v : Option ℕ)
      → Readies C (report_reads C i a r p v)
  unfolding report_reads
  report_reads-Readies i a r none v g h = All-update_at Ready comms_failed g.axes i (λ x q. q) h
  report_reads-Readies i a r (some p) none g h =
      All-update_at Ready comms_failed g.axes i (λ x q. q) h
  report_reads-Readies i a r (some p) (some v) g h =
      report-Readies i a
        (record {
          tpos = p;
          apos = r.apos;
          srl = v;
          srh = r.reg_srh;
          mer = r.reg_mer;
          slow = r.slow;
        })
        g h

  poll_axis-Readies : (i : ℕ) (o : Option Axis) → Readies C (poll_axis C i o)
  unfolding poll_axis
  poll_axis-Readies i none g h = h
  poll_axis-Readies i (some a) g h =
      let (r, g₁) = take_reads C i a g in
      report_reads-Readies i a r r.tpos r.reg_srl g₁ (take_reads-Readies i a g h)

  poll_ready-Readies : (i : ℕ) → Readies C (poll_ready C i)
  unfolding poll_ready poll_selected
  poll_ready-Readies i g h =
      let (ok, g₁) = select_axis C i g in
      let h₁ : All Ready g₁.axes = select_axis-Ready C i g h in
      if_cases (λ (m : Io C Polled). All Ready (m g₁).1.axes) ok _ _
        (λ _. poll_axis-Readies i (get_elem? g₁.axes i) g₁ h₁)
        (λ _. All-update_at Ready comms_lost g₁.axes i (λ x q. q) h₁)

  poll_reinit-Readies :
      (i : ℕ) (a : Axis) (fd : Option ℕ) (g : Controller C)
      → get_elem? g.axes i ≡ some a
      → a.needs_reinit ≡ true
      → All Ready g.axes
      → All Ready (poll_reinit C i a fd g).1.axes
  unfolding poll_reinit reinit_failed
  poll_reinit-Readies i a none g here due h =
      All-update_at Ready without_channel g.axes i (λ x q. q) h
  poll_reinit-Readies i a (some fd) g here due h =
      if_cases (λ (m : Io C Polled). All Ready (m g).1.axes) (ltb 0 a.countdown) _ _
        (λ _. All-update_at Ready waited g.axes i (λ x q. (q.0, (omega (arith, q.1.0), q.1.1))) h)
        (λ _.
          let g₁ = (call C (C.select_channel fd) g).1 in
          let noted : Noted i g₁ (reinit_axis C i a g₁) = reinit_axis-Noted i a g₁ here in
          let paced : Paced a = (All-get_elem? Ready g.axes i a here h).1 in
          let (ok, g₂) = reinit_axis C i a g₁ in
          let whole : (f : Axis → Axis)
              → update_at g₂.axes i f ≡ update_at g.axes i (λ x. f (with_setup_idx noted.idx x)) =
            λ f.
              ap (λ t. update_at t i f) noted.axes
              ∙ update_at_twice (with_setup_idx noted.idx) f g.axes i in
          if_cases (λ (m : Io C Polled). All Ready (m g₂).1.axes) ok _ _
            (λ e. poll_ready-Readies i (modify_axis C i reinit_done g₂).1 (
              rw (whole reinit_done) (
                update_at-known Ready _ g.axes i a here
                  ((λ _ _. noted.needed e), (omega arith, omega (arith, paced.1))) h)))
            (λ _. rw (whole reinit_failed) (
              update_at-known Ready _ g.axes i a here
                ((λ _ bad. absurd (cc (bad, due))), (paced.1, next_backoff-le a.backoff)) h)))

  poll_of-Readies :
      (i : ℕ) (o : Option Axis) (g : Controller C)
      → get_elem? g.axes i ≡ o
      → All Ready g.axes
      → All Ready (poll_of C i o g).1.axes
  unfolding poll_of
  poll_of-Readies i none g here h = h
  poll_of-Readies i (some a) g here h =
      if_cases (λ (r : Polled × Controller C). All Ready r.1.axes) a.configured _ ((true, false), g)
        (λ _.
          if_cases (λ (r : Polled × Controller C). All Ready r.1.axes) a.needs_reinit _
            (poll_ready C i g) (λ due. poll_reinit-Readies i a g.channel_fd g here due h)
            (λ _. poll_ready-Readies i g h))
        (λ _. h)

  pub poll-Ready : (i : ℕ) (g : Controller C) → All Ready g.axes → All Ready (poll C i g).1.axes
  unfolding poll
  poll-Ready i g h = poll_of-Readies i (get_elem? g.axes i) g refl h
