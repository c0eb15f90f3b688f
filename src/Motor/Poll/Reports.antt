-- ===== src/Motor/Poll/Reports.antt =====
-- What the end of TmlAxis::poll does to a homing run and to a stop, from the reads on.
use technosoft_tml_motor.Prelude.{
  ℕ, ◌%◌, ◌≡◌, inl, inr, refl, ap, ◌∙◌, true, false, ◌||◌, none, some, get_elem?, if_cases,
  Bool-cases, ◌==◌, codes,
}
use technosoft_tml_motor.Motor.Calls.{Calls, srl, mer}
use technosoft_tml_motor.Motor.Axis.{Axis, Controller, call, modify_axis, update_at}
use technosoft_tml_motor.Motor.Select.{bit_set, value_or_0, select_axis}
use technosoft_tml_motor.Motor.Select.Alike.{Alike, Each, Each-get_elem?}
use technosoft_tml_motor.Motor.Select.Even.{select_axis-Evens}
use technosoft_tml_motor.Motor.Decode.{Readings, decode, published, finishes, homed_at_zero}
use technosoft_tml_motor.Motor.Poll.Backoff.{get_elem?-update_at}
use technosoft_tml_motor.Motor.Poll.{
  Polled, counted, read_slow, read_srh, read_when_slow, take_reads, finish_homing, report,
}
use technosoft_tml_motor.Motor.Poll.Notes.{counted-Alike}
use technosoft_tml_motor.Motor.Poll.Fair.{
  Fair, failed-Fair, aside-Fair, IsAside, Fair-after, not_finished-Fair, finished-Fair,
}

module _ {R : Type 0} (C : Calls R) where
  -- What a poll makes of the axis `i`.
  pub record Polls (i : ℕ) (a : Axis) (r : Polled × Controller C) : Type 0 where
    pub axis : Axis
    pub here : get_elem? r.1.axes i ≡ some axis
    pub fair : Fair a r.0 axis

  -- A poll that fails and leaves all axes alike.
  pub failed-Polls :
      (i : ℕ) (a : Axis) (g g' : Controller C)
      → get_elem? g.axes i ≡ some a
      → Each g.axes g'.axes
      → Polls i a ((false, false), g')
  failed-Polls i a g g' here all =
      let (b, found, alike) = Each-get_elem? g.axes g'.axes i a all here in
      record { axis = b; here = found; fair = failed-Fair a b alike }

  -- A poll that sets the axis aside.
  pub aside-Polls :
      (i : ℕ) (a b : Axis) (g : Controller C)
      → get_elem? g.axes i ≡ some b
      → Alike a b
      → IsAside b
      → Polls i a ((true, false), g)
  aside-Polls i a b g here alike w = record { axis = b; here = here; fair = aside-Fair a b alike w }

  -- Behind steps that leave all axes alike.
  pub Polls-after :
      (i : ℕ) (a : Axis) (g g' : Controller C) (r : Polled × Controller C)
      → get_elem? g.axes i ≡ some a
      → Each g.axes g'.axes
      → ((b : Axis) → get_elem? g'.axes i ≡ some b → Polls i b r)
      → Polls i a r
  Polls-after i a g g' r here all next =
      let (b, found, alike) = Each-get_elem? g.axes g'.axes i a all here in
      let last : Polls i b r = next b found in
      record {
        axis = last.axis;
        here = last.here;
        fair = Fair-after a b last.axis r.0 alike last.fair;
      }

  finish_homing-Polls :
      (i : ℕ) (a b : Axis) (r : Readings) (g : Controller C)
      → get_elem? g.axes i ≡ some (decode r b)
      → finishes r a ≡ finishes r b
      → (decode r a).params.is_moving ≡ (decode r b).params.is_moving
      → Polls i b ((true, (decode r a).params.is_moving), (finish_homing C i (finishes r a) g).1)
  unfolding finish_homing
  finish_homing-Polls i a b r g here same still = elim (Bool-cases (finishes r b)) [
    | inl yes_r ↦
        let g' : Controller C = (select_axis C i g).1 in
        let (c, found, alike) =
          Each-get_elem? g.axes g'.axes i (decode r b) (select_axis-Evens C i g) here in
        rw (same, yes_r, still)
          (record {
            axis = homed_at_zero c;
            here = get_elem?-update_at g'.axes i c homed_at_zero found;
            fair = finished-Fair r b c yes_r alike;
          })
    | inr no_r ↦
        rw (same, no_r, still)
          (record { axis = decode r b; here = here; fair = not_finished-Fair r b no_r })
  ]

  read_srh_axes : (v : ℕ) (g : Controller C) → (read_srh C v g).1.axes ≡ g.axes
  unfolding read_srh
  read_srh_axes v g =
      if_cases (λ (r : ℕ × Controller C). r.1.axes ≡ g.axes) (bit_set v 8 || bit_set v 9) _ (0, g)
        (λ _. refl) (λ _. refl)

  read_when_slow_axes : (count : ℕ) (g : Controller C) → (read_when_slow C count g).1.axes ≡ g.axes
  unfolding read_when_slow read_slow
  read_when_slow_axes count g =
      if_cases (λ (r : _ × Controller C). r.1.axes ≡ g.axes) (count % 10 == 0) _ (none, g)
        (λ _. refl) (λ _. refl)

  pub take_reads_axes :
      (i : ℕ) (a : Axis) (g : Controller C)
      → (take_reads C i a g).1.axes ≡ update_at g.axes i counted
  unfolding take_reads
  take_reads_axes i a g =
      let g₂ =
        (call C (C.get_long_variable (codes "APOS"))
          (call C (C.get_long_variable (codes "TPOS")) g).1).1 in
      let (v, g₃) = call C (C.read_status srl) g₂ in
      let g₄ = (call C (C.read_status mer) g₃).1 in
      let g₅ = (read_srh C (value_or_0 v) g₄).1 in
      ap (λ t. update_at t i counted)
        (read_when_slow_axes a.poll_count g₅ ∙ read_srh_axes (value_or_0 v) g₄)

  pub report-Polls :
      (i : ℕ) (a : Axis) (r : Readings) (g : Controller C)
      → get_elem? g.axes i ≡ some (counted a)
      → Polls i a (report C i a r g)
  unfolding report decode published finishes
  report-Polls i a r g here =
      let next : Polls i (counted a) (report C i a r g) =
        finish_homing-Polls i a (counted a) r (modify_axis C i (decode r) g).1
          (get_elem?-update_at g.axes i (counted a) (decode r) here) refl refl in
      record {
        axis = next.axis;
        here = next.here;
        fair = Fair-after a (counted a) next.axis _ (counted-Alike a) next.fair;
      }
