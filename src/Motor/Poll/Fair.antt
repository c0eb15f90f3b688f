-- ===== src/Motor/Poll/Fair.antt =====
-- What a poll may do to the notes of a homing run and of a stop, and what its decoding does.
use technosoft_tml_motor.Prelude.{
  ℕ, ℕ, ◌≡◌, ◌⊎◌, inl, inr, refl, sym, ap, ◌∙◌, Bool, true, false, if◌then◌else◌, arith,
}
use technosoft_tml_motor.Prelude.Int.{pos}
use technosoft_tml_motor.Motor.Axis.{Axis}
use technosoft_tml_motor.Motor.Select.{bit_set}
use technosoft_tml_motor.Motor.Select.Alike.{Alike}
use technosoft_tml_motor.Motor.Poll.{Polled}
use technosoft_tml_motor.Motor.Decode.{Readings, decode, published, finishes, homed_at_zero}

-- The switch that a homing run goes towards, in the published MER.
abbrev pub at_limit : Axis → ℕ → Bool
at_limit a reg = if a.homing_toward_lsp then bit_set reg 6 else bit_set reg 7

-- The end of the homing run of `a`, as `b` shows it.
pub record Ended (a b : Axis) : Type 0 where
  pub complete : (bit_set b.params.reg_srl 10 ≡ true) ⊎ (a.stopping ≡ true)
  pub reached : (a.homing_move_seen ≡ true) ⊎ (at_limit a b.params.reg_mer ≡ true)
  pub homed : b.params.homed ≡ true
  pub at_home : b.params.at_home ≡ true
  pub at_zero : b.params.position ≡ pos 0

-- Not to be polled to its status.
abbrev pub IsAside : Axis → Type 0
IsAside b = (b.configured ≡ false) ⊎ (b.needs_reinit ≡ true)

-- Why the homing run of `a` goes on, as `b` shows it.
abbrev pub GoesOn : Axis → Axis → Type 0
GoesOn a b =
    IsAside b
    ⊎ (bit_set b.params.reg_srl 10 ≡ false)
    ⊎ ((a.homing_move_seen ≡ false) × (at_limit a b.params.reg_mer ≡ false))

-- From `a` to `b`, where the poll reported its success and `*moving`.
pub record Fair (a : Axis) (r : Polled) (b : Axis) : Type 0 where
  pub ended : a.homing_active ≡ true → b.homing_active ≡ false → Ended a b
  pub goes_on : r.0 ≡ true → a.homing_active ≡ true → b.homing_active ≡ true → GoesOn a b
  pub not_begun : a.homing_active ≡ false → b.homing_active ≡ false
  pub stop_noted : b.stopping ≡ true → a.stopping ≡ true
  pub stop_still : b.stopping ≡ true → r.1 ≡ false

pub failed-Fair : (a b : Axis) → Alike a b → Fair a (false, false) b
failed-Fair a b h = record {
  ended = λ e off. absurd (cc (e, off, h.homing));
  goes_on = λ bad. absurd (cc bad);
  not_begun = λ e. h.homing ∙ e;
  stop_noted = h.stop;
  stop_still = λ _. refl;
}

pub aside-Fair : (a b : Axis) → Alike a b → IsAside b → Fair a (true, false) b
aside-Fair a b h w = record {
  ended = λ e off. absurd (cc (e, off, h.homing));
  goes_on = λ _ _ _. inl w;
  not_begun = λ e. h.homing ∙ e;
  stop_noted = h.stop;
  stop_still = λ _. refl;
}

at_limit-Alike : (a b : Axis) (reg : ℕ) → Alike a b → at_limit b reg ≡ at_limit a reg
at_limit-Alike a b reg h = ap (λ t. if t then bit_set reg 6 else bit_set reg 7) h.toward

Ended-after : (a b c : Axis) → Alike a b → Ended b c → Ended a c
Ended-after a b c h last = record {
  complete = elim last.complete [ inl x ↦ inl x | inr x ↦ inr (h.stop x) ];
  reached = elim last.reached [
    | inl x ↦ inl (sym h.seen ∙ x)
    | inr x ↦ inr (sym (at_limit-Alike a b c.params.reg_mer h) ∙ x)
  ];
  homed = last.homed;
  at_home = last.at_home;
  at_zero = last.at_zero;
}

GoesOn-after : (a b c : Axis) → Alike a b → GoesOn b c → GoesOn a c
GoesOn-after a b c h (inl x) = inl x
GoesOn-after a b c h (inr (inl x)) = inr (inl x)
GoesOn-after a b c h (inr (inr (x, y))) =
    inr (inr (sym h.seen ∙ x, sym (at_limit-Alike a b c.params.reg_mer h) ∙ y))

pub Fair-after : (a b c : Axis) (r : Polled) → Alike a b → Fair b r c → Fair a r c
Fair-after a b c r h k = record {
  ended = λ e off. Ended-after a b c h (k.ended (h.homing ∙ e) off);
  goes_on = λ ok e on. GoesOn-after a b c h (k.goes_on ok (h.homing ∙ e) on);
  not_begun = λ e. k.not_begun (h.homing ∙ e);
  stop_noted = λ e. h.stop (k.stop_noted e);
  stop_still = k.stop_still;
}

-- The test for the end of homing, taken apart.
finishes_lem :
    (r : Readings) (a : Axis)
    → finishes r a ≡ true
    → ((bit_set r.srl 10 ≡ true) ⊎ (a.stopping ≡ true))
      × ((a.homing_move_seen ≡ true) ⊎ (at_limit a r.mer ≡ true))
unfolding finishes
finishes_lem r a h = ground arith

abbrev pub polled : Readings → Axis → Polled
polled r a = (true, (decode r a).params.is_moving)

not_finished_lem :
    (r : Readings) (a : Axis)
    → a.homing_active ≡ true
    → finishes r a ≡ false
    → (bit_set r.srl 10 ≡ false) ⊎ ((a.homing_move_seen ≡ false) × (at_limit a r.mer ≡ false))
unfolding finishes
not_finished_lem r a e h = ground arith

stop_noted_lem : (r : Readings) (a : Axis) → (decode r a).stopping ≡ true → a.stopping ≡ true
unfolding decode published
stop_noted_lem r a h = ground arith

stop_still_lem :
    (r : Readings) (a : Axis) → (decode r a).stopping ≡ true → (decode r a).params.is_moving ≡ false
unfolding decode published
stop_still_lem r a h = ground arith

pub not_finished-Fair :
    (r : Readings) (a : Axis) → finishes r a ≡ false → Fair a (polled r a) (decode r a)
unfolding decode published
not_finished-Fair r a h = record {
  ended = λ e off. absurd (cc (e, off));
  goes_on = λ _ e on. inr (not_finished_lem r a e h);
  not_begun = λ e. e;
  stop_noted = stop_noted_lem r a;
  stop_still = stop_still_lem r a;
}

pub finished-Fair :
    (r : Readings) (a b : Axis)
    → finishes r a ≡ true
    → Alike (decode r a) b
    → Fair a (polled r a) (homed_at_zero b)
unfolding decode published
finished-Fair r a b h k =
    let (complete, reached) = finishes_lem r a h in
    record {
      ended = λ e off. record {
        complete = rw k.srl complete;
        reached = rw k.mer reached;
        homed = refl;
        at_home = refl;
        at_zero = refl;
      };
      goes_on = λ _ _ bad. absurd (cc bad);
      not_begun = λ e. refl;
      stop_noted = λ e. stop_noted_lem r a (k.stop e);
      stop_still = λ e. stop_still_lem r a (k.stop e);
    }
