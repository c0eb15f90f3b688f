-- ===== src/Motor/Ownership/Power.antt =====
-- The driver's channel across powerOn and powerOff.
use technosoft_tml_motor.Prelude.{
  ℕ, zero, suc, Bool, true, false, Option, none, some, get_elem?, if_cases,
}
use technosoft_tml_motor.Prelude.State.{pure}
use technosoft_tml_motor.Motor.Calls.{Calls, srl}
use technosoft_tml_motor.Motor.Axis.{Axis, Io, call, act, and_then}
use technosoft_tml_motor.Motor.Select.{bit_set, value_or_0, select_axis}
use technosoft_tml_motor.Motor.Power.{
  power_wait, switch_on, power_on_of, power_on, switch_off, power_off_of, power_off,
}
use technosoft_tml_motor.Motor.Ownership.{Ownership, Owned, Owning, and_then-Owning, choice-Owning}
use technosoft_tml_motor.Motor.Ownership.Selection.{select_axis-Owning}

module _ {R : Type 0} {C : Calls R} (O : Ownership C) where
  power_wait-Owning : (i left : ℕ) → Owning O (power_wait C i left)
  unfolding power_wait
  power_wait-Owning i zero g h = h
  power_wait-Owning i (suc left) g h =
      let (v, g₁) = call C (C.read_status srl) g in
      let h₁ : Owned O g₁ = O.reads srl _ _ h in
      if_cases (λ (m : Io C Bool). Owned O (m g₁).1) (bit_set (value_or_0 v) 15) _ _ (λ _. h₁)
        (λ _. power_wait-Owning i left (act C (C.sleep 100) g₁).1 (O.sleeps 100 _ _ h₁))

  switch_on-Owning : (i : ℕ) → Owning O (switch_on C i)
  unfolding switch_on
  switch_on-Owning i =
      and_then-Owning O (call C (C.power true)) (power_wait C i 50) (λ g h. O.powers true _ _ h)
        (power_wait-Owning i 50)

  power_on_of-Owning : (i : ℕ) (o : Option Axis) → Owning O (power_on_of C i o)
  unfolding power_on_of
  power_on_of-Owning i none g h = h
  power_on_of-Owning i (some a) g h =
      choice-Owning O a.powered (pure true) (and_then C (select_axis C i) (switch_on C i))
        (λ g h. h)
        (and_then-Owning O (select_axis C i) (switch_on C i) (select_axis-Owning O i)
          (switch_on-Owning i))
        g h

  pub power_on-Owning : (i : ℕ) → Owning O (power_on C i)
  unfolding power_on
  power_on-Owning i g h = power_on_of-Owning i (get_elem? g.axes i) g h

  power_off_of-Owning : (i : ℕ) (o : Option Axis) → Owning O (power_off_of C i o)
  unfolding power_off_of switch_off
  power_off_of-Owning i none g h = h
  power_off_of-Owning i (some a) g h =
      choice-Owning O a.powered (and_then C (select_axis C i) (switch_off C i)) (pure true)
        (and_then-Owning O (select_axis C i) (switch_off C i) (select_axis-Owning O i)
          (λ g h. O.powers false _ _ h))
        (λ g h. h) g h

  pub power_off-Owning : (i : ℕ) → Owning O (power_off C i)
  unfolding power_off
  power_off-Owning i g h = power_off_of-Owning i (get_elem? g.axes i) g h
