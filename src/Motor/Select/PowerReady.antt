-- ===== src/Motor/Select/PowerReady.antt =====
-- Setups and delays of the axes across powerOn and powerOff.
use technosoft_tml_motor.Prelude.{
  ℕ, zero, suc, Bool, true, Option, none, some, All, get_elem?, if_cases,
}
use technosoft_tml_motor.Prelude.State.{pure}
use technosoft_tml_motor.Motor.Calls.{Calls, srl}
use technosoft_tml_motor.Motor.Axis.{Axis, Controller, Io, call, act}
use technosoft_tml_motor.Motor.Select.{
  bit_set, value_or_0, switched_on, switched_off, not_switched_on, select_axis,
}
use technosoft_tml_motor.Motor.Power.{
  power_wait, switch_on, power_on_of, power_on, switch_off, power_off_of, power_off,
}
use technosoft_tml_motor.Motor.Select.Ready.{Ready, Readies, All-update_at, and_then-Readies}
use technosoft_tml_motor.Motor.Select.SelectReady.{select_axis-Ready}

module _ {R : Type 0} (C : Calls R) where
  power_wait-Readies : (i left : ℕ) → Readies C (power_wait C i left)
  unfolding power_wait
  power_wait-Readies i zero g h = All-update_at Ready not_switched_on g.axes i (λ x r. r) h
  power_wait-Readies i (suc left) g h =
      let (v, g₁) = call C (C.read_status srl) g in
      if_cases (λ (m : Io C Bool). All Ready (m g₁).1.axes) (bit_set (value_or_0 v) 15) _ _
        (λ _. All-update_at Ready switched_on g.axes i (λ x r. r) h)
        (λ _. power_wait-Readies i left (act C (C.sleep 100) g₁).1 h)

  switch_on-Readies : (i : ℕ) → Readies C (switch_on C i)
  unfolding switch_on
  switch_on-Readies i =
      and_then-Readies C (call C (C.power true)) (power_wait C i 50) (λ g h. h)
        (power_wait-Readies i 50)

  switch_off-Readies : (i : ℕ) → Readies C (switch_off C i)
  unfolding switch_off
  switch_off-Readies i g h = All-update_at Ready switched_off g.axes i (λ x r. r) h

  power_on_of-Readies : (i : ℕ) (o : Option Axis) → Readies C (power_on_of C i o)
  unfolding power_on_of
  power_on_of-Readies i none g h = h
  power_on_of-Readies i (some a) g h =
      if_cases (λ (m : Io C Bool). All Ready (m g).1.axes) a.powered (pure true) _ (λ _. h)
        (λ _.
          and_then-Readies C (select_axis C i) (switch_on C i) (select_axis-Ready C i)
            (switch_on-Readies i) g h)

  pub power_on-Ready :
      (i : ℕ) (g : Controller C) → All Ready g.axes → All Ready (power_on C i g).1.axes
  unfolding power_on
  power_on-Ready i g h = power_on_of-Readies i (get_elem? g.axes i) g h

  power_off_of-Readies : (i : ℕ) (o : Option Axis) → Readies C (power_off_of C i o)
  unfolding power_off_of
  power_off_of-Readies i none g h = h
  power_off_of-Readies i (some a) g h =
      if_cases (λ (m : Io C Bool). All Ready (m g).1.axes) a.powered _ (pure true)
        (λ _.
          and_then-Readies C (select_axis C i) (switch_off C i) (select_axis-Ready C i)
            (switch_off-Readies i) g h)
        (λ _. h)

  pub power_off-Ready :
      (i : ℕ) (g : Controller C) → All Ready g.axes → All Ready (power_off C i g).1.axes
  unfolding power_off
  power_off-Ready i g h = power_off_of-Readies i (get_elem? g.axes i) g h
