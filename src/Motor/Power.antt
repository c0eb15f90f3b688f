-- ===== src/Motor/Power.antt =====
-- `powerOn` and `powerOff`.
use technosoft_tml_motor.Prelude.{
  ℕ, zero, suc, Bool, true, false, Option, none, some, get_elem?, if◌then◌else◌,
}
use technosoft_tml_motor.Prelude.State.{◌>>=◌, ◌>>◌, pure}
use technosoft_tml_motor.Motor.Calls.{Calls, srl}
use technosoft_tml_motor.Motor.Axis.{Axis, Io, call, act, modify_axis, and_then}
use technosoft_tml_motor.Motor.Select.{
  bit_set, value_or_0, switched_on, switched_off, not_switched_on, select_axis,
}

module _ {R : Type 0} (C : Calls R) where
  -- The wait for SRL bit 15, over the reads left.
  unfoldable pub power_wait : ℕ → ℕ → Io C Bool
  power_wait i zero = modify_axis C i not_switched_on >> pure false
  power_wait i (suc left) = do
    v ← call C (C.read_status srl)
    if bit_set (value_or_0 v) 15
        then modify_axis C i switched_on >> pure true
        else (do act C (C.sleep 100); power_wait i left)

  unfoldable pub switch_on : ℕ → Io C Bool
  unfolding power_wait
  switch_on i = and_then C (call C (C.power true)) (power_wait i 50)

  unfoldable pub power_on_of : ℕ → Option Axis → Io C Bool
  unfolding select_axis switch_on
  power_on_of i none = pure false
  power_on_of i (some a) =
      if a.powered then pure true else and_then C (select_axis C i) (switch_on i)

  -- `powerOn`: up to 50 reads of SRL.
  unfoldable pub power_on : ℕ → Io C Bool
  unfolding power_on_of
  power_on i g = power_on_of i (get_elem? g.axes i) g

  unfoldable pub switch_off : ℕ → Io C Bool
  switch_off i = do call C (C.power false); modify_axis C i switched_off; pure true

  unfoldable pub power_off_of : ℕ → Option Axis → Io C Bool
  unfolding select_axis switch_off
  power_off_of i none = pure false
  power_off_of i (some a) =
      if a.powered then and_then C (select_axis C i) (switch_off i) else pure true

  unfoldable pub power_off : ℕ → Io C Bool
  unfolding power_off_of
  power_off i g = power_off_of i (get_elem? g.axes i) g
