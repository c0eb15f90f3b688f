-- ===== src/Tests/Events.antt =====
-- Runs of the properties of the event masks, on a channel over the line of `Sim`.
use technosoft_tml_motor.Prelude.{
  ℕ, true, false, ◌∷◌, ◌++◌, codes, ◌-◌, ◌*◌, ◌/◌, ◌%◌, ◌≡◌, if◌then◌else◌, arith,
}
use technosoft_tml_motor.Drive.{Chan, request16_msg, write16_msg}
use technosoft_tml_motor.Api.Act.{resolve_addr}
use technosoft_tml_motor.Api.Plan.{Performs, must_send, may_send}
use technosoft_tml_motor.Api.Events.{
  mer_mask_addr, mer_addr, clear_limit_switch_event, disable_limit_protection, without_limits,
  write_if_changed,
}
use technosoft_tml_motor.Api.Events.Order.{
  known_as, after_read, after_write, plan_change, plan_disable_mer, without_both,
  clear_limit_switch_event-Performs, disable_limit_protection-Performs,
}
use technosoft_tml_motor.Api.Events.Bits.{without_limits-digits}
use technosoft_tml_motor.Tests.Sim.{link, channel, acks}

abbrev willing : Chan link
willing = channel acks

abbrev srl_mask : ℕ
srl_mask = resolve_addr (codes "SRL_MASK") 0x0912 willing.ident

abbrev mer_mask : ℕ
mer_mask = mer_mask_addr link willing.ident

abbrev mer : ℕ
mer = mer_addr link willing.ident

-- The MER mask without the positive switch.
abbrev new_mask : ℕ
new_mask = without_limits link true false (known_as link mer_mask willing)

disable_limit_protection-Performs_example :
    Performs link
      (may_send (request16_msg willing.ident mer_mask)
        ∷ must_send (write16_msg willing.ident mer_mask new_mask)
        ∷ plan_disable_mer link true false
            (after_write link mer_mask new_mask (after_read link mer_mask willing))
            willing.ident)
      willing
      (disable_limit_protection link true false willing)
disable_limit_protection-Performs_example =
    disable_limit_protection-Performs link true false willing

abbrev first_mask : ℕ
first_mask = known_as link mer_mask willing

abbrev half_way : Chan link
half_way =
    (write_if_changed link mer_mask first_mask (without_both first_mask)
      (after_read link mer_mask willing)).1

clear_limit_switch_event-Performs_example :
    Performs link
      (may_send (request16_msg willing.ident mer_mask)
        ∷ (plan_change link mer_mask first_mask (without_both first_mask) willing.ident
            ++ (may_send (request16_msg willing.ident mer)
                ∷ plan_change link mer
                    (known_as link mer half_way)
                    (without_both (known_as link mer half_way))
                    willing.ident)))
      willing
      (clear_limit_switch_event link willing)
clear_limit_switch_event-Performs_example = clear_limit_switch_event-Performs link willing

without_limits-digits_example :
    without_limits link true true 0x04C1
    ≡ 0x04C1
      - (if true then 64 * (0x04C1 / 64 % 2) else 0)
      - (if true then 128 * (0x04C1 / 128 % 2) else 0)
without_limits-digits_example = without_limits-digits link true true 0x04C1 (omega arith)
