-- ===== src/Motor/Decode.antt =====
-- What `TmlAxis::poll` makes of the registers that it has read: the published status, the fault text,
-- and the notes of the axis.
use technosoft_tml_motor.Prelude.{
  ℕ, Bool, true, false, not, ◌&&◌, ◌||◌, Option, none, some, [], ◌∷◌, ◌++◌, if◌then◌else◌, ◌==◌,
  codes,
}
use technosoft_tml_motor.Prelude.Int.{ℤ, pos, negsuc}
use technosoft_tml_motor.VarMap.{Name}
use technosoft_tml_motor.Motor.Axis.{Axis, Params, Slow}
use technosoft_tml_motor.Motor.Select.{bit_set}

-- What one poll has read, both required reads done. `slow` is there on every tenth poll.
pub record Readings : Type 0 where
  pub tpos : ℤ
  pub apos : Option ℤ
  pub srl : ℕ
  pub srh : ℕ
  pub mer : ℕ
  pub slow : Option Slow

abbrev pub word : Bool → Name → Name
word b text = if b then text else []

-- The trailing space is cut off.
unfoldable pub trim : Name → Name
trim [] = []
trim (c ∷ []) = if c == 32 then [] else c ∷ []
trim (c ∷ d ∷ cs) = c ∷ trim (d ∷ cs)

unfoldable pub fault_text : ℕ → ℕ → Name
unfolding trim
fault_text srl srh =
    let ferr = bit_set srh 0 in
    let overspeed = bit_set srh 1 in
    let overcurrent = bit_set srh 2 in
    let overtemp = bit_set srh 4 in
    let uvolt = bit_set srh 5 in
    let ovolt = bit_set srh 6 in
    let gflt = bit_set srl 8 in
    let aflt = bit_set srl 9 in
    if bit_set srh 15 || gflt || aflt
    then trim (
        word ferr (codes "FollowErr ")
        ++ (word overspeed (codes "Overspeed ")
            ++ (word overcurrent (codes "Overcurrent ")
                ++ (word overtemp (codes "Overtemp ")
                    ++ (word uvolt (codes "UnderVolt ")
                        ++ (word ovolt (codes "OverVolt ")
                            ++ (word
                                  (gflt
                                    && not ferr
                                    && not overspeed
                                    && not overcurrent
                                    && not overtemp
                                    && not uvolt
                                    && not ovolt)
                                  (codes "GlobalFault ")
                                ++ word aflt (codes "AxisFault"))))))))
    else codes "OK"

abbrev pub or_position : ℤ → Option ℤ → ℤ
or_position p none = p
or_position p (some a) = a

abbrev pub or_slow : Slow → Option Slow → Slow
or_slow old none = old
or_slow old (some new) = new

-- `cspd_raw >= 0`, where `cspd_raw` is 0 unless this poll has read it.
unfoldable pub forward : Option Slow → Bool
forward none = true
forward (some s) = elim (s.cspd) [ pos n ↦ true | negsuc n ↦ false ]

-- Motion complete as reported: held after a stop until the drive says so itself.
abbrev pub completes : Readings → Axis → Bool
completes r a = if a.stopping then true else bit_set r.srl 10

abbrev pub moves : Readings → Axis → Bool
moves r a = not (completes r a) && bit_set r.srl 15

abbrev pub seen_moving : Readings → Axis → Bool
seen_moving r a = if a.homing_active && moves r a then true else a.homing_move_seen

unfoldable pub published : Readings → Axis → Bool → Params → Params
unfolding fault_text forward
published r a activated p = record p {
  position = r.tpos;
  encoder = or_position r.tpos r.apos;
  slow = or_slow p.slow r.slow;
  reg_srh = r.srh;
  reg_srl = r.srl;
  reg_mer = r.mer;
  is_done = completes r a;
  is_moving = moves r a;
  high_limit = not a.ignore_lsp && bit_set r.mer 6;
  low_limit = not a.ignore_lsn && bit_set r.mer 7;
  power_on = bit_set r.srl 15;
  problem = bit_set r.srh 15;
  comms_error = false;
  following_error = bit_set r.srh 0;
  direction = forward r.slow;
  at_home = if a.homing_active then p.at_home else bit_set r.mer 8;
  active = activated && bit_set r.srl 15;
  fault_text = fault_text r.srl r.srh;
}

-- The axis after the status is mapped.
unfoldable pub decode : Readings → Axis → Axis
unfolding published
decode r a =
    let axis_on = bit_set r.srl 15 in
    let activated = if axis_on && not a.powered then true else a.activated in
    record a {
      stopping = if a.stopping then not (bit_set r.srl 10) else false;
      homing_move_seen = seen_moving r a;
      powered =
          if axis_on && not a.powered
          then true
          else if not axis_on && a.powered
          then false
          else a.powered;
      activated = activated;
      params = published r a activated a.params;
    }

-- The test for the end of homing.
unfoldable pub finishes : Readings → Axis → Bool
finishes r a =
    a.homing_active
    && completes r a
    && (seen_moving r a || (if a.homing_toward_lsp then bit_set r.mer 6 else bit_set r.mer 7))

abbrev pub homed_at_zero : Axis → Axis
homed_at_zero a = record a {
  homing_active = false;
  params = record (a.params) { homed = true; at_home = true; position = pos 0 };
}
