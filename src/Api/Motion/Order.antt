-- ===== src/Api/Motion/Order.antt =====
-- The order in which the motion commands hand their messages to the transport.
use technosoft_tml_motor.Prelude.{
  ℕ, true, false, List, [], ◌∷◌, ◌++◌, ◌≡◌, refl, if◌then◌else◌, codes,
}
use technosoft_tml_motor.Prelude.Int.{ℤ, to_word32}
use technosoft_tml_motor.VarMap.{Name}
use technosoft_tml_motor.Link.{Link}
use technosoft_tml_motor.Drive.{
  Chan, Ident, command_msg, mcr_msg, write32_msg, request16_msg, send_command, send_mcr_config,
  write_data32, read_data16,
}
use technosoft_tml_motor.Drive.Read.{read_data16-Asks}
use technosoft_tml_motor.Drive.Opcodes.{
  McrChange, cpa, cpr, mode_pp3, mode_sp1, tum1, op_upd, op_upd_imm,
}
use technosoft_tml_motor.Api.Act.{resolve_addr, return}
use technosoft_tml_motor.Api.Plan.{
  Step, must_send, may_send, Performs, must-Performs, may-Performs, return-Performs, then-Performs,
}
use technosoft_tml_motor.Api.Real.{Real, to_fixed}
use technosoft_tml_motor.Api.Motion.{
  Moment, immediate, on_event, none_now, Base, from_reference, from_measure, write_named, look_at,
  configure_mcr, update, set_base, write_magnitude, move_absolute, move_relative, move_velocity,
}

abbrev pub plan_write : Name → ℕ → ℕ → Ident → List Step
plan_write name fallback v i = must_send (write32_msg i (resolve_addr name fallback i) v) ∷ []

abbrev pub plan_look : Name → ℕ → Ident → List Step
plan_look name fallback i = may_send (request16_msg i (resolve_addr name fallback i)) ∷ []

abbrev pub plan_mcr : McrChange → Ident → List Step
plan_mcr change i = must_send (mcr_msg i change) ∷ []

abbrev pub plan_base : Base → Ident → List Step
plan_base from_reference i = plan_mcr tum1 i
plan_base from_measure i = []

abbrev pub plan_update : Moment → Ident → List Step
plan_update immediate i = must_send (command_msg i op_upd_imm) ∷ []
plan_update on_event i = must_send (command_msg i op_upd) ∷ []
plan_update none_now i = []

abbrev pub plan_magnitude : (F : Real) → Name → ℕ → F.R → Ident → List Step
plan_magnitude F name fallback x i =
    if F.is_zero x then [] else plan_write name fallback (to_fixed F (F.fabs x)) i

-- Acceleration and speed where they are not zero, then the target.
abbrev pub plan_targets : (F : Real) → ℤ → F.R → F.R → Ident → List Step → List Step
plan_targets F position speed acceleration i rest =
    plan_magnitude F (codes "CACC") 0x0232 acceleration i
    ++ (plan_magnitude F (codes "CSPD") 0x0230 speed i
        ++ (plan_write (codes "CPOS") 0x022E (to_word32 position) i ++ rest))

abbrev pub plan_absolute : (F : Real) → ℤ → F.R → F.R → Moment → Base → Ident → List Step
plan_absolute F position speed acceleration moment base i =
    plan_targets F position speed acceleration i (
      plan_mcr cpa i
      ++ (plan_mcr mode_pp3 i
          ++ (plan_base base i
              ++ (plan_look (codes "MER") 0x0910 i
                  ++ (plan_look (codes "MER_MASK") 0x0914 i
                      ++ (plan_update moment i
                          ++ (plan_look (codes "SRL") 0x090E i
                              ++ plan_look (codes "MER") 0x0910 i)))))))

abbrev pub plan_relative : (F : Real) → ℤ → F.R → F.R → Moment → Base → Ident → List Step
plan_relative F position speed acceleration moment base i =
    plan_targets F position speed acceleration i
      (plan_mcr cpr i ++ (plan_mcr mode_pp3 i ++ (plan_base base i ++ plan_update moment i)))

abbrev pub plan_velocity : (F : Real) → F.R → F.R → Moment → Ident → List Step
plan_velocity F speed acceleration moment i =
    plan_magnitude F (codes "CACC") 0x0232 acceleration i
    ++ (plan_write (codes "CSPD") 0x0230 (to_fixed F speed) i
        ++ (plan_mcr mode_sp1 i ++ plan_update moment i))

module _ (L : Link) where
  write_named-Performs :
      (name : Name) (fallback v : ℕ) (i : Ident) (c : Chan L)
      → c.ident ≡ i
      → Performs L (plan_write name fallback v i) c (write_named L name fallback v c)
  unfolding write_named write_data32
  write_named-Performs name fallback v i c e =
      rw (← e) (must-Performs L (λ j. write32_msg j (resolve_addr name fallback c.ident) v) c)

  look_at-Performs :
      (name : Name) (fallback : ℕ) (i : Ident) (c : Chan L)
      → c.ident ≡ i
      → Performs L (plan_look name fallback i) c (look_at L name fallback c)
  unfolding look_at
  look_at-Performs name fallback i c e =
      let addr = resolve_addr name fallback c.ident in
      rw (← e) (
        may-Performs L (request16_msg c.ident addr) (read_data16 L addr) c
          (read_data16-Asks L addr c))

  configure_mcr-Performs :
      (change : McrChange) (i : Ident) (c : Chan L)
      → c.ident ≡ i
      → Performs L (plan_mcr change i) c (configure_mcr L change c)
  unfolding configure_mcr send_mcr_config
  configure_mcr-Performs change i c e = rw (← e) (must-Performs L (λ j. mcr_msg j change) c)

  set_base-Performs :
      (base : Base) (i : Ident) (c : Chan L)
      → c.ident ≡ i
      → Performs L (plan_base base i) c (set_base L base c)
  unfolding set_base
  set_base-Performs from_reference i c e = configure_mcr-Performs tum1 i c e
  set_base-Performs from_measure i c e = return-Performs L tt c

  update-Performs :
      (moment : Moment) (i : Ident) (c : Chan L)
      → c.ident ≡ i
      → Performs L (plan_update moment i) c (update L moment c)
  unfolding update send_command
  update-Performs immediate i c e = rw (← e) (must-Performs L (λ j. command_msg j op_upd_imm) c)
  update-Performs on_event i c e = rw (← e) (must-Performs L (λ j. command_msg j op_upd) c)
  update-Performs none_now i c e = return-Performs L tt c

  module _ (F : Real) where
    write_magnitude-Performs :
        (name : Name) (fallback : ℕ) (x : F.R) (i : Ident) (c : Chan L)
        → c.ident ≡ i
        → Performs L (plan_magnitude F name fallback x i) c (write_magnitude L F name fallback x c)
    unfolding write_magnitude
    write_magnitude-Performs name fallback x i c e =
        elim (F.is_zero x)
          as (λ b.
            Performs L (if b then [] else plan_write name fallback (to_fixed F (F.fabs x)) i) c (
              (if b then return L tt else write_named L name fallback (to_fixed F (F.fabs x))) c)) [
                | true ↦ return-Performs L tt c
                | false ↦ write_named-Performs name fallback (to_fixed F (F.fabs x)) i c e
              ]

    -- TS_MoveAbsolute hands its messages to the transport in this order: acceleration and
    -- speed, each only where it is not zero and as a magnitude, target, absolute mode, position
    -- profile, reference base, two reads of the limit state, update, two reads more. Each
    -- message but those reads must be acknowledged for the next to follow, and the call
    -- succeeds exactly when it gets to the end.
    pub move_absolute-Performs :
        (position : ℤ) (speed acceleration : F.R) (moment : Moment) (base : Base) (c : Chan L)
        → Performs L
            (plan_absolute F position speed acceleration moment base c.ident)
            c
            (move_absolute L F position speed acceleration moment base c)
    unfolding move_absolute
    move_absolute-Performs position speed acceleration moment base c =
        let i = c.ident in
        then-Performs L i _ _ _ _ (write_magnitude-Performs (codes "CACC") 0x0232 acceleration i)
          (then-Performs L i _ _ _ _ (write_magnitude-Performs (codes "CSPD") 0x0230 speed i) (
            then-Performs L i _ _ _ _
              (write_named-Performs (codes "CPOS") 0x022E (to_word32 position) i)
              (then-Performs L i _ _ _ _ (configure_mcr-Performs cpa i) (
                then-Performs L i _ _ _ _ (configure_mcr-Performs mode_pp3 i) (
                  then-Performs L i _ _ _ _ (set_base-Performs base i) (
                    then-Performs L i _ _ _ _ (look_at-Performs (codes "MER") 0x0910 i) (
                      then-Performs L i _ _ _ _ (look_at-Performs (codes "MER_MASK") 0x0914 i) (
                        then-Performs L i _ _ _ _ (update-Performs moment i) (
                          then-Performs L i _ _ _ _ (look_at-Performs (codes "SRL") 0x090E i)
                            (look_at-Performs (codes "MER") 0x0910 i))))))))))
          c refl

    -- TS_MoveRelative hands its messages to the transport in this order: acceleration and
    -- speed, each only where it is not zero and as a magnitude, distance, relative mode,
    -- position profile, reference base, update. Each must be acknowledged for the next to
    -- follow, and the call succeeds exactly when all are.
    pub move_relative-Performs :
        (position : ℤ) (speed acceleration : F.R) (moment : Moment) (base : Base) (c : Chan L)
        → Performs L
            (plan_relative F position speed acceleration moment base c.ident)
            c
            (move_relative L F position speed acceleration moment base c)
    unfolding move_relative
    move_relative-Performs position speed acceleration moment base c =
        let i = c.ident in
        then-Performs L i _ _ _ _ (write_magnitude-Performs (codes "CACC") 0x0232 acceleration i)
          (then-Performs L i _ _ _ _ (write_magnitude-Performs (codes "CSPD") 0x0230 speed i) (
            then-Performs L i _ _ _ _
              (write_named-Performs (codes "CPOS") 0x022E (to_word32 position) i)
              (then-Performs L i _ _ _ _ (configure_mcr-Performs cpr i) (
                then-Performs L i _ _ _ _ (configure_mcr-Performs mode_pp3 i) (
                  then-Performs L i _ _ _ _ (set_base-Performs base i)
                    (update-Performs moment i))))))
          c refl

    -- TS_MoveVelocity hands its messages to the transport in this order: acceleration where it
    -- is not zero, speed with its sign, speed profile, update. Each must be acknowledged for
    -- the next to follow, and the call succeeds exactly when all are.
    pub move_velocity-Performs :
        (speed acceleration : F.R) (moment : Moment) (c : Chan L)
        → Performs L
            (plan_velocity F speed acceleration moment c.ident)
            c
            (move_velocity L F speed acceleration moment c)
    unfolding move_velocity
    move_velocity-Performs speed acceleration moment c =
        let i = c.ident in
        then-Performs L i _ _ _ _ (write_magnitude-Performs (codes "CACC") 0x0232 acceleration i)
          (then-Performs L i _ _ _ _
            (write_named-Performs (codes "CSPD") 0x0230 (to_fixed F speed) i)
            (then-Performs L i _ _ _ _ (configure_mcr-Performs mode_sp1 i)
              (update-Performs moment i)))
          c refl
