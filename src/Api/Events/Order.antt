-- ===== src/Api/Events/Order.antt =====
-- The event masks: which register is read and what is written to it.
use technosoft_tml_motor.Prelude.{
  ℕ, Bool, true, false, List, [], ◌∷◌, ◌++◌, ◌≡◌, refl, ◌∙◌, if◌then◌else◌, codes, arith, ◌==◌, ◌+◌,
  bit_or, bit_and,
}
use technosoft_tml_motor.Link.{Link}
use technosoft_tml_motor.Drive.{Chan, Ident, write16_msg, request16_msg, read_data16, write_data16}
use technosoft_tml_motor.Drive.Read.{read_data16_of-Asks}
use technosoft_tml_motor.Api.Act.{
  Act, resolve_addr, must, may, read_or, return, value_or, ◌>>=◌, ◌>>◌,
}
use technosoft_tml_motor.Api.Plan.{
  Step, must_send, may_send, Performs, must_of-Performs, may_sent-Performs, read_or-Performs,
  return-Performs, step-Performs,
}
use technosoft_tml_motor.Api.Events.{
  mer_mask_addr, mer_addr, clear16, lsp_bit, lsn_bit, motion_complete_bit,
  set_event_on_motion_complete, set_event_on_limit_switch, write_if_changed,
  clear_limit_switch_event, without_limits, disable_limit_protection,
}

-- A register without the bits of both limit switches.
abbrev pub without_both : ℕ → ℕ
without_both v = bit_and v (clear16 (lsp_bit + lsn_bit))

module _ (L : Link) where
  -- What a register holds as far as the call knows: 0 where the read fails.
  abbrev pub known_as : ℕ → Chan L → ℕ
  known_as addr c = value_or L 0 (read_data16 L addr c).0

  -- The channel after a read, and after a write.
  abbrev pub after_read : ℕ → Chan L → Chan L
  after_read addr c = (read_data16 L addr c).1

  abbrev pub after_write : ℕ → ℕ → Chan L → Chan L
  after_write addr v c = (write_data16 L addr v c).1

  read_then :
      {B : Type 0} (addr : ℕ) (q : List Step) (f : ℕ → Act L B) (i : Ident) (c : Chan L)
      → c.ident ≡ i
      → ((after_read addr c).ident ≡ i
          → Performs L q (after_read addr c) (f (known_as addr c) (after_read addr c)))
      → Performs L
          (may_send (request16_msg i addr) ∷ q)
          c
          ((read_or L 0 (read_data16 L addr) >>= f) c)
  read_then addr q f i c e k =
      step-Performs L (may_send (request16_msg i addr) ∷ []) q (read_or L 0 (read_data16 L addr)) f
        c
        (read_or-Performs L 0 (request16_msg i addr) (read_data16 L addr) c
          (read_data16_of-Asks L addr i c e))
        (λ a eq same.
          let value : known_as addr c ≡ a = ground (arith, eq) in rw value at (k (same ∙ e)))

  write_last :
      (addr v : ℕ) (i : Ident) (c : Chan L)
      → c.ident ≡ i
      → Performs L (must_send (write16_msg i addr v) ∷ []) c (must L (write_data16 L addr v) c)
  unfolding write_data16
  write_last addr v i c e = must_of-Performs L (λ j. write16_msg j addr v) i c e

  write_then :
      {B : Type 0} (addr v : ℕ) (q : List Step) (k : Act L B) (i : Ident) (c : Chan L)
      → c.ident ≡ i
      → ((after_write addr v c).ident ≡ i
          → Performs L q (after_write addr v c) (k (after_write addr v c)))
      → Performs L
          (must_send (write16_msg i addr v) ∷ q)
          c
          ((must L (write_data16 L addr v) >> k) c)
  write_then addr v q k i c e h =
      step-Performs L (must_send (write16_msg i addr v) ∷ []) q (must L (write_data16 L addr v))
        (λ _. k) c (write_last addr v i c e) (λ _ _ same. h (same ∙ e))

  -- A conditional write, with its plan.
  abbrev pub plan_change : ℕ → ℕ → ℕ → Ident → List Step
  plan_change addr old new i = if new == old then [] else may_send (write16_msg i addr new) ∷ []

  write_if_changed-Performs :
      (addr old new : ℕ) (i : Ident) (c : Chan L)
      → c.ident ≡ i
      → Performs L (plan_change addr old new i) c (write_if_changed L addr old new c)
  unfolding write_if_changed write_data16
  write_if_changed-Performs addr old new i c e =
      elim (new == old)
        as (λ b.
          Performs L (if b then [] else may_send (write16_msg i addr new) ∷ []) c
            ((if b then return L tt else may L (write_data16 L addr new)) c)) [
              | true ↦ return-Performs L tt c
              | false ↦ may_sent-Performs L (λ j. write16_msg j addr new) i c e
            ]

  -- TS_SetEventOnMotionComplete reads the SRL mask, taking 0 where that fails, and writes it back
  -- with bit 10 set; it succeeds exactly when the write is acknowledged.
  pub set_event_on_motion_complete-Performs :
      (c : Chan L)
      → let addr = resolve_addr (codes "SRL_MASK") 0x0912 c.ident in
        Performs L
          (may_send (request16_msg c.ident addr)
            ∷ must_send (write16_msg c.ident addr (bit_or (known_as addr c) motion_complete_bit))
            ∷ [])
          c
          (set_event_on_motion_complete L c)
  unfolding set_event_on_motion_complete
  set_event_on_motion_complete-Performs c =
      let addr = resolve_addr (codes "SRL_MASK") 0x0912 c.ident in
      let rest : ℕ → Act L (Unit {0}) =
        λ mask. must L (write_data16 L addr (bit_or mask motion_complete_bit)) in
      read_then addr _ rest c.ident c refl
        (write_last addr (bit_or (known_as addr c) motion_complete_bit) c.ident (after_read addr c))

  -- TS_SetEventOnLimitSwitch reads the MER mask, taking 0 where that fails, and writes it back
  -- with bit 6 set for the positive switch and bit 7 for any other type; it succeeds exactly when
  -- the write is acknowledged.
  pub set_event_on_limit_switch-Performs :
      (positive : Bool) (c : Chan L)
      → let addr = mer_mask_addr L c.ident in
        Performs L
          (may_send (request16_msg c.ident addr)
            ∷ must_send (
                write16_msg c.ident addr
                  (bit_or (known_as addr c) (if positive then lsp_bit else lsn_bit)))
            ∷ [])
          c
          (set_event_on_limit_switch L positive c)
  unfolding set_event_on_limit_switch
  set_event_on_limit_switch-Performs positive c =
      let addr = mer_mask_addr L c.ident in
      let rest : ℕ → Act L (Unit {0}) = λ mask.
        must L (write_data16 L addr (bit_or mask (if positive then lsp_bit else lsn_bit))) in
      read_then addr _ rest c.ident c refl (
        write_last addr (bit_or (known_as addr c) (if positive then lsp_bit else lsn_bit)) c.ident
          (after_read addr c))

  abbrev pub plan_disable_mer : Bool → Bool → Chan L → Ident → List Step
  plan_disable_mer lsp lsn c i =
      let addr = mer_addr L i in
      let mer = known_as addr c in
      may_send (request16_msg i addr)
      ∷ (if mer == 0 then [] else plan_change addr mer (without_limits L lsp lsn mer) i)

  -- TS_DisableLimitProtection reads the MER mask, taking 0 where that fails, and writes it back
  -- without the bits of the chosen switches; it ends if that is not acknowledged. Then it reads
  -- MER, taking 0 where that fails, and writes it back without those bits only where it is not 0
  -- and changes; nothing of that makes it fail.
  pub disable_limit_protection-Performs :
      (lsp lsn : Bool) (c : Chan L)
      → let addr = mer_mask_addr L c.ident in
        let new = without_limits L lsp lsn (known_as addr c) in
        Performs L
          (may_send (request16_msg c.ident addr)
            ∷ must_send (write16_msg c.ident addr new)
            ∷ plan_disable_mer lsp lsn (after_write addr new (after_read addr c)) c.ident)
          c
          (disable_limit_protection L lsp lsn c)
  unfolding disable_limit_protection
  disable_limit_protection-Performs lsp lsn c =
      let i = c.ident in
      let addr = mer_mask_addr L i in
      let new = without_limits L lsp lsn (known_as addr c) in
      let c₂ = after_write addr new (after_read addr c) in
      let mer = known_as (mer_addr L i) c₂ in
      let last : ℕ → Act L (Unit {0}) = λ v.
        if v == 0
        then return L tt
        else write_if_changed L (mer_addr L i) v (without_limits L lsp lsn v) in
      let second : Act L (Unit {0}) = read_or L 0 (read_data16 L (mer_addr L i)) >>= last in
      let first : ℕ → Act L (Unit {0}) =
        λ v. must L (write_data16 L addr (without_limits L lsp lsn v)) >> second in
      read_then addr _ first i c refl λ same.
        write_then addr new _ second i (after_read addr c) same λ same₂.
          read_then (mer_addr L i) _ last i c₂ same₂ λ same₃.
            elim (mer == 0)
              as (λ b.
                Performs L
                  (if b
                    then []
                    else plan_change (mer_addr L i) mer (without_limits L lsp lsn mer) i)
                  (after_read (mer_addr L i) c₂)
                  ((if b
                      then return L tt
                      else write_if_changed L (mer_addr L i) mer (without_limits L lsp lsn mer))
                    (after_read (mer_addr L i) c₂))) [
                      | true ↦ return-Performs L tt (after_read (mer_addr L i) c₂)
                      | false ↦
                          write_if_changed-Performs (mer_addr L i) mer
                            (without_limits L lsp lsn mer) i (after_read (mer_addr L i) c₂) same₃
                    ]

  -- TS_ClearLimitSwitchEvent reads the MER mask, taking 0 where that fails, and writes it back
  -- without the bits of both limit switches where that changes it, and then does the same with
  -- MER. No failure keeps a later message back.
  pub clear_limit_switch_event-Performs :
      (c : Chan L)
      → let i = c.ident in
        let mask = known_as (mer_mask_addr L i) c in
        let c' =
          (write_if_changed L
            (mer_mask_addr L i)
            mask
            (without_both mask)
            (after_read (mer_mask_addr L i) c)).1 in
        let mer = known_as (mer_addr L i) c' in
        Performs L
          (may_send (request16_msg i (mer_mask_addr L i))
            ∷ (plan_change (mer_mask_addr L i) mask (without_both mask) i
                ++ (may_send (request16_msg i (mer_addr L i))
                    ∷ plan_change (mer_addr L i) mer (without_both mer) i)))
          c
          (clear_limit_switch_event L c)
  unfolding clear_limit_switch_event
  clear_limit_switch_event-Performs c =
      let i = c.ident in
      let addr = mer_mask_addr L i in
      let mask = known_as addr c in
      let write : Act L (Unit {0}) = write_if_changed L addr mask (without_both mask) in
      let c' = (write (after_read addr c)).1 in
      let mer = known_as (mer_addr L i) c' in
      let last : ℕ → Act L (Unit {0}) = λ v. write_if_changed L (mer_addr L i) v (without_both v) in
      let second : Act L (Unit {0}) = read_or L 0 (read_data16 L (mer_addr L i)) >>= last in
      let first : ℕ → Act L (Unit {0}) =
        λ v. write_if_changed L addr v (without_both v) >> second in
      read_then addr _ first i c refl λ same.
        step-Performs L (plan_change addr mask (without_both mask) i) _ write (λ _. second)
          (after_read addr c)
          (write_if_changed-Performs addr mask (without_both mask) i (after_read addr c) same)
          (λ _ _ same₂. read_then (mer_addr L i) _ last i c' (same₂ ∙ same) (
            write_if_changed-Performs (mer_addr L i) mer (without_both mer) i
              (after_read (mer_addr L i) c')))
