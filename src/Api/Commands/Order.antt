-- ===== src/Api/Commands/Order.antt =====
-- What the single-message commands and TS_DriveInitialisation hand to the transport.
use technosoft_tml_motor.Prelude.{
  List, get_elem?, ℕ, zero, suc, ◌<◌, true, false, Option, none, some, [], ◌∷◌, ◌++◌, ◌≡◌, refl,
  sym, ap, ◌∙◌, ◌⊎◌, inl, inr, append_assoc, append-nil, if◌then◌else◌, if_cases, codes, arith, ltb,
  replicate,
}
use technosoft_tml_motor.Prelude.Int.{ℤ, pos, negsuc}
use technosoft_tml_motor.Frame.{Msg}
use technosoft_tml_motor.VarMap.{Name, get_address}
use technosoft_tml_motor.Link.{Link}
use technosoft_tml_motor.Drive.{
  Chan, command_msg, write16_msg, request16_msg, send_command, read_data16, write_data16,
}
use technosoft_tml_motor.Drive.Read.{read_data16-Asks}
use technosoft_tml_motor.Drive.Opcodes.{op_endinit}
use technosoft_tml_motor.Api.Act.{
  Outcome, done, failed, refused, invalid_index, not_in_map, resolve_addr, must, may,
}
use technosoft_tml_motor.Api.Plan.{
  must_send, may_send, must_ask, Performs, must_of-Performs, may-Performs, bind-Performs,
}
use technosoft_tml_motor.Api.Commands.{
  initialisation_loop, drive_initialisation, max_retries, reset_fault,
}

-- The registers by their indices REG_MCR, 0, to REG_MER, 5, of technosoftSup/src/tmlSerial.h.
abbrev pub registers : List Name
registers = codes "MCR" ∷ codes "MSR" ∷ codes "ISR" ∷ codes "SRL" ∷ codes "SRH" ∷ codes "MER" ∷ []

abbrev pub register_at : ℤ → Option Name
register_at (pos n) = get_elem? registers n
register_at (negsuc n) = none

module _ (L : Link) where
  -- `left` attempts at most: some are not acknowledged, and the last one is, or all `left` are not.
  pub record Attempts (left : ℕ) (m : Msg) (c : Chan L) (r : Outcome (Unit {0}) × Chan L)
      : Type 0 where
    pub same : r.1.ident ≡ c.ident
    pub ending :
        ((n : ℕ) × (n < left)
          × (r.0 ≡ done tt)
          × (L.history r.1.link ≡ L.history c.link ++ (replicate n (m, false) ++ (m, true) ∷ [])))
        ⊎ ((r.0 ≡ failed) × (L.history r.1.link ≡ L.history c.link ++ replicate left (m, false)))

  Attempts-again :
      (left : ℕ) (m : Msg) (c c' : Chan L) (r : Outcome (Unit {0}) × Chan L)
      → c'.ident ≡ c.ident
      → L.history c'.link ≡ L.history c.link ++ (m, false) ∷ []
      → Attempts left m c' r
      → Attempts (suc left) m c r
  Attempts-again left m c c' r same grown a = record {
    same = a.same ∙ same;
    ending = elim (a.ending) [
      | inl (n, lt, ok, h) ↦ inl (
        suc n,
        omega (arith, lt),
        ok,
        h
            ∙ ap (λ t. t ++ (replicate n (m, false) ++ (m, true) ∷ [])) grown
            ∙ append_assoc (L.history c.link) ((m, false) ∷ []) _,
      )
      | inr (bad, h) ↦ inr (
        bad,
        h
            ∙ ap (λ t. t ++ replicate left (m, false)) grown
            ∙ append_assoc (L.history c.link) ((m, false) ∷ []) _,
      )
    ];
  }

  initialisation_loop-Attempts :
      (left : ℕ) (c : Chan L)
      → Attempts left (command_msg c.ident op_endinit) c (initialisation_loop L left c)
  unfolding initialisation_loop send_command
  initialisation_loop-Attempts zero c = record {
    same = refl;
    ending = inr (refl, sym (append-nil (L.history c.link)));
  }
  initialisation_loop-Attempts (suc left) c =
      let m : Msg = command_msg c.ident op_endinit in
      let (ok, s) = L.send m c.link in
      let c₁ : Chan L = record c { link = s } in
      let c₂ : Chan L = record c { link = L.pause 500000 s } in
      let paused : Chan L = if ltb 0 left then c₂ else c₁ in
      let settled : Chan L = record c { link = L.pause 100000 s } in
      if_cases (λ r. Attempts (suc left) m c r) ok (done tt, settled)
        (initialisation_loop L left paused)
        (λ e. record {
          same = refl;
          ending = inl (
            0,
            omega arith,
            refl,
            L.pause_history 100000 s ∙ (rw e at (L.send_history m c.link)),
          );
        })
        (λ e.
          let sent : L.history s ≡ L.history c.link ++ (m, false) ∷ [] =
            rw e at (L.send_history m c.link) in
          if_cases (λ c'. Attempts (suc left) m c (initialisation_loop L left c')) (ltb 0 left) c₂
            c₁
            (λ _.
              Attempts-again left m c c₂ _ refl (L.pause_history 500000 s ∙ sent)
                (initialisation_loop-Attempts left c₂))
            (λ _. Attempts-again left m c c₁ _ refl sent (initialisation_loop-Attempts left c₁)))

  -- TS_DriveInitialisation sends ENDINIT three times at most, and again only after one that was
  -- not acknowledged. Either the last one was acknowledged and it succeeds, or three were not and
  -- it fails.
  pub drive_initialisation-Attempts :
      (c : Chan L)
      → Attempts max_retries (command_msg c.ident op_endinit) c (drive_initialisation L c)
  unfolding drive_initialisation
  drive_initialisation-Attempts c = initialisation_loop-Attempts max_retries c

  -- TS_ResetFault reads MER, whatever comes of it, and writes 0 to the same address; it succeeds
  -- exactly when the write is acknowledged.
  pub reset_fault-Performs :
      (c : Chan L)
      → let addr = resolve_addr (codes "MER") 0x0910 c.ident in
        Performs L
          (may_send (request16_msg c.ident addr) ∷ must_send (write16_msg c.ident addr 0) ∷ [])
          c
          (reset_fault L c)
  unfolding reset_fault write_data16
  reset_fault-Performs c =
      let addr = resolve_addr (codes "MER") 0x0910 c.ident in
      bind-Performs L (may_send (request16_msg c.ident addr) ∷ [])
        (must_send (write16_msg c.ident addr 0) ∷ []) (may L (read_data16 L addr))
        (λ _. must L (write_data16 L addr 0)) c
        (may-Performs L (request16_msg c.ident addr) (read_data16 L addr) c
          (read_data16-Asks L addr c))
        (λ a c' same. must_of-Performs L (λ i. write16_msg i addr 0) c.ident c' same)

  -- What TS_ReadStatus does with an index and the map's answer: no message and an error of its own,
  -- or one request to the register's address.
  abbrev pub StatusCase : ℤ → Chan L → Outcome ℕ × Chan L → Option Name → Type 0
  StatusCase index c r none = r ≡ (refused (invalid_index index), c)
  StatusCase index c r (some name) =
      ((get_address name c.ident.var_map ≡ none) × (r ≡ (refused (not_in_map name), c)))
      ⊎ ((addr : ℕ) × (get_address name c.ident.var_map ≡ some addr)
          × Performs L (must_ask (request16_msg c.ident addr) ∷ []) c r)
