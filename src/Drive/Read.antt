-- ===== src/Drive/Read.antt =====
-- What a request hands to the transport, and what its answer decides.
use technosoft_tml_motor.Prelude.{
  ℕ, Bool, false, ◌&&◌, Option, none, some, List, [], ◌∷◌, ◌++◌, ◌≡◌, refl, ap, ◌∙◌, if_cases, leb,
  ◌==◌, length,
}
use technosoft_tml_motor.Prelude.State.{State}
use technosoft_tml_motor.Frame.{Msg}
use technosoft_tml_motor.Link.{Link}
use technosoft_tml_motor.Drive.Defs.{
  Chan, Ident, check_answer, ask, read_data16, read_data32, request16_msg, request32_msg, word16,
  word32,
}

module _ (L : Link) where
  -- One message goes out; an unacknowledged request has no result.
  pub record Asks {A : Type 0} (m : Msg) (c : Chan L) (r : Option A × Chan L) : Type 0 where
    pub sent : Bool
    pub grown : L.history r.1.link ≡ L.history c.link ++ (m, sent) ∷ []
    pub same : r.1.ident ≡ c.ident
    pub needs_ack : sent ≡ false → r.0 ≡ none

  check_answer_quiet :
      (op count : ℕ) (o : Option Msg) (c : Chan L)
      → (L.history (check_answer L op count o c).1.link ≡ L.history c.link)
        × ((check_answer L op count o c).1.ident ≡ c.ident)
  unfolding check_answer
  check_answer_quiet op count none c = (refl, refl)
  check_answer_quiet op count (some resp) c =
      if_cases
        (λ (r : Option (List ℕ) × Chan L).
          (L.history r.1.link ≡ L.history c.link) × (r.1.ident ≡ c.ident))
        ((resp.op_code == op) && leb count (length resp.words)) _ _ (λ _. (refl, refl))
        (λ _. (L.note_history _ c.link, refl))

  ask-Asks :
      (request : Ident → Msg) (op count : ℕ) (c : Chan L)
      → Asks (request c.ident) c (ask L request op count c)
  unfolding ask
  ask-Asks request op count c =
      let m : Msg = request c.ident in
      let (sent, s₁) = L.send m c.link in
      let c₁ : Chan L = record c { link = s₁ } in
      let (resp, s₂) = L.receive s₁ in
      let c₂ : Chan L = record c { link = s₂ } in
      let quiet = check_answer_quiet op count resp c₂ in
      if_cases (λ (k : State (Chan L) (Option (List ℕ))). Asks m c (k c₁)) sent _ _
        (λ e. record {
          sent = sent;
          grown = quiet.0 ∙ L.receive_history s₁ ∙ L.send_history m c.link;
          same = quiet.1;
          needs_ack = λ bad. cc;
        })
        (λ e. record {
          sent = sent;
          grown = L.send_history m c.link;
          same = refl;
          needs_ack = λ _. refl;
        })

  Asks-map :
      {A B : Type 0} (m : Msg) (c : Chan L) (r : Option A × Chan L) (f : Option A → Option B)
      → f none ≡ none
      → Asks m c r
      → Asks m c (f r.0, r.1)
  Asks-map m c r f e h = record {
    sent = h.sent;
    grown = h.grown;
    same = h.same;
    needs_ack = λ unsent. ap f (h.needs_ack unsent) ∙ e;
  }

  -- readData16 hands over one request, leaves the channel's identity alone, and has no result
  -- where the request is not acknowledged.
  pub read_data16-Asks :
      (address : ℕ) (c : Chan L) → Asks (request16_msg c.ident address) c (read_data16 L address c)
  unfolding read_data16
  read_data16-Asks address c =
      Asks-map _ c _ (word16 L) refl (ask-Asks (λ i. request16_msg i address) _ _ c)

  -- readData32 hands over one request, leaves the channel's identity alone, and has no result
  -- where the request is not acknowledged.
  pub read_data32-Asks :
      (address : ℕ) (c : Chan L) → Asks (request32_msg c.ident address) c (read_data32 L address c)
  unfolding read_data32
  read_data32-Asks address c =
      Asks-map _ c _ (word32 L) refl (ask-Asks (λ i. request32_msg i address) _ _ c)

  pub read_data16_of-Asks :
      (address : ℕ) (i : Ident) (c : Chan L)
      → c.ident ≡ i
      → Asks (request16_msg i address) c (read_data16 L address c)
  read_data16_of-Asks address i c e = rw (← e) (read_data16-Asks address c)
