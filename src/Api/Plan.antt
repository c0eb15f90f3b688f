-- ===== src/Api/Plan.antt =====
-- The order of messages that a call commits itself to, and what it means for the messages that were
-- really handed to the transport, each with its acknowledge, to follow that order.
use technosoft_tml_motor.Prelude.{
  ℕ, Bool, true, false, Option, none, some, List, [], ◌∷◌, ◌++◌, ◌≡◌, refl, sym, ap, ◌∙◌,
  append_assoc, append-nil, Bool-cases, inl, inr, if_cases,
}
use technosoft_tml_motor.Prelude.State.{State}
use technosoft_tml_motor.Frame.{Msg}
use technosoft_tml_motor.Link.{Link, History}
use technosoft_tml_motor.Drive.{Chan, Ident, send_made}
use technosoft_tml_motor.Drive.Read.{Asks}
use technosoft_tml_motor.Api.Act.{
  Act, Outcome, done, failed, refused, must, may, need, ok_or_failed, read_or, ◌>>=◌, ◌>>◌,
}

-- `must`: the call ends if the message is not acknowledged. `may`: its fate is ignored. `ask`: the
-- call ends if it is not acknowledged or not answered.
pub data Step : Type 0 where
  must_send may_send must_ask : Msg → Step

-- The history follows the plan; the last index tells whether it went through to the end.
pub data Follows : List Step → History → Bool → Type 0 where
  finished : Follows [] [] true
  acked :
      {m : Msg} {p : List Step} {h : History} {b : Bool}
      → Follows p h b
      → Follows (must_send m ∷ p) ((m, true) ∷ h) b
  dropped : {m : Msg} {p : List Step} → Follows (must_send m ∷ p) ((m, false) ∷ []) false
  tried :
      {m : Msg} {p : List Step} {h : History} {b : Bool} (ok : Bool)
      → Follows p h b
      → Follows (may_send m ∷ p) ((m, ok) ∷ h) b
  answered :
      {m : Msg} {p : List Step} {h : History} {b : Bool}
      → Follows p h b
      → Follows (must_ask m ∷ p) ((m, true) ∷ h) b
  unanswered : {m : Msg} {p : List Step} (ok : Bool) → Follows (must_ask m ∷ p) ((m, ok) ∷ []) false

pub Follows-append_done :
    {p q : List Step} {h k : History} {b c : Bool}
    → Follows p h b
    → b ≡ true
    → Follows q k c
    → Follows (p ++ q) (h ++ k) c
Follows-append_done finished e g = g
Follows-append_done (acked f) e g = acked (Follows-append_done f e g)
Follows-append_done dropped e g = cc
Follows-append_done (tried ok f) e g = tried ok (Follows-append_done f e g)
Follows-append_done (answered f) e g = answered (Follows-append_done f e g)
Follows-append_done (unanswered ok) e g = cc

pub Follows-append_stopped :
    (q : List Step) {p : List Step} {h : History} {b : Bool}
    → Follows p h b
    → b ≡ false
    → Follows (p ++ q) h false
Follows-append_stopped q finished e = cc
Follows-append_stopped q (acked f) e = acked (Follows-append_stopped q f e)
Follows-append_stopped q dropped e = dropped
Follows-append_stopped q (tried ok f) e = tried ok (Follows-append_stopped q f e)
Follows-append_stopped q (answered f) e = answered (Follows-append_stopped q f e)
Follows-append_stopped q (unanswered ok) e = unanswered ok

abbrev pub is_done : {A : Type 0} → Outcome A → Bool
is_done (done a) = true
is_done failed = false
is_done (refused e) = false

module _ (L : Link) where
  -- A call hands the transport messages that follow the plan, goes through to the end of it exactly
  -- when it succeeds, and leaves the channel's identity alone.
  pub record Performs {A : Type 0} (plan : List Step) (c : Chan L) (r : Outcome A × Chan L)
      : Type 0 where
    pub new : History
    pub grown : L.history r.1.link ≡ L.history c.link ++ new
    pub follows : Follows plan new (is_done r.0)
    pub same : r.1.ident ≡ c.ident

  pub return-Performs : {A : Type 0} (a : A) (c : Chan L) → Performs [] c (done a, c)
  return-Performs a c = record {
    new = [];
    grown = sym (append-nil (L.history c.link));
    follows = finished;
    same = refl;
  }

  pub must-Performs :
      (msg : Ident → Msg) (c : Chan L)
      → Performs (must_send (msg c.ident) ∷ []) c (must L (send_made L msg) c)
  must-Performs msg c =
      let m : Msg = msg c.ident in
      let (ok, s) = L.send m c.link in
      let c' : Chan L = record c { link = s } in
      if_cases (λ (o : Outcome (Unit {0})). Performs (must_send m ∷ []) c (o, c')) ok (done tt)
        failed
        (λ e. record {
          new = (m, true) ∷ [];
          grown = rw e at (L.send_history m c.link);
          follows = acked finished;
          same = refl;
        })
        (λ e. record {
          new = (m, false) ∷ [];
          grown = rw e at (L.send_history m c.link);
          follows = dropped;
          same = refl;
        })

  -- The same for a channel that is known to have the identity `i`.
  pub must_of-Performs :
      (msg : Ident → Msg) (i : Ident) (c : Chan L)
      → c.ident ≡ i
      → Performs (must_send (msg i) ∷ []) c (must L (send_made L msg) c)
  must_of-Performs msg i c e = rw (← e) (must-Performs msg c)

  pub may-Performs :
      {A : Type 0} (m : Msg) (op : State (Chan L) (Option A)) (c : Chan L)
      → Asks L m c (op c)
      → Performs (may_send m ∷ []) c (may L op c)
  may-Performs m op c h = record {
    new = (m, h.sent) ∷ [];
    grown = h.grown;
    follows = tried h.sent finished;
    same = h.same;
  }

  pub may_sent-Performs :
      (msg : Ident → Msg) (i : Ident) (c : Chan L)
      → c.ident ≡ i
      → Performs (may_send (msg i) ∷ []) c (may L (send_made L msg) c)
  may_sent-Performs msg i c e = rw (← e) (record {
    new = (msg c.ident, (L.send (msg c.ident) c.link).0) ∷ [];
    grown = L.send_history (msg c.ident) c.link;
    follows = tried _ finished;
    same = refl;
  })

  pub read_or-Performs :
      (d : ℕ) (m : Msg) (op : State (Chan L) (Option ℕ)) (c : Chan L)
      → Asks L m c (op c)
      → Performs (may_send m ∷ []) c (read_or L d op c)
  read_or-Performs d m op c h = record {
    new = (m, h.sent) ∷ [];
    grown = h.grown;
    follows = tried h.sent finished;
    same = h.same;
  }

  need-Performs_of :
      {A : Type 0} (m : Msg) (o : Option A) (c c' : Chan L)
      → Asks L m c (o, c')
      → Performs (must_ask m ∷ []) c (ok_or_failed L o, c')
  need-Performs_of m none c c' h = record {
    new = (m, h.sent) ∷ [];
    grown = h.grown;
    follows = unanswered h.sent;
    same = h.same;
  }
  need-Performs_of m (some a) c c' h =
      let sent : h.sent ≡ true = elim (Bool-cases h.sent) [
        | inl e ↦ e
        | inr e ↦ absurd (cc (h.needs_ack e))
      ] in
      record {
        new = (m, true) ∷ [];
        grown = rw sent at h.grown;
        follows = answered finished;
        same = h.same;
      }

  pub need-Performs :
      {A : Type 0} (m : Msg) (op : State (Chan L) (Option A)) (c : Chan L)
      → Asks L m c (op c)
      → Performs (must_ask m ∷ []) c (need L op c)
  need-Performs m op c h = let (o, c') = op c in need-Performs_of m o c c' h

  after_step :
      {A B : Type 0} (p q : List Step) (f : A → Act L B) (c c' : Chan L) (o : Outcome A)
      → Performs p c (o, c')
      → ((a : A) → o ≡ done a → c'.ident ≡ c.ident → Performs q c' (f a c'))
      → Performs (p ++ q) c (((λ (s : Chan L). (o, s)) >>= f) c')
  after_step p q f c c' (done a) h k =
      let g = k a refl h.same in
      record {
        new = h.new ++ g.new;
        grown =
            g.grown ∙ ap (λ t. t ++ g.new) h.grown ∙ append_assoc (L.history c.link) h.new g.new;
        follows = Follows-append_done h.follows refl g.follows;
        same = g.same ∙ h.same;
      }
  after_step p q f c c' failed h k = record {
    new = h.new;
    grown = h.grown;
    follows = Follows-append_stopped q h.follows refl;
    same = h.same;
  }
  after_step p q f c c' (refused e) h k = record {
    new = h.new;
    grown = h.grown;
    follows = Follows-append_stopped q h.follows refl;
    same = h.same;
  }

  -- One call after another performs one plan after the other.
  pub step-Performs :
      {A B : Type 0} (p q : List Step) (m : Act L A) (f : A → Act L B) (c : Chan L)
      → Performs p c (m c)
      → ((a : A) → (m c).0 ≡ done a → (m c).1.ident ≡ c.ident → Performs q (m c).1 (f a (m c).1))
      → Performs (p ++ q) c ((m >>= f) c)
  step-Performs p q m f c h k = let (o, c') = m c in after_step p q f c c' o h k

  pub bind-Performs :
      {A B : Type 0} (p q : List Step) (m : Act L A) (f : A → Act L B) (c : Chan L)
      → Performs p c (m c)
      → ((a : A) (c' : Chan L) → c'.ident ≡ c.ident → Performs q c' (f a c'))
      → Performs (p ++ q) c ((m >>= f) c)
  bind-Performs p q m f c h k = step-Performs p q m f c h (λ a e. k a (m c).1)

  -- The same from every channel of one identity.
  abbrev pub Always : {A : Type 0} → Ident → List Step → Act L A → Type 0
  Always i plan m = (c : Chan L) → c.ident ≡ i → Performs plan c (m c)

  pub then-Performs :
      {A B : Type 0} (i : Ident) (p q : List Step) (m : Act L A) (k : Act L B)
      → Always i p m
      → Always i q k
      → Always i (p ++ q) (m >> k)
  then-Performs i p q m k hm hk c e =
      bind-Performs p q m (λ _. k) c (hm c e) (λ a c' same. hk c' (same ∙ e))
