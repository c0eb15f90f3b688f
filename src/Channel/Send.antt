-- ===== src/Channel/Send.antt =====
-- `waitAck` and `sendMessage`: what has gone over the line when they return.
use technosoft_tml_motor.Prelude.{
  ℕ, List, [], ◌∷◌, ◌++◌, Bool, true, false, ◌≡◌, ◌≢◌, refl, sym, ap, ◌∙◌, ◌⊎◌, arith, append-nil,
  append_assoc, length, All, ◌==◌, if_cases, inl, inr, some,
}
use technosoft_tml_motor.Prelude.State.{pure}
use technosoft_tml_motor.Frame.{Msg, serialise_message, max_msg_bytes}
use technosoft_tml_motor.Channel.System.{Posix}
use technosoft_tml_motor.Channel.Defs.{
  Port, Io, read_bytes, write_bytes, Wait, got, timed_out, starved, wait_for, wait_ack, ack_result,
  ack_byte, ack_timeout, ack_timeout_ms, transmit, retry, send_frame, send_message, write_failed,
}
use technosoft_tml_motor.Channel.Evolves.{
  Evolves, Evolves-trans, Evolves-after-Quiet, Evolves-before-Quiet, Quiet-Evolves,
  set_error-Evolves,
}
use technosoft_tml_motor.Channel.Reads.{Reads, read_bytes-Reads}
use technosoft_tml_motor.Channel.Writes.{Writes, write_bytes-Writes}
use technosoft_tml_motor.Channel.Waits.{Waits, wait_for-Waits}
use technosoft_tml_motor.Channel.Waits.Ends.{wait_for_returns}

-- The bytes hold no acknowledge.
abbrev pub NoAck : List ℕ → Type 0
NoAck bs = All (λ b. (b == ack_byte) ≡ false) bs

module _ (P : Posix) where
  -- An acknowledge is the last byte taken, and no byte dropped before it was one; without one, the
  -- timeout is noted.
  pub record Acks (timeout_ms : ℕ) (s : Port P) (r : Bool × Port P) : Type 0 where
    pub skipped : List ℕ
    pub refused : NoAck skipped
    pub acked : r.0 ≡ true → Evolves P (skipped ++ ack_byte ∷ []) [] s r.1
    pub acked_error : r.0 ≡ true → r.1.last_error ≡ s.last_error
    pub silent : r.0 ≡ false → Evolves P skipped [] s r.1
    pub silent_error : r.0 ≡ false → r.1.last_error ≡ ack_timeout timeout_ms (length skipped)

  ack_result-Acks :
      (start timeout_ms : ℕ) (s t : Port P) (w : Wait)
      → w ≢ starved
      → Waits P (λ b. b == ack_byte) start timeout_ms 0 s (w, t)
      → Acks timeout_ms s (ack_result P timeout_ms w t)
  unfolding ack_result
  ack_result-Acks start timeout_ms s t (got b junk) ends h =
      let e : b ≡ ack_byte = ground (arith, h.ending) in
      record {
        skipped = h.skipped;
        refused = h.refused;
        acked = λ _. rw e at h.moved;
        acked_error = λ _. h.same_error;
        silent = λ bad. cc;
        silent_error = λ bad. cc;
      }
  ack_result-Acks start timeout_ms s t (timed_out junk) ends h = record {
    skipped = h.skipped;
    refused = h.refused;
    acked = λ bad. cc;
    acked_error = λ bad. cc;
    silent = λ _.
        Evolves-before-Quiet P h.skipped [] s t _ (rw (append-nil h.skipped) at h.moved)
          (set_error-Evolves P _ t);
    silent_error = λ _.
        ap (ack_timeout timeout_ms)
          (let e : junk ≡ length h.skipped = omega (arith, h.ending.1) in e);
  }
  ack_result-Acks start timeout_ms s t starved ends h = absurd (ends refl)

  pub wait_ack-Acks : (timeout_ms : ℕ) (s : Port P) → Acks timeout_ms s (wait_ack P timeout_ms s)
  unfolding wait_ack
  wait_ack-Acks timeout_ms s =
      let accept : ℕ → Bool = λ b. b == ack_byte in
      let (w, t) = wait_for P accept timeout_ms s in
      ack_result-Acks (P.now (P.gettimeofday s.world)) timeout_ms s t w
        (wait_for_returns P accept timeout_ms s) (wait_for-Waits P accept timeout_ms s)

  -- The three ways of one transmission, with what each has put on the line.
  transmit_cases :
      (Q : Bool × Port P → Type 0) (frame : List ℕ) (next : Io P Bool) (s : Port P)
      → ((head rest : List ℕ) (t : Port P)
          → frame ≡ head ++ rest
          → Evolves P [] head s t
          → (s.is_open ≡ true → t.last_error ≡ write_failed)
          → Q (false, t))
      → ((skipped : List ℕ) (t : Port P)
          → Evolves P (skipped ++ ack_byte ∷ []) frame s t
          → t.last_error ≡ s.last_error
          → Q (true, t))
      → ((skipped : List ℕ) (t : Port P)
          → Evolves P skipped frame s t
          → t.last_error ≡ ack_timeout ack_timeout_ms (length skipped)
          → Q (next t))
      → Q (transmit P frame next s)
  unfolding transmit
  transmit_cases Q frame next s failed acked silent =
      let (written, s₁) = write_bytes P frame s in
      let out : Writes P frame s (written, s₁) = write_bytes-Writes P frame s in
      let (got_ack, s₂) = wait_ack P ack_timeout_ms s₁ in
      let acks : Acks ack_timeout_ms s₁ (got_ack, s₂) = wait_ack-Acks ack_timeout_ms s₁ in
      if_cases (λ (m : Io P Bool). Q (m s₁)) written _ _
        (λ all.
          let (none_left, same) = out.all_out all in
          let entire : out.head ≡ frame =
            sym (append-nil out.head) ∙ ap (◌++◌ out.head) (sym none_left) ∙ sym out.whole in
          let gone : Evolves P [] frame s s₁ = rw entire at out.moved in
          if_cases (λ (m : Io P Bool). Q (m s₂)) got_ack _ _
            (λ e.
              acked acks.skipped s₂
                (rw (append-nil frame) at (
                  Evolves-trans P [] frame (acks.skipped ++ ack_byte ∷ []) [] s s₁ s₂ gone
                    (acks.acked e)))
                (acks.acked_error e ∙ same))
            (λ e.
              silent acks.skipped s₂
                (rw (append-nil frame) at
                  (Evolves-trans P [] frame acks.skipped [] s s₁ s₂ gone (acks.silent e)))
                (acks.silent_error e)))
        (λ some_left. failed out.head out.rest s₁ out.whole out.moved (out.noted some_left))

  -- What `sendMessage` has done with a frame when it returns.
  pub record Sends (frame : List ℕ) (s : Port P) (r : Bool × Port P) : Type 0 where
    pub taken : List ℕ
    pub sent : List ℕ
    pub moved : Evolves P taken sent s r.1
    pub unsent : List ℕ
    pub at_most_twice : frame ++ frame ≡ sent ++ unsent
    pub whole_frames : r.0 ≡ true → (sent ≡ frame) ⊎ (sent ≡ frame ++ frame)
    pub acknowledged : r.0 ≡ true → (before : List ℕ) × (taken ≡ before ++ ack_byte ∷ [])
    pub reason :
        r.0 ≡ false
        → s.is_open ≡ true
        → (r.1.last_error ≡ write_failed)
          ⊎ ((sent ≡ frame ++ frame) × (n : ℕ) × (r.1.last_error ≡ ack_timeout ack_timeout_ms n))

  retry-Sends :
      (frame taken : List ℕ) (s t : Port P)
      → Evolves P taken frame s t
      → Sends frame s (retry P frame t)
  unfolding retry
  retry-Sends frame taken s t before =
      let t₁ : Port P = record t { world = P.usleep 50000 t.world } in
      let (stale, t₂) = read_bytes P 64 10 t₁ in
      let drained : Reads P 64 [] t₁ (stale, t₂) = read_bytes-Reads P 64 10 t₁ in
      let all : Evolves P (taken ++ drained.more) frame s t₂ = rw (append-nil frame) at (
        Evolves-trans P taken frame drained.more [] s t t₂ before (
          Evolves-after-Quiet P drained.more [] t t₁ t₂
            (Quiet-Evolves P t t₁.world (P.usleep_quiet 50000 t.world)) drained.moved)) in
      let opened : (s.is_open ≡ true) → t₂.is_open ≡ true = λ e. all.same_open ∙ e in
      transmit_cases (Sends frame s) frame (pure false) t₂
        (λ head rest u split moved noted. record {
          taken = (taken ++ drained.more) ++ [];
          sent = frame ++ head;
          moved = Evolves-trans P (taken ++ drained.more) frame [] head s t₂ u all moved;
          unsent = rest;
          at_most_twice = ap (◌++◌ frame) split ∙ sym (append_assoc frame head rest);
          whole_frames = λ bad. cc;
          acknowledged = λ bad. cc;
          reason = λ _ e. inl (noted (opened e));
        })
        (λ skipped u moved same. record {
          taken = (taken ++ drained.more) ++ skipped ++ ack_byte ∷ [];
          sent = frame ++ frame;
          moved = rw (append_assoc (taken ++ drained.more) skipped (ack_byte ∷ [])) (
              Evolves-trans P (taken ++ drained.more) frame (skipped ++ ack_byte ∷ []) frame s t₂ u
                all moved);
          unsent = [];
          at_most_twice = sym (append-nil (frame ++ frame));
          whole_frames = λ _. inr refl;
          acknowledged = λ _. ((taken ++ drained.more) ++ skipped, refl);
          reason = λ bad. cc;
        })
        (λ skipped u moved error. record {
          taken = (taken ++ drained.more) ++ skipped;
          sent = frame ++ frame;
          moved = Evolves-trans P (taken ++ drained.more) frame skipped frame s t₂ u all moved;
          unsent = [];
          at_most_twice = sym (append-nil (frame ++ frame));
          whole_frames = λ bad. cc;
          acknowledged = λ bad. cc;
          reason = λ _ _. inr (refl, length skipped, error);
        })

  send_frame-Sends : (frame : List ℕ) (s : Port P) → Sends frame s (send_frame P frame s)
  unfolding send_frame
  send_frame-Sends frame s =
      let (stale, s₁) = read_bytes P 64 1 s in
      let drained : Reads P 64 [] s (stale, s₁) = read_bytes-Reads P 64 1 s in
      let all : Evolves P drained.more [] s s₁ = drained.moved in
      let opened : (s.is_open ≡ true) → s₁.is_open ≡ true = λ e. all.same_open ∙ e in
      transmit_cases (Sends frame s) frame (retry P frame) s₁
        (λ head rest u split moved noted. record {
          taken = drained.more ++ [];
          sent = head;
          moved = Evolves-trans P drained.more [] [] head s s₁ u all moved;
          unsent = rest ++ frame;
          at_most_twice = ap (λ f. f ++ frame) split ∙ append_assoc head rest frame;
          whole_frames = λ bad. cc;
          acknowledged = λ bad. cc;
          reason = λ _ e. inl (noted (opened e));
        })
        (λ skipped u moved same. record {
          taken = drained.more ++ skipped ++ ack_byte ∷ [];
          sent = frame;
          moved =
              rw (append_assoc drained.more skipped (ack_byte ∷ []))
                (Evolves-trans P drained.more [] (skipped ++ ack_byte ∷ []) frame s s₁ u all moved);
          unsent = frame;
          at_most_twice = refl;
          whole_frames = λ _. inl refl;
          acknowledged = λ _. (drained.more ++ skipped, refl);
          reason = λ bad. cc;
        })
        (λ skipped u moved error.
          retry-Sends frame (drained.more ++ skipped) s u
            (Evolves-trans P drained.more [] skipped frame s s₁ u all moved))

  -- Let a message have the frame that serialiseMessage writes. When sendMessage returns, the
  -- bytes put on the line are a prefix of two copies of that frame. If it returns true, exactly
  -- one or two whole copies went out, and the last byte taken from the line was the acknowledge
  -- 0x4F. If it returns false on an open port, either a write failed, or both copies went out
  -- whole and the error is the timeout of the acknowledge.
  pub send_message-Sends :
      (m : Msg) (frame : List ℕ) (s : Port P)
      → serialise_message m max_msg_bytes ≡ some frame
      → Sends frame s (send_message P m s)
  unfolding send_message
  send_message-Sends m frame s e = rw (e, send_message) (send_frame-Sends frame s)
