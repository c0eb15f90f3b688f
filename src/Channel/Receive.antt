-- ===== src/Channel/Receive.antt =====
-- `receiveMessage`: the message is one whole frame from the line, behind bytes that are no length.
use technosoft_tml_motor.Prelude.{
  ℕ, ◌+◌, ◌-◌, ◌/◌, ◌<◌, List, [], ◌∷◌, ◌++◌, true, false, ◌≡◌, ◌≢◌, refl, ap, ◌∙◌, ◌⊎◌, arith,
  append-nil, append_assoc, length, All, All-append_right, ◌==◌, if_cases, Bool-cases, inl, inr,
  Option, none, some,
}
use technosoft_tml_motor.Frame.{
  IsByte, Msg, deserialise_message, accepted, rejected, bad_checksum, checksum, byte_at, word_at,
  read_words,
}
use technosoft_tml_motor.Channel.System.{Posix}
use technosoft_tml_motor.Channel.Defs.{
  Port, LinkError, Io, read_bytes, Wait, got, timed_out, starved, wait_for, is_length, receive_rest,
  receive_message, finish, length_timeout, incomplete, checksum_mismatch,
}
use technosoft_tml_motor.Channel.Evolves.{Evolves, Evolves-trans, set_error-Evolves}
use technosoft_tml_motor.Channel.Reads.{Reads, read_bytes-Reads}
use technosoft_tml_motor.Channel.Waits.{Waits, wait_for-Waits}
use technosoft_tml_motor.Channel.Waits.Ends.{wait_for_returns}

-- A frame of the length that its first byte announces, between 4 and 12, is refused for its
-- checksum only.
pub parse_whole :
    (len : ℕ) (bytes : List ℕ)
    → is_length len ≡ true
    → ((m : Msg) × (deserialise_message (len ∷ bytes) (1 + len + 1) ≡ accepted m))
      ⊎ ((e r : ℕ) × (deserialise_message (len ∷ bytes) (1 + len + 1)
            ≡ rejected (bad_checksum e r)))
unfolding deserialise_message
parse_whole len bytes h =
    let buf : List ℕ = len ∷ bytes in
    let k : ℕ = 1 + len + 1 - 1 in
    elim (Bool-cases (checksum buf k == byte_at buf k)) [
      | inl right ↦ inl (
        record {
          addr = word_at buf 1;
          op_code = word_at buf 3;
          words = read_words ((len - 4) / 2) buf 5;
        },
        ground arith,
      )
      | inr wrong ↦ inr (checksum buf k, byte_at buf k, ground arith)
    ]

-- A length byte, and as many bytes as it says and one more.
abbrev pub IsFrame : List ℕ → Type 0
IsFrame frame =
    (len : ℕ) × (rest : List ℕ) × (frame ≡ len ∷ rest)
    × (is_length len ≡ true)
    × (length rest ≡ len + 1)

-- The note of a frame that ends too early: how many bytes came, and how many were to come.
abbrev pub IsCut : List ℕ → LinkError → Type 0
IsCut frame e =
    (len : ℕ) × (rest : List ℕ) × (frame ≡ len ∷ rest)
    × (is_length len ≡ true)
    × (length rest < len + 1)
    × (e ≡ incomplete (length rest) (len + 1))

-- Why there is no message, with what is noted of it.
abbrev pub Refusal : List ℕ → List ℕ → LinkError → Type 0
Refusal junk frame e =
    ((frame ≡ []) × (e ≡ length_timeout (length junk)))
    ⊎ IsCut frame e
    ⊎ (IsFrame frame
        × (x k : ℕ) × (deserialise_message frame (length frame) ≡ rejected (bad_checksum x k))
        × (e ≡ checksum_mismatch x k))

module _ (P : Posix) where
  pub record Receives (s : Port P) (r : Option Msg × Port P) : Type 0 where
    pub junk : List ℕ
    pub frame : List ℕ
    pub refused : All (λ b. is_length b ≡ false) junk
    pub bytes : All IsByte frame
    pub moved : Evolves P (junk ++ frame) [] s r.1
    pub whole : (m : Msg) → r.0 ≡ some m → IsFrame frame
    pub parsed : (m : Msg) → r.0 ≡ some m → deserialise_message frame (length frame) ≡ accepted m
    pub kept : (m : Msg) → r.0 ≡ some m → r.1.last_error ≡ s.last_error
    pub reason : r.0 ≡ none → Refusal junk frame r.1.last_error

  Receives-nothing :
      (s t : Port P) (junk frame : List ℕ) (e : LinkError)
      → All (λ b. is_length b ≡ false) junk
      → All IsByte frame
      → Evolves P (junk ++ frame) [] s t
      → Refusal junk frame e
      → Receives s (none, record t { last_error = e })
  Receives-nothing s t junk frame e refused b moved why = record {
    junk = junk;
    frame = frame;
    refused = refused;
    bytes = b;
    moved =
        rw (append-nil (junk ++ frame)) at
          (Evolves-trans P (junk ++ frame) [] [] [] s t _ moved (set_error-Evolves P e t));
    whole = λ m bad. cc;
    parsed = λ m bad. cc;
    kept = λ m bad. cc;
    reason = λ _. why;
  }

  finish-Receives :
      (s t : Port P) (junk frame : List ℕ)
      → All (λ b. is_length b ≡ false) junk
      → All IsByte frame
      → Evolves P (junk ++ frame) [] s t
      → t.last_error ≡ s.last_error
      → IsFrame frame
      → ((m : Msg) × (deserialise_message frame (length frame) ≡ accepted m))
        ⊎ ((e r : ℕ) × (deserialise_message frame (length frame) ≡ rejected (bad_checksum e r)))
      → Receives s (finish P (deserialise_message frame (length frame)) t)
  unfolding finish
  finish-Receives s t junk frame refused b moved same full (inl (m, e)) =
      rw (e, finish)
        (record {
          junk = junk;
          frame = frame;
          refused = refused;
          bytes = b;
          moved = moved;
          whole = λ m' h. full;
          parsed = λ m' h. e ∙ ground arith;
          kept = λ m' h. same;
          reason = λ bad. cc;
        })
  finish-Receives s t junk frame refused b moved same full (inr (x, r, e)) =
      rw (e, finish)
        (Receives-nothing s t junk frame (checksum_mismatch x r) refused b moved
          (inr (inr (full, x, r, e, refl))))

  receive_rest-Receives :
      (start timeout_ms : ℕ) (s t : Port P) (w : Wait)
      → w ≢ starved
      → Waits P is_length start timeout_ms 0 s (w, t)
      → Receives s (receive_rest P timeout_ms w t)
  unfolding receive_rest
  receive_rest-Receives start timeout_ms s t starved ends h = absurd (ends refl)
  receive_rest-Receives start timeout_ms s t (timed_out n) ends h =
      let e : n ≡ length h.skipped = omega (arith, h.ending.1) in
      Receives-nothing s t h.skipped [] (length_timeout n) h.refused tt h.moved
        (inl (refl, ap length_timeout e))
  receive_rest-Receives start timeout_ms s t (got len n) ends h =
      let (bs, u) = read_bytes P (len + 1) timeout_ms t in
      let rest : Reads P (len + 1) [] t (bs, u) = read_bytes-Reads P (len + 1) timeout_ms t in
      let frame_bytes : All IsByte (len ∷ bs) =
        ((All-append_right IsByte h.skipped (len ∷ []) h.bytes).0, rw rest.result rest.bytes) in
      let all : Evolves P (h.skipped ++ len ∷ bs) [] s u =
        rw (rest.result, ← append_assoc h.skipped (len ∷ []) rest.more)
          (Evolves-trans P (h.skipped ++ len ∷ []) [] rest.more [] s t u h.moved rest.moved) in
      if_cases (λ (m : Io P (Option Msg)). Receives s (m u)) (length bs == len + 1) _ _
        (λ full.
          let sized : length bs ≡ len + 1 = ground arith in
          let size : 1 + len + 1 ≡ length (len ∷ bs) = ground arith in
          rw size (
            finish-Receives s u h.skipped (len ∷ bs) h.refused frame_bytes all
              (rest.same_error ∙ h.same_error) (len, bs, refl, h.ending.0, sized)
              (rw size at (parse_whole len bs h.ending.0))))
        (λ short.
          Receives-nothing s u h.skipped (len ∷ bs) (incomplete (length bs) (len + 1)) h.refused
            frame_bytes all
            (inr (inl (len, bs, refl, h.ending.0, ground (arith, rest.fits), refl))))

  -- receiveMessage sends nothing, and takes from the line first bytes that are no length, then
  -- those of one frame at most: a length byte from 4 to 12, and at most as many bytes as it says
  -- and one more. A message that it returns is what deserialiseMessage reads from the whole of
  -- that frame, and the error note is unchanged. Without a message it notes that no length byte
  -- came, with the count of the bytes before it, or that the frame was cut short, with how many
  -- bytes came and were to come, or that a whole frame had a wrong checksum, and nothing else.
  pub receive_message-Receives :
      (timeout_ms : ℕ) (s : Port P) → Receives s (receive_message P timeout_ms s)
  unfolding receive_message
  receive_message-Receives timeout_ms s =
      let (w, t) = wait_for P is_length timeout_ms s in
      receive_rest-Receives (P.now (P.gettimeofday s.world)) timeout_ms s t w
        (wait_for_returns P is_length timeout_ms s) (wait_for-Waits P is_length timeout_ms s)
