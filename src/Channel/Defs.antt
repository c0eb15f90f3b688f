-- ===== src/Channel/Defs.antt =====
-- The operations of the channel over an operating system `P`.
use technosoft_tml_motor.Prelude.{
  ℕ, zero, suc, ◌+◌, ◌-◌, ◌*◌, ◌/◌, ◌%◌, List, [], ◌∷◌, ◌++◌, Bool, true, false, not, ◌&&◌, ◌||◌,
  Option, none, some, leb, ◌==◌, if◌then◌else◌, length, drop, get_or,
}
use technosoft_tml_motor.Prelude.State.{State, ◌>>=◌, ◌>>◌, pure, gets}
use technosoft_tml_motor.Frame.{
  Msg, FrameError, too_short, truncated, bad_checksum, bad_count, Parse, accepted, rejected,
  serialise_message, deserialise_message, max_msg_bytes,
}
use technosoft_tml_motor.Channel.System.{Posix}

abbrev pub ack_byte : ℕ
ack_byte = 0x4F

abbrev pub sync_byte : ℕ
sync_byte = 0x0D

abbrev pub max_sync_retry : ℕ
max_sync_retry = 15

abbrev pub ack_timeout_ms : ℕ
ack_timeout_ms = 500

abbrev pub resp_timeout_ms : ℕ
resp_timeout_ms = 500

-- What `lastError_` says: one constructor for each text that `setError` formats.
pub data LinkError : Type 0 where
  no_error write_failed serialise_failed resync_failed invalid_count : LinkError
  ack_timeout : ℕ → ℕ → LinkError
  length_timeout : ℕ → LinkError
  incomplete : ℕ → ℕ → LinkError
  checksum_mismatch : ℕ → ℕ → LinkError
  unexpected_response : ℕ → ℕ → ℕ → LinkError
  tcgetattr_failed tcsetattr_failed : LinkError
  cannot_open : List ℕ → ℕ → LinkError
  no_port invalid_port : List ℕ → LinkError
  unresolved : List ℕ → ℕ → LinkError
  connect_failed : List ℕ → ℕ → LinkError

-- How a loop that waits for one byte ends. `starved` means that the model's fuel ran out.
pub data Wait : Type 0 where
  got : ℕ → ℕ → Wait
  timed_out : ℕ → Wait
  starved : Wait

-- `(tNow.tv_sec - tStart.tv_sec) * 1000 + (tNow.tv_usec - tStart.tv_usec) / 1000`, where the
-- division truncates toward 0.
unfoldable pub elapsed_ms : ℕ → ℕ → ℕ
elapsed_ms start t =
    let secs = (t / 1000000 - start / 1000000) * 1000 in
    let u₀ = start % 1000000 in
    let u₁ = t % 1000000 in if leb u₀ u₁ then secs + (u₁ - u₀) / 1000 else secs - (u₀ - u₁) / 1000

-- What the deserialiser's errors leave in `lastError_`.
unfoldable pub frame_error : FrameError → LinkError → LinkError
frame_error too_short e = e
frame_error truncated e = e
frame_error (bad_checksum expected received) e = checksum_mismatch expected received
frame_error bad_count e = invalid_count

-- The values of a length byte; all others are junk between frames.
abbrev pub is_length : ℕ → Bool
is_length b = leb 4 b && leb b 12

module _ (P : Posix) where
  open P use {World, grain, now, gettimeofday, select, read, write, tcdrain, usleep}

  -- The transport part of a TmlChannel; `is_open` is `fd_ >= 0`.
  pub record Port : Type 0 where
    pub is_open : Bool
    pub is_tcp : Bool
    pub last_error : LinkError
    pub world : World

  abbrev pub Io : Type 0 → Type 0
  Io A = State Port A

  -- A system call, on the port's world.
  abbrev pub call : {A : Type 0} → (World → A × World) → Io A
  call f s = let (a, w) = f s.world in (a, record s { world = w })

  abbrev pub act : (World → World) → Io (Unit {0})
  act f s = (tt, record s { world = f s.world })

  -- `gettimeofday(&t, nullptr)`, and its reading.
  abbrev pub clock : Io ℕ
  clock s = let w = gettimeofday s.world in (now w, record s { world = w })

  abbrev pub set_error : LinkError → Io (Unit {0})
  set_error e s = (tt, record s { last_error = e })

  -- The `while` of `readBytes`. Each round but the last takes a byte at least, so `count` rounds
  -- are enough.
  unfoldable pub read_loop : ℕ → ℕ → ℕ → List ℕ → Io (List ℕ)
  read_loop zero deadline count acc = pure acc
  read_loop (suc fuel) deadline count acc = if leb count (length acc) then pure acc else do
    t ← clock
    if leb deadline t then pure acc else do
      ready ← call (select (deadline - t))
      if ready
          then (do
            bytes ← call (read (count - length acc))
            if length bytes == 0 then pure acc else read_loop fuel deadline count (acc ++ bytes))
          else pure acc

  unfoldable pub read_bytes : ℕ → ℕ → Io (List ℕ)
  unfolding read_loop
  read_bytes count timeout_ms s =
      if not s.is_open || count == 0
      then ([], s)
      else (do t ← clock; read_loop count (t + timeout_ms * 1000) count []) s

  -- The `while` of `writeBytes`, over the bytes not yet written. Each round but the last writes a
  -- byte at least, so as many rounds as bytes are enough.
  unfoldable pub write_loop : ℕ → List ℕ → Io Bool
  write_loop zero rest = pure true
  write_loop (suc fuel) [] = pure true
  write_loop (suc fuel) (b ∷ rest) = do
    n ← call (write (b ∷ rest))
    if n == 0 then set_error write_failed >> pure false else write_loop fuel (drop n (b ∷ rest))

  unfoldable pub write_bytes : List ℕ → Io Bool
  unfolding write_loop
  write_bytes bytes s =
      if not s.is_open
      then (false, s)
      else (do
        done ← write_loop (length bytes) bytes
        is_tcp ← gets (λ s. s.is_tcp)
        if done && not is_tcp then act tcdrain >> pure true else pure done)
          s

  -- What one round of the wait does with what `readBytes(&byte, 1, stepMs)` gave.
  unfoldable pub wait_byte : (ℕ → Bool) → (ℕ → Io Wait) → ℕ → List ℕ → Io Wait
  wait_byte accept again junk [] = again junk
  wait_byte accept again junk (byte ∷ _) =
      if accept byte then pure (got byte junk) else again (junk + 1)

  -- The loop of `waitAck` and of the length byte in `receiveMessage`: bytes that are not accepted
  -- are counted and dropped, until the wall clock reaches the timeout.
  unfoldable pub wait_loop : (ℕ → Bool) → ℕ → ℕ → ℕ → ℕ → Io Wait
  unfolding wait_byte
  wait_loop accept zero start timeout_ms junk = pure starved
  wait_loop accept (suc fuel) start timeout_ms junk = do
    t ← clock
    if leb timeout_ms (elapsed_ms start t) then pure (timed_out junk) else do
      bytes ← read_bytes 1 2
      wait_byte accept (wait_loop accept fuel start timeout_ms) junk bytes

  -- The fuel of a wait: every round reads the clock, and so many readings take longer than the
  -- timeout.
  abbrev pub rounds : ℕ → ℕ
  rounds timeout_ms = (timeout_ms * 1000 + 1) * grain

  unfoldable pub wait_for : (ℕ → Bool) → ℕ → Io Wait
  unfolding wait_loop
  wait_for accept timeout_ms = do
    start ← clock
    wait_loop accept (rounds timeout_ms) start timeout_ms 0

  -- The two ends of `waitAck`. The model's third is never reached: `Waits.Ends.wait_for_returns`.
  unfoldable pub ack_result : ℕ → Wait → Io Bool
  ack_result timeout_ms (got b junk) = pure true
  ack_result timeout_ms (timed_out junk) = set_error (ack_timeout timeout_ms junk) >> pure false
  ack_result timeout_ms starved = pure false

  unfoldable pub wait_ack : ℕ → Io Bool
  unfolding ack_result
  wait_ack timeout_ms = do w ← wait_for (λ b. b == ack_byte) timeout_ms; ack_result timeout_ms w

  -- The `for` of `resync`, over the attempts left.
  unfoldable pub resync_loop : ℕ → Io Bool
  unfolding read_bytes write_bytes
  resync_loop zero = set_error resync_failed >> pure false
  resync_loop (suc attempts) = do
    written ← write_bytes (sync_byte ∷ [])
    if written
        then (do
          resp ← read_bytes 1 2
          if get_or resp 0 0 == sync_byte then pure true else resync_loop attempts)
        else pure false

  unfoldable pub resync : Io Bool
  unfolding resync_loop
  resync = resync_loop max_sync_retry

  -- Write the frame and wait for the acknowledge; `next` is what follows when none comes.
  unfoldable pub transmit : List ℕ → Io Bool → Io Bool
  transmit frame next = do
    written ← write_bytes frame
    if written
        then (do acked ← wait_ack ack_timeout_ms; if acked then pure true else next)
        else pure false

  -- The single retry: settle, drain, and send the same frame again.
  unfoldable pub retry : List ℕ → Io Bool
  unfolding transmit
  retry frame = do act (usleep 50000); read_bytes 64 10; transmit frame (pure false)

  unfoldable pub send_frame : List ℕ → Io Bool
  unfolding transmit retry
  send_frame frame = do read_bytes 64 1; transmit frame (retry frame)

  unfoldable pub send_serialised : Option (List ℕ) → Io Bool
  unfolding send_frame
  send_serialised none = set_error serialise_failed >> pure false
  send_serialised (some frame) = send_frame frame

  unfoldable pub send_message : Msg → Io Bool
  unfolding send_serialised
  send_message msg = send_serialised (serialise_message msg max_msg_bytes)

  -- The end of `deserialiseMessage` as `receiveMessage` sees it: the message, or the error noted.
  unfoldable pub finish : Parse → Io (Option Msg)
  unfolding frame_error
  finish (accepted m) s = (some m, s)
  finish (rejected e) s = (none, record s { last_error = frame_error e s.last_error })

  -- What follows the search for the length byte.
  unfoldable pub receive_rest : ℕ → Wait → Io (Option Msg)
  unfolding finish
  receive_rest timeout_ms (timed_out junk) = set_error (length_timeout junk) >> pure none
  receive_rest timeout_ms starved = pure none
  receive_rest timeout_ms (got len junk) = do
    bytes ← read_bytes (len + 1) timeout_ms
    if length bytes == len + 1
        then finish (deserialise_message (len ∷ bytes) (1 + len + 1))
        else set_error (incomplete (length bytes) (len + 1)) >> pure none

  unfoldable pub receive_message : ℕ → Io (Option Msg)
  unfolding receive_rest
  receive_message timeout_ms = do w ← wait_for is_length timeout_ms; receive_rest timeout_ms w

  -- `close`; what the descriptor's `::close` does to the world is not looked at.
  unfoldable pub close_port : Io (Unit {0})
  close_port s = (tt, if s.is_open then record s { is_open = false; is_tcp = false } else s)
