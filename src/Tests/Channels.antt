-- ===== src/Tests/Channels.antt =====
-- Runs of the channel's properties on the line of `Sim`.
use technosoft_tml_motor.Prelude.{
  ℕ, ◌+◌, ◌*◌, ◌-◌, ◌≤◌, ◌<◌, List, [], ◌∷◌, ◌≡◌, ◌≢◌, refl, some, arith,
}
use technosoft_tml_motor.Frame.{
  Msg, serialise_message, max_msg_bytes, body, words_bytes, checksum, sum_bytes,
}
use technosoft_tml_motor.Channel.{
  Port, send_message, receive_message, wait_for, wait_loop, starved, is_length, elapsed_ms,
}
use technosoft_tml_motor.Channel.Waits.{Waits, wait_for-Waits, elapsed_ms_bounds}
use technosoft_tml_motor.Channel.Waits.Ends.{wait_for_ends}
use technosoft_tml_motor.Channel.Send.{Sends, send_message-Sends}
use technosoft_tml_motor.Channel.Receive.{Receives, receive_message-Receives}
use technosoft_tml_motor.Tests.Sim.{line, port}

-- ENDINIT to axis 2.
abbrev endinit : Msg
endinit = record { addr = 0x20; op_code = 0x0020; words = [] }

abbrev endinit_frame : List ℕ
endinit_frame = 4 ∷ 0 ∷ 0x20 ∷ 0 ∷ 0x20 ∷ 0x44 ∷ []

endinit-frame : serialise_message endinit max_msg_bytes ≡ some endinit_frame
unfolding serialise_message body words_bytes checksum sum_bytes
endinit-frame = refl

-- A stray byte waits, and the acknowledge comes behind another one.
abbrev busy : Port line
busy = port (7 ∷ []) ((9 ∷ 0x4F ∷ []) ∷ [])

send_message-Sends_example : Sends line endinit_frame busy (send_message line endinit busy)
send_message-Sends_example = send_message-Sends line endinit endinit_frame busy endinit-frame

-- A whole frame behind two bytes that are no length.
abbrev answering : Port line
answering = port (0x4F ∷ 0xFF ∷ 4 ∷ 0 ∷ 0x10 ∷ 0 ∷ 0x20 ∷ 0x34 ∷ []) []

receive_message-Receives_example : Receives line answering (receive_message line 500 answering)
receive_message-Receives_example = receive_message-Receives line 500 answering

-- Four readings of the clock are equal here, in one microsecond.
wait_for_ends_example :
    (let w = line.gettimeofday answering.world in
      let r =
        wait_loop line is_length 2000004 (line.now w) 500 0 (record answering { world = w }) in
      (r.0 ≢ starved) × (r ≡ wait_for line is_length 500 answering))
wait_for_ends_example = wait_for_ends line is_length 2000004 500 answering (omega arith)

wait_for-Waits_example :
    Waits line is_length
      (line.now (line.gettimeofday answering.world))
      500
      0
      answering
      (wait_for line is_length 500 answering)
wait_for-Waits_example = wait_for-Waits line is_length 500 answering

-- A wait over the change of a second.
elapsed_ms_bounds_example :
    (2000400 - 1999900 < (elapsed_ms 1999900 2000400 + 1) * 1000)
    × (elapsed_ms 1999900 2000400 * 1000 ≤ 2000400 - 1999900 + 999)
elapsed_ms_bounds_example = elapsed_ms_bounds 1999900 2000400 (omega arith)
