-- ===== src/Tests/Calls.antt =====
-- Runs of the properties of the calls, on a channel over the line of `Sim`.
use technosoft_tml_motor.Prelude.{
  ℕ, true, false, List, [], ◌∷◌, ◌≡◌, refl, some, arith, codes, bytes_eq,
}
use technosoft_tml_motor.Prelude.Int.{pos, negsuc, to_word32}
use technosoft_tml_motor.Frame.{
  serialise_message, deserialise_message, body, words_bytes, checksum, sum_bytes, data_count,
  read_message, read_words,
}
use technosoft_tml_motor.VarMap.{get_address, set_address, merge, register_defaults, new_map}
use technosoft_tml_motor.Channel.{
  read_loop, read_bytes, write_loop, write_bytes, wait_byte, wait_loop, wait_for, ack_result,
  wait_ack, transmit, retry, send_frame, send_serialised, send_message, finish, receive_rest,
  receive_message, elapsed_ms,
}
use technosoft_tml_motor.Drive.{Chan, command_msg, request32_msg, write32_msg}
use technosoft_tml_motor.Drive.Opcodes.{op_endinit}
use technosoft_tml_motor.Api.Act.{done}
use technosoft_tml_motor.Api.Plan.{Performs}
use technosoft_tml_motor.Api.Motion.{
  move_absolute, move_relative, move_velocity, immediate, on_event, from_reference, from_measure,
}
use technosoft_tml_motor.Api.Motion.Order.{
  plan_absolute, plan_relative, plan_velocity, move_absolute-Performs, move_relative-Performs,
  move_velocity-Performs,
}
use technosoft_tml_motor.Api.Commands.{drive_initialisation, max_retries}
use technosoft_tml_motor.Api.Commands.Order.{Attempts, drive_initialisation-Attempts}
use technosoft_tml_motor.Api.Variables.{get_long_variable}
use technosoft_tml_motor.Api.Variables.Order.{get_long_variable-set_long_variable}
use technosoft_tml_motor.Tests.Sim.{Fixed, link, channel, acks, fixed}

-- The drive acknowledges a request for APOS and answers it with -5.
abbrev answers : List (List ℕ)
answers =
    (0x4F ∷ 0x0C ∷ 0 ∷ 0x11 ∷ 0xB4 ∷ 0x05 ∷ 0 ∷ 0x21 ∷ 0x02 ∷ 0x28 ∷ 0xFF ∷ 0xFB ∷ 0xFF ∷ 0xFF
      ∷ 0x19 ∷ [])
    ∷ []

abbrev asked : Chan link
asked = channel answers

apos-address : get_address (codes "APOS") asked.ident.var_map ≡ some 0x0228
unfolding get_address set_address merge register_defaults new_map bytes_eq
apos-address = refl

apos-acked : (link.send (request32_msg asked.ident 0x0228) asked.link).0 ≡ true
unfolding request32_msg serialise_message body words_bytes checksum sum_bytes send_message
    send_serialised send_frame transmit retry wait_ack ack_result wait_for wait_loop wait_byte
    read_bytes read_loop write_bytes write_loop elapsed_ms
apos-acked = refl

apos-answered :
    (link.receive (link.send (request32_msg asked.ident 0x0228) asked.link).1).0
    ≡ some (record {
      addr = 0x11;
      op_code = 0xB405;
      words = 0x21 ∷ (write32_msg asked.ident 0x0228 (to_word32 (negsuc 4))).words;
    })
unfolding request32_msg write32_msg to_word32 serialise_message body words_bytes checksum sum_bytes
    send_message send_serialised send_frame transmit retry wait_ack ack_result wait_for wait_loop
    wait_byte read_bytes read_loop write_bytes write_loop elapsed_ms receive_message receive_rest
    finish deserialise_message data_count read_message read_words
apos-answered = refl

get_long_variable-set_long_variable_example :
    (get_long_variable link (codes "APOS") asked).0 ≡ done (negsuc 4)
get_long_variable-set_long_variable_example =
    get_long_variable-set_long_variable link (codes "APOS") 0x0228 0x11 0x21 (negsuc 4) asked
      (omega arith) apos-address apos-acked apos-answered

abbrev willing : Chan link
willing = channel acks

abbrev half : Fixed
half = record { negative = false; magnitude = 0x8000 }

move_absolute-Performs_example :
    Performs link
      (plan_absolute fixed (pos 1000) half half immediate from_reference willing.ident)
      willing
      (move_absolute link fixed (pos 1000) half half immediate from_reference willing)
move_absolute-Performs_example =
    move_absolute-Performs link fixed (pos 1000) half half immediate from_reference willing

move_relative-Performs_example :
    Performs link
      (plan_relative fixed (negsuc 9) half half on_event from_measure willing.ident)
      willing
      (move_relative link fixed (negsuc 9) half half on_event from_measure willing)
move_relative-Performs_example =
    move_relative-Performs link fixed (negsuc 9) half half on_event from_measure willing

move_velocity-Performs_example :
    Performs link
      (plan_velocity fixed half half immediate willing.ident)
      willing
      (move_velocity link fixed half half immediate willing)
move_velocity-Performs_example = move_velocity-Performs link fixed half half immediate willing

drive_initialisation-Attempts_example :
    Attempts link max_retries
      (command_msg willing.ident op_endinit)
      willing
      (drive_initialisation link willing)
drive_initialisation-Attempts_example = drive_initialisation-Attempts link willing
