-- ===== src/Tests/Frames.antt =====
-- Runs of the frame's and the address map's properties.
use technosoft_tml_motor.Prelude.{
  ℕ, ◌+◌, ◌*◌, ◌≤◌, List, [], ◌∷◌, ◌++◌, ◌≡◌, refl, some, arith, length, All, set, take, codes,
  bytes_eq,
}
use technosoft_tml_motor.Frame.{
  Msg, IsMsg, IsByte, serialise_message, deserialise_message, accepted, rejected, bad_checksum,
  max_msg_bytes, byte_at, sum_bytes, checksum, read_message, data_count, read_words,
}
use technosoft_tml_motor.Frame.RoundTrip.{deserialise_message-serialise_message}
use technosoft_tml_motor.Frame.Detect.{deserialise_message-set}
use technosoft_tml_motor.Frame.Canonical.{accepted-IsMsg, serialise_message-deserialise_message}
use technosoft_tml_motor.VarMap.{VarMap, get_address}
use technosoft_tml_motor.VarMap.Laws.{IsMap}

-- The request for the 32-bit variable at 0x0228 of axis 2, from host 1.
abbrev request : Msg
request = record { addr = 0x20; op_code = 0xB005; words = 0x11 ∷ 0x0228 ∷ [] }

abbrev request-IsMsg : IsMsg request
request-IsMsg = record {
  addr_word = omega arith;
  op_word = omega arith;
  words_word = (omega arith, (omega arith, tt));
  few = omega arith;
}

abbrev frame : List ℕ
frame = 8 ∷ 0 ∷ 0x20 ∷ 0xB0 ∷ 0x05 ∷ 0 ∷ 0x11 ∷ 0x02 ∷ 0x28 ∷ 0x18 ∷ []

frame-bytes : All IsByte frame
frame-bytes = ground arith

frame-accepted : deserialise_message frame 10 ≡ accepted request
unfolding deserialise_message checksum sum_bytes data_count read_message read_words
frame-accepted = refl

deserialise_message-serialise_message_example :
    (bytes : List ℕ) × (serialise_message request max_msg_bytes ≡ some bytes)
    × (length bytes ≡ 6 + 2 * length request.words)
    × ((len : ℕ)
        → length bytes ≤ len
        → deserialise_message (bytes ++ 0x4F ∷ []) len ≡ accepted request)
deserialise_message-serialise_message_example =
    deserialise_message-serialise_message request (0x4F ∷ []) request-IsMsg

deserialise_message-set_example :
    (expected received : ℕ) × (deserialise_message (set frame 8 0x29) 10
      ≡ rejected (bad_checksum expected received))
deserialise_message-set_example =
    deserialise_message-set frame 10 8 0x29 request frame-bytes frame-accepted (omega arith)
      (omega arith) (omega arith) (omega arith) (λ e. omega (arith, e))

accepted-IsMsg_example : IsMsg request
accepted-IsMsg_example = accepted-IsMsg frame 10 request frame-bytes frame-accepted

serialise_message-deserialise_message_example :
    serialise_message request max_msg_bytes ≡ some (take (byte_at frame 0 + 2) frame)
serialise_message-deserialise_message_example =
    serialise_message-deserialise_message frame 10 request frame-bytes (omega arith) frame-accepted
      refl

-- A setup that moves MER and knows one more variable.
abbrev setup : VarMap
setup = (codes "MER", 0x08FC) ∷ (codes "UVAR", 0x03B0) ∷ []

setup-IsMap : IsMap setup
unfolding get_address bytes_eq
setup-IsMap = (refl, (refl, tt))
