-- ===== src/Drive/Defs.antt =====
-- The operations, each one message or one request with its answer.
use technosoft_tml_motor.Prelude.{
  ℕ, ◌+◌, ◌*◌, ◌/◌, ◌%◌, ◌^◌, Bool, ◌&&◌, Option, none, some, List, [], ◌∷◌, leb, ◌==◌,
  if◌then◌else◌, length, get_or,
}
use technosoft_tml_motor.Prelude.Int.{ℤ, to_word32}
use technosoft_tml_motor.Prelude.State.{State, ◌>>=◌, pure}
use technosoft_tml_motor.Frame.{Msg}
use technosoft_tml_motor.VarMap.{VarMap}
use technosoft_tml_motor.Channel.{LinkError, unexpected_response}
use technosoft_tml_motor.Link.{Link}
use technosoft_tml_motor.Drive.Opcodes.{
  McrChange, op_give_me_data_16, op_give_me_data_32, op_take_data_16, op_take_data_32,
  op_write_data_16, op_write_data_32, op_sap, op_mcr_config,
}

-- Who talks to whom, and the addresses of the variables: the fields of a TmlChannel that the
-- messages are built from.
pub record Ident : Type 0 where
  pub host_id : ℕ
  pub active_axis : ℕ
  pub var_map : VarMap

-- `(WORD)activeAxisId_ << 4`, for a BYTE.
abbrev pub axis_addr : Ident → ℕ
axis_addr i = i.active_axis * 2 ^ 4 % 2 ^ 16

-- `((WORD)hostId_ << 4) | 0x0001`: the low four bits are free.
abbrev pub sender : Ident → ℕ
sender i = i.host_id * 2 ^ 4 % 2 ^ 16 + 1

abbrev pub low_word : ℕ → ℕ
low_word v = v % 2 ^ 16

abbrev pub high_word : ℕ → ℕ
high_word v = v / 2 ^ 16 % 2 ^ 16

-- The messages.
unfoldable pub command_msg : Ident → ℕ → Msg
command_msg i op = record { addr = axis_addr i; op_code = op; words = [] }

unfoldable pub mcr_msg : Ident → McrChange → Msg
mcr_msg i c = record { addr = axis_addr i; op_code = op_mcr_config; words = c.mask ∷ c.value ∷ [] }

unfoldable pub sap_msg : Ident → ℤ → Msg
sap_msg i z =
    let v = to_word32 z in
    record { addr = axis_addr i; op_code = op_sap; words = low_word v ∷ high_word v ∷ [] }

unfoldable pub write16_msg : Ident → ℕ → ℕ → Msg
write16_msg i address v = record {
  addr = axis_addr i;
  op_code = op_write_data_16;
  words = address ∷ v ∷ [];
}

unfoldable pub write32_msg : Ident → ℕ → ℕ → Msg
write32_msg i address v = record {
  addr = axis_addr i;
  op_code = op_write_data_32;
  words = address ∷ low_word v ∷ high_word v ∷ [];
}

unfoldable pub request16_msg : Ident → ℕ → Msg
request16_msg i address = record {
  addr = axis_addr i;
  op_code = op_give_me_data_16;
  words = sender i ∷ address ∷ [];
}

unfoldable pub request32_msg : Ident → ℕ → Msg
request32_msg i address = record {
  addr = axis_addr i;
  op_code = op_give_me_data_32;
  words = sender i ∷ address ∷ [];
}

module _ (L : Link) where
  open L use {St, send, receive, note}

  -- A TmlChannel.
  pub record Chan : Type 0 where
    pub ident : Ident
    pub link : St

  abbrev pub on_link : {A : Type 0} → State St A → State Chan A
  on_link f c = let (a, s) = f c.link in (a, record c { link = s })

  -- `sendMessage` of a message made for this channel.
  abbrev pub send_made : (Ident → Msg) → State Chan Bool
  send_made msg c = on_link (send (msg c.ident)) c

  unfoldable pub send_command : ℕ → State Chan Bool
  send_command op = send_made (λ i. command_msg i op)

  unfoldable pub send_mcr_config : McrChange → State Chan Bool
  send_mcr_config change = send_made (λ i. mcr_msg i change)

  unfoldable pub send_sap : ℤ → State Chan Bool
  send_sap z = send_made (λ i. sap_msg i z)

  unfoldable pub write_data16 : ℕ → ℕ → State Chan Bool
  write_data16 address v = send_made (λ i. write16_msg i address v)

  unfoldable pub write_data32 : ℕ → ℕ → State Chan Bool
  write_data32 address v = send_made (λ i. write32_msg i address v)

  abbrev set_error : LinkError → State Chan (Unit {0})
  set_error e c = (tt, record c { link = note e c.link })

  -- The test of an answer against the expected opcode and number of words, which the error names.
  unfoldable pub check_answer : ℕ → ℕ → Option Msg → State Chan (Option (List ℕ))
  check_answer op count none c = (none, c)
  check_answer op count (some resp) c =
      if (resp.op_code == op) && leb count (length resp.words) then (some resp.words, c) else (
        none,
        record c { link = note (unexpected_response resp.op_code (length resp.words) op) c.link },
      )

  -- The common part of `readData16` and `readData32`: request, answer, test.
  unfoldable pub ask : (Ident → Msg) → ℕ → ℕ → State Chan (Option (List ℕ))
  unfolding check_answer
  ask request op count = do
    sent ← send_made request
    if sent then (do resp ← on_link receive; check_answer op count resp) else pure none

  abbrev pub word16 : Option (List ℕ) → Option ℕ
  word16 none = none
  word16 (some ws) = some (get_or ws 2 0)

  abbrev pub word32 : Option (List ℕ) → Option ℕ
  word32 none = none
  word32 (some ws) = some (get_or ws 3 0 * 2 ^ 16 + get_or ws 2 0)

  -- `none` is the result `false`, with the caller's variable left as it was.
  unfoldable pub read_data16 : ℕ → State Chan (Option ℕ)
  unfolding ask
  read_data16 address = do
    words ← ask (λ i. request16_msg i address) op_take_data_16 3
    pure (word16 words)

  unfoldable pub read_data32 : ℕ → State Chan (Option ℕ)
  unfolding ask
  read_data32 address = do
    words ← ask (λ i. request32_msg i address) op_take_data_32 4
    pure (word32 words)
