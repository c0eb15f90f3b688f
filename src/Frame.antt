-- ===== src/Frame.antt =====
-- The serial frame of technosoftSup/src/tmlSerial.cpp: checksum, serialiseMessage and
-- deserialiseMessage of TmlChannel, and the TmlMsg of tmlSerial.h. A byte is a number below 256 and
-- a WORD one below 65536; `hi << 8 | lo` on bytes is `hi * 256 + lo`.
pub mod Bytes
pub mod RoundTrip
pub mod Detect
pub mod Canonical
use technosoft_tml_motor.Prelude.{
  ℕ, zero, suc, ◌+◌, ◌-◌, ◌*◌, ◌/◌, ◌%◌, ◌^◌, ◌≤◌, ◌<◌, Bool, Option, none, some, List, [], ◌∷◌,
  ◌++◌, ltb, leb, ◌==◌, ◌||◌, if◌then◌else◌, length, get_or, take, All,
}

-- `TmlMsg`. `words` is `data[0 .. nData)`, so `nData` is its length.
pub record Msg : Type 0 where
  pub addr : ℕ
  pub op_code : ℕ
  pub words : List ℕ

abbrev pub max_msg_bytes : ℕ
max_msg_bytes = 16

abbrev pub IsWord : ℕ → Type 0
IsWord w = w < 2 ^ 16

abbrev pub IsByte : ℕ → Type 0
IsByte b = b < 256

-- A message that the C type can hold: 16-bit fields and at most four data words.
pub record IsMsg (m : Msg) : Type 0 where
  pub addr_word : IsWord m.addr
  pub op_word : IsWord m.op_code
  pub words_word : All IsWord m.words
  pub few : length m.words ≤ 4

unfoldable pub sum_bytes : List ℕ → ℕ
sum_bytes [] = 0
sum_bytes (b ∷ bs) = b + sum_bytes bs

-- `unsigned sum` over `buf[0 .. len)`, then `sum & 0xFF`. A sum of at most 2 ^ 32 bytes wraps
-- `unsigned` at a multiple of 256, which the last step forgets.
unfoldable pub checksum : List ℕ → ℕ → ℕ
unfolding sum_bytes
checksum buf len = sum_bytes (take len buf) % 256

abbrev pub high_byte : ℕ → ℕ
high_byte w = w / 2 ^ 8 % 256

abbrev pub low_byte : ℕ → ℕ
low_byte w = w % 256

-- The loop over the data words.
unfoldable pub words_bytes : List ℕ → List ℕ
words_bytes [] = []
words_bytes (w ∷ ws) = high_byte w ∷ low_byte w ∷ words_bytes ws

-- The bytes before the checksum, in the order in which `buf[idx++]` writes them.
unfoldable pub body : Msg → List ℕ
unfolding words_bytes
body m =
    (4 + 2 * length m.words) % 256
    ∷ high_byte m.addr
    ∷ low_byte m.addr
    ∷ high_byte m.op_code
    ∷ low_byte m.op_code
    ∷ words_bytes m.words

-- `none` is the result -1: the frame does not fit `bufLen` bytes.
unfoldable pub serialise_message : Msg → ℕ → Option (List ℕ)
unfolding body checksum
serialise_message m buf_len =
    let payload_bytes = 4 + 2 * length m.words in
    let total_bytes = 1 + payload_bytes + 1 in
    if ltb buf_len total_bytes
    then none
    else some (body m ++ checksum (body m) (1 + payload_bytes) ∷ [])

-- Why a buffer holds no message. The last two come with a `setError`, the first two do not.
pub data FrameError : Type 0 where
  too_short truncated : FrameError
  bad_checksum : ℕ → ℕ → FrameError
  bad_count : FrameError

pub data Parse : Type 0 where
  accepted : Msg → Parse
  rejected : FrameError → Parse

abbrev pub byte_at : List ℕ → ℕ → ℕ
byte_at buf i = get_or buf i 0

abbrev pub word_at : List ℕ → ℕ → ℕ
word_at buf i = byte_at buf i * 2 ^ 8 + byte_at buf (suc i)

-- The loop that reads `n` data words from offset `off` on.
unfoldable pub read_words : ℕ → List ℕ → ℕ → List ℕ
read_words zero buf off = []
read_words (suc n) buf off = word_at buf off ∷ read_words n buf (off + 2)

-- `nData = (payloadLen - 4) / 2` in C's `int`, which truncates toward 0: below 3 it is negative,
-- and 3 gives 0. `none` stands for a count outside `0 .. 4`.
unfoldable pub data_count : ℕ → Option ℕ
data_count payload_len =
    if ltb payload_len 3
    then none
    else if ltb 4 ((payload_len - 4) / 2)
    then none
    else some ((payload_len - 4) / 2)

unfoldable pub read_message : List ℕ → Option ℕ → Parse
unfolding read_words
read_message buf none = rejected bad_count
read_message buf (some n) =
    accepted (record { addr = word_at buf 1; op_code = word_at buf 3; words = read_words n buf 5 })

unfoldable pub deserialise_message : List ℕ → ℕ → Parse
unfolding checksum data_count read_message
deserialise_message buf len =
    let payload_len = byte_at buf 0 in
    let expected_total = 1 + payload_len + 1 in
    let expected_ck = checksum buf (expected_total - 1) in
    let received_ck = byte_at buf (expected_total - 1) in
    if ltb len 6
    then rejected too_short
    else if ltb len expected_total
    then rejected truncated
    else if expected_ck == received_ck
    then read_message buf (data_count payload_len)
    else rejected (bad_checksum expected_ck received_ck)
