-- ===== src/Frame/RoundTrip.antt =====
-- Writing a frame and reading it back, both ways, and what `deserialiseMessage` reads.
use technosoft_tml_motor.Prelude.{
  ℕ, zero, suc, ◌+◌, ◌-◌, ◌*◌, ◌/◌, ◌%◌, ◌≤◌, ◌<◌, ◌≡◌, refl, sym, ap, ◌∙◌, inl, inr, List, [], ◌∷◌,
  ◌++◌, arith, none, some, length, take, All, length-append, ltb, Bool-cases, All-append,
  append_assoc, append-nil, tests,
}
use technosoft_tml_motor.Frame.{
  Msg, IsMsg, IsByte, sum_bytes, checksum, words_bytes, body, byte_at, read_words,
  serialise_message, deserialise_message, read_message, data_count, accepted, max_msg_bytes,
  high_byte, low_byte,
}
use technosoft_tml_motor.Frame.Bytes.{
  byte_at-append_right, byte_at-append_left, read_words-append_right, read_words-words_bytes,
  length-body, body-IsByte, checksum-append,
}

-- A frame is written exactly when it fits the buffer. It then has `6 + 2 * nData` bytes.
pub serialise_message-some :
    (m : Msg) (buf_len : ℕ)
    → 6 + 2 * length m.words ≤ buf_len
    → (bytes : List ℕ) × (serialise_message m buf_len ≡ some bytes)
      × (length bytes ≡ 6 + 2 * length m.words)
      × All IsByte bytes
unfolding serialise_message
serialise_message-some m buf_len h =
    let ck : ℕ = checksum (body m) (1 + (4 + 2 * length m.words)) in
    (
      body m ++ ck ∷ [],
      ground arith,
      omega (arith, length-append (body m) (ck ∷ []), length-body m),
      All-append IsByte (body m) (ck ∷ []) (body-IsByte m) (omega arith, tt),
    )

pub serialise_message-none :
    (m : Msg) (buf_len : ℕ) → buf_len < 6 + 2 * length m.words → serialise_message m buf_len ≡ none
unfolding serialise_message
serialise_message-none m buf_len h = ground arith

-- The frame of a message, with its checksum and whatever follows.
abbrev pub framed : Msg → List ℕ → List ℕ
framed m rest = body m ++ (sum_bytes (body m) % 256) ∷ rest

read_message-framed :
    (m : Msg) (rest : List ℕ)
    → IsMsg m
    → read_message (framed m rest) (some (length m.words)) ≡ accepted m
unfolding read_message body
read_message-framed m rest v =
    let words : List ℕ = words_bytes m.words ++ (sum_bytes (body m) % 256) ∷ rest in
    ground (
      arith,
      read_words-append_right (length m.words)
          (((4 + 2 * length m.words) % 256)
            ∷ high_byte m.addr
            ∷ low_byte m.addr
            ∷ high_byte m.op_code
            ∷ low_byte m.op_code
            ∷ [])
          words 5 0 (omega arith),
      read_words-words_bytes m.words ((sum_bytes (body m) % 256) ∷ rest) v.words_word,
    )

data_count-even : (n : ℕ) → n ≤ 4 → data_count (4 + 2 * n) ≡ some n
unfolding data_count
data_count-even n h = ground arith

length_byte :
    (m : Msg) (rest : List ℕ) → IsMsg m → byte_at (framed m rest) 0 ≡ 4 + 2 * length m.words
unfolding body
length_byte m rest v = omega (arith, v.few)

pub deserialise_message-framed :
    (m : Msg) (rest : List ℕ) (len : ℕ)
    → IsMsg m
    → 6 + 2 * length m.words ≤ len
    → deserialise_message (framed m rest) len ≡ accepted m
unfolding deserialise_message
deserialise_message-framed m rest len v h =
    let n : ℕ = length m.words in
    let ck : ℕ = sum_bytes (body m) % 256 in
    rw (length_byte m rest v) (
      ground (
        arith,
        checksum-append (body m) (ck ∷ rest) (1 + (4 + 2 * n) + 1 - 1)
            (omega (arith, length-body m)),
        byte_at-append_right (body m) (ck ∷ rest) (1 + (4 + 2 * n) + 1 - 1) 0
            (omega (arith, length-body m)),
        data_count-even n v.few,
        read_message-framed m rest v,
      ))

checksum-body :
    (m : Msg) (n : ℕ) → n ≡ 5 + 2 * length m.words → checksum (body m) n ≡ sum_bytes (body m) % 256
checksum-body m n e =
    ap (λ t. checksum t n) (sym (append-nil (body m)))
    ∙ checksum-append (body m) [] n (omega (arith, length-body m))

pub serialise_message-framed :
    (m : Msg) → IsMsg m → serialise_message m max_msg_bytes ≡ some (framed m [])
unfolding serialise_message
serialise_message-framed m v =
    ground (arith, v.few, checksum-body m (1 + (4 + 2 * length m.words)) (omega arith))

-- A message with 16-bit fields and at most four data words is written into a buffer of 16 bytes, in
-- 6 + 2 * nData bytes, and deserialiseMessage reads that message back from them, whatever bytes
-- follow and for every length that covers them.
pub deserialise_message-serialise_message :
    (m : Msg) (rest : List ℕ)
    → IsMsg m
    → (bytes : List ℕ) × (serialise_message m max_msg_bytes ≡ some bytes)
      × (length bytes ≡ 6 + 2 * length m.words)
      × ((len : ℕ) → length bytes ≤ len → deserialise_message (bytes ++ rest) len ≡ accepted m)
deserialise_message-serialise_message m rest v =
    let ck : ℕ = sum_bytes (body m) % 256 in
    let size : length (framed m []) ≡ 6 + 2 * length m.words =
      omega (arith, length-append (body m) (ck ∷ []), length-body m) in
    (
      framed m [],
      serialise_message-framed m v,
      size,
      λ len h.
          rw (append_assoc (body m) (ck ∷ []) rest)
            (deserialise_message-framed m rest len v (omega (arith, size))),
    )

take-append_left : (xs ys : List ℕ) (n : ℕ) → n ≤ length xs → take n (xs ++ ys) ≡ take n xs
take-append_left xs ys zero h = refl
take-append_left [] ys (suc n) h = absurd (omega arith)
take-append_left (x ∷ xs) ys (suc n) h = ap (◌∷◌ x) (take-append_left xs ys n (omega arith))

checksum-append_left :
    (xs ys : List ℕ) (n : ℕ) → n ≤ length xs → checksum (xs ++ ys) n ≡ checksum xs n
unfolding checksum
checksum-append_left xs ys n h = rw (take-append_left xs ys n h)

read_words-append_left :
    (n : ℕ) (xs ys : List ℕ) (off : ℕ)
    → off + 2 * n ≤ length xs
    → read_words n (xs ++ ys) off ≡ read_words n xs off
unfolding read_words
read_words-append_left zero xs ys off h = refl
read_words-append_left (suc n) xs ys off h = rw (
  byte_at-append_left xs ys off (omega arith),
  byte_at-append_left xs ys (suc off) (omega arith),
  read_words-append_left n xs ys (off + 2) (omega arith),
)

read_message-append_left :
    (xs ys : List ℕ) (p : ℕ)
    → p + 2 ≤ length xs
    → 6 ≤ length xs
    → read_message (xs ++ ys) (data_count p) ≡ read_message xs (data_count p)
unfolding read_message data_count
read_message-append_left xs ys p h six = ground (
  arith,
  byte_at-append_left xs ys 1,
  byte_at-append_left xs ys 2,
  byte_at-append_left xs ys 3,
  byte_at-append_left xs ys 4,
  read_words-append_left ((p - 4) / 2) xs ys 5,
)

-- What deserialiseMessage says of the bytes received, an error included, does not depend on what
-- lies behind them in the buffer.
pub deserialise_message-append :
    (buf rest : List ℕ)
    → deserialise_message (buf ++ rest) (length buf) ≡ deserialise_message buf (length buf)
unfolding deserialise_message
deserialise_message-append buf rest =
    let p : ℕ = byte_at buf 0 in
    elim (Bool-cases (ltb (length buf) 6)) [
      | inl short ↦ rw short
      | inr long ↦ rw (byte_at-append_left buf rest 0 (omega tests)) (
          ground (
            arith,
            checksum-append_left buf rest (1 + p + 1 - 1),
            byte_at-append_left buf rest (1 + p + 1 - 1),
            read_message-append_left buf rest p,
          ))
    ]
