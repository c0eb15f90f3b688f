-- ===== src/Frame/Canonical.antt =====
-- The other way round: what an accepted buffer holds, and that it is what would be sent.
use technosoft_tml_motor.Prelude.{
  ℕ, zero, suc, ◌+◌, ◌-◌, ◌*◌, ◌≤◌, ◌<◌, ◌≡◌, refl, sym, ap, ◌∙◌, List, [], ◌∷◌, ◌++◌, arith, some,
  length, take, All,
}
use technosoft_tml_motor.Frame.{
  Msg, IsMsg, IsWord, IsByte, checksum, words_bytes, body, byte_at, read_words, word_at,
  serialise_message, deserialise_message, data_count, accepted, max_msg_bytes,
}
use technosoft_tml_motor.Frame.RoundTrip.{serialise_message-framed}
use technosoft_tml_motor.Frame.Bytes.{read_words-append_right, byte_at-lt, accepted_checks}

words_bytes-read_words :
    (n : ℕ) (xs : List ℕ)
    → All IsByte xs
    → 2 * n ≤ length xs
    → words_bytes (read_words n xs 0) ≡ take (2 * n) xs
unfolding words_bytes read_words
words_bytes-read_words zero xs h l = refl
words_bytes-read_words (suc n) [] h l = absurd (omega arith)
words_bytes-read_words (suc n) (x ∷ []) h l = absurd (omega arith)
words_bytes-read_words (suc n) (x ∷ y ∷ xs) (hx, (hy, h)) l =
    let twice : 2 * suc n ≡ suc (suc (2 * n)) = omega arith in
    rw (twice, read_words-append_right n (x ∷ y ∷ []) xs 2 0 (omega arith))
      (ground (arith, words_bytes-read_words n xs h (omega arith)))

read_words-IsWord : (n : ℕ) (xs : List ℕ) (i : ℕ) → All IsByte xs → All IsWord (read_words n xs i)
unfolding read_words
read_words-IsWord zero xs i h = tt
read_words-IsWord (suc n) xs i h =
    (omega (arith, byte_at-lt xs i h, byte_at-lt xs (suc i) h), read_words-IsWord n xs (i + 2) h)

length-read_words : (n : ℕ) (xs : List ℕ) (i : ℕ) → length (read_words n xs i) ≡ n
unfolding read_words
length-read_words zero xs i = refl
length-read_words (suc n) xs i = ap suc (length-read_words n xs (i + 2))

split_header :
    (xs : List ℕ)
    → 5 ≤ length xs
    → (b₀ b₁ b₂ b₃ b₄ : ℕ) × (ys : List ℕ) × (xs ≡ b₀ ∷ b₁ ∷ b₂ ∷ b₃ ∷ b₄ ∷ ys)
split_header [] h = absurd (omega arith)
split_header (a ∷ []) h = absurd (omega arith)
split_header (a ∷ b ∷ []) h = absurd (omega arith)
split_header (a ∷ b ∷ c ∷ []) h = absurd (omega arith)
split_header (a ∷ b ∷ c ∷ d ∷ []) h = absurd (omega arith)
split_header (a ∷ b ∷ c ∷ d ∷ e ∷ ys) h = (a, b, c, d, e, ys, refl)

take-suc : (xs : List ℕ) (n : ℕ) → n < length xs → take (suc n) xs ≡ take n xs ++ byte_at xs n ∷ []
take-suc [] n h = absurd (omega arith)
take-suc (x ∷ xs) zero h = refl
take-suc (x ∷ xs) (suc n) h = ap (◌∷◌ x) (take-suc xs n (omega arith))

accepted-read :
    (buf : List ℕ) (len : ℕ) (m : Msg)
    → deserialise_message buf len ≡ accepted m
    → (n : ℕ) × (data_count (byte_at buf 0) ≡ some n)
      × (m ≡ record { addr = word_at buf 1; op_code = word_at buf 3; words = read_words n buf 5 })
unfolding deserialise_message
accepted-read buf len m e = ground arith

data_count-some : (p n : ℕ) → data_count p ≡ some n → (n ≤ 4) × (4 + 2 * n ≤ p + 1)
unfolding data_count
data_count-some p n e = ground arith

-- Whatever deserialiseMessage accepts from a buffer of bytes has 16-bit fields and at most four
-- data words, so that it fits a TmlMsg.
pub accepted-IsMsg :
    (buf : List ℕ) (len : ℕ) (m : Msg)
    → All IsByte buf
    → deserialise_message buf len ≡ accepted m
    → IsMsg m
accepted-IsMsg buf len m bytes e =
    let (n, count, eq) = accepted-read buf len m e in
    rw eq (record {
      addr_word = omega (arith, byte_at-lt buf 1 bytes, byte_at-lt buf 2 bytes);
      op_word = omega (arith, byte_at-lt buf 3 bytes, byte_at-lt buf 4 bytes);
      words_word = read_words-IsWord n buf 5 bytes;
      few = omega (arith, length-read_words n buf 5, data_count-some (byte_at buf 0) n count);
    })

body-read :
    (b₀ b₁ b₂ b₃ b₄ : ℕ) (ys : List ℕ) (n : ℕ)
    → All IsByte (b₀ ∷ b₁ ∷ b₂ ∷ b₃ ∷ b₄ ∷ ys)
    → 2 * n ≤ length ys
    → b₀ ≡ 4 + 2 * n
    → let xs = b₀ ∷ b₁ ∷ b₂ ∷ b₃ ∷ b₄ ∷ ys in
      body (record { addr = word_at xs 1; op_code = word_at xs 3; words = read_words n xs 5 })
      ≡ take (5 + 2 * n) xs
unfolding body
body-read b₀ b₁ b₂ b₃ b₄ ys n (h₀, (h₁, (h₂, (h₃, (h₄, hs))))) h e =
    let five : 5 + 2 * n ≡ suc (suc (suc (suc (suc (2 * n))))) = omega arith in
    rw
      (
        five,
        read_words-append_right n (b₀ ∷ b₁ ∷ b₂ ∷ b₃ ∷ b₄ ∷ []) ys 5 0 (omega arith),
        length-read_words n ys 0,
        words_bytes-read_words n ys hs h,
      )
      (ground arith)

body-accepted :
    (buf : List ℕ) (n : ℕ)
    → All IsByte buf
    → 5 + 2 * n ≤ length buf
    → byte_at buf 0 ≡ 4 + 2 * n
    → body (record { addr = word_at buf 1; op_code = word_at buf 3; words = read_words n buf 5 })
      ≡ take (5 + 2 * n) buf
body-accepted buf n bytes h e =
    let (b₀, b₁, b₂, b₃, b₄, ys, eq) = split_header buf (omega arith) in
    let size : 5 + 2 * n ≤ 5 + length ys = omega (arith, ap length eq) in
    let head : b₀ ≡ 4 + 2 * n = ap (λ t. byte_at t 0) (sym eq) ∙ e in
    rw eq (body-read b₀ b₁ b₂ b₃ b₄ ys n (rw eq at bytes) (omega arith) head)

-- A buffer of bytes that is accepted as a message, with a length that it really has and a length
-- byte of 4 + 2 * nData, begins with exactly the bytes that serialiseMessage writes for that
-- message.
pub serialise_message-deserialise_message :
    (buf : List ℕ) (len : ℕ) (m : Msg)
    → All IsByte buf
    → len ≤ length buf
    → deserialise_message buf len ≡ accepted m
    → byte_at buf 0 ≡ 4 + 2 * length m.words
    → serialise_message m max_msg_bytes ≡ some (take (byte_at buf 0 + 2) buf)
unfolding checksum
serialise_message-deserialise_message buf len m bytes fits e even =
    let (six, room, valid) = accepted_checks buf len m e in
    let (n, count, eq) = accepted-read buf len m e in
    let N : ℕ = length m.words in
    let same : n ≡ N = omega (arith, ap (λ t. length t.words) eq, length-read_words n buf 5) in
    let inner : body m ≡ take (5 + 2 * N) buf =
      ap body eq
      ∙ body-accepted buf n bytes (omega arith) (omega arith)
      ∙ ap (λ k. take (5 + 2 * k) buf) same in
    let place : 1 + byte_at buf 0 + 1 - 1 ≡ 5 + 2 * N = omega arith in
    let total : byte_at buf 0 + 2 ≡ suc (5 + 2 * N) = omega arith in
    rw
      (
        serialise_message-framed m (accepted-IsMsg buf len m bytes e),
        total,
        inner,
        take-suc buf (5 + 2 * N) (omega arith),
      )
      (ap (λ (k : ℕ). some (take (5 + 2 * N) buf ++ k ∷ [])) (rw place at valid))
