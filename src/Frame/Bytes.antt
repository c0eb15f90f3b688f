-- ===== src/Frame/Bytes.antt =====
-- Sums, indexing and word reads over a concatenation, for the frames of `Frame`.
use technosoft_tml_motor.Prelude.{
  ℕ, zero, suc, ◌+◌, ◌*◌, ◌/◌, ◌%◌, ◌^◌, ◌<◌, ◌≤◌, ◌-◌, ◌≡◌, refl, List, [], ◌∷◌, ◌++◌, arith,
  length, All, take-append,
}
use technosoft_tml_motor.Frame.{
  Msg, IsWord, IsByte, sum_bytes, checksum, words_bytes, body, byte_at, read_words,
  deserialise_message, accepted,
}

pub sum_bytes-append : (xs ys : List ℕ) → sum_bytes (xs ++ ys) ≡ sum_bytes xs + sum_bytes ys
unfolding sum_bytes
sum_bytes-append [] ys = omega arith
sum_bytes-append (x ∷ xs) ys = omega (arith, sum_bytes-append xs ys)

pub byte_at-append_right :
    (xs ys : List ℕ) (i k : ℕ) → i ≡ length xs + k → byte_at (xs ++ ys) i ≡ byte_at ys k
byte_at-append_right [] ys i k e = let e' : i ≡ k = omega arith in rw e'
byte_at-append_right (x ∷ xs) ys zero k e = absurd (omega arith)
byte_at-append_right (x ∷ xs) ys (suc i) k e = byte_at-append_right xs ys i k (omega arith)

pub byte_at-append_left :
    (xs ys : List ℕ) (i : ℕ) → i < length xs → byte_at (xs ++ ys) i ≡ byte_at xs i
byte_at-append_left [] ys i h = absurd (omega arith)
byte_at-append_left (x ∷ xs) ys zero h = refl
byte_at-append_left (x ∷ xs) ys (suc i) h = byte_at-append_left xs ys i (omega arith)

pub read_words-append_right :
    (n : ℕ) (xs ys : List ℕ) (i k : ℕ)
    → i ≡ length xs + k
    → read_words n (xs ++ ys) i ≡ read_words n ys k
unfolding read_words
read_words-append_right zero xs ys i k e = refl
read_words-append_right (suc n) xs ys i k e = rw (
  byte_at-append_right xs ys i k e,
  byte_at-append_right xs ys (suc i) (suc k) (omega arith),
  read_words-append_right n xs ys (i + 2) (k + 2) (omega arith),
)

pub read_words-words_bytes :
    (ws rest : List ℕ) → All IsWord ws → read_words (length ws) (words_bytes ws ++ rest) 0 ≡ ws
unfolding read_words words_bytes
read_words-words_bytes [] rest h = refl
read_words-words_bytes (w ∷ ws) rest h =
    let hi : ℕ = w / 2 ^ 8 % 256 in
    let lo : ℕ = w % 256 in
    ground (
      arith,
      read_words-append_right (length ws) (hi ∷ lo ∷ []) (words_bytes ws ++ rest) 2 0 (omega arith),
      read_words-words_bytes ws rest h.1,
    )

pub length-words_bytes : (ws : List ℕ) → length (words_bytes ws) ≡ 2 * length ws
unfolding words_bytes
length-words_bytes [] = refl
length-words_bytes (w ∷ ws) = omega (arith, length-words_bytes ws)

pub length-body : (m : Msg) → length (body m) ≡ 5 + 2 * length m.words
unfolding body
length-body m = omega (arith, length-words_bytes m.words)

pub words_bytes-IsByte : (ws : List ℕ) → All IsByte (words_bytes ws)
unfolding words_bytes
words_bytes-IsByte [] = tt
words_bytes-IsByte (w ∷ ws) = (omega arith, (omega arith, words_bytes-IsByte ws))

pub body-IsByte : (m : Msg) → All IsByte (body m)
unfolding body
body-IsByte m = (
  omega arith,
  (omega arith, (omega arith, (omega arith, (omega arith, words_bytes-IsByte m.words)))),
)

-- The checksum of a prefix does not see what follows.
pub checksum-append :
    (xs ys : List ℕ) (n : ℕ) → length xs ≡ n → checksum (xs ++ ys) n ≡ sum_bytes xs % 256
unfolding checksum
checksum-append xs ys n e = rw (take-append xs ys n e)

pub byte_at-lt : (xs : List ℕ) (i : ℕ) → All IsByte xs → byte_at xs i < 256
byte_at-lt [] i h = omega arith
byte_at-lt (x ∷ xs) zero h = h.0
byte_at-lt (x ∷ xs) (suc i) h = byte_at-lt xs i h.1

-- The tests that an accepted buffer has passed.
pub accepted_checks :
    (buf : List ℕ) (len : ℕ) (m : Msg)
    → deserialise_message buf len ≡ accepted m
    → (6 ≤ len)
      × (byte_at buf 0 + 2 ≤ len)
      × (checksum buf (1 + byte_at buf 0 + 1 - 1) ≡ byte_at buf (1 + byte_at buf 0 + 1 - 1))
unfolding deserialise_message
accepted_checks buf len m e = ground arith
