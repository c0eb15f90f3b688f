-- ===== src/Channel/Address/Split.antt =====
-- How a path `host:port` is read.
use technosoft_tml_motor.Prelude.{
  ℕ, zero, suc, ◌+◌, ◌-◌, ◌*◌, ◌^◌, ◌≤◌, ◌<◌, List, [], ◌∷◌, ◌++◌, ◌≡◌, refl, ap, ◌∙◌, arith, true,
  false, none, some, length, length-append, take, All, is_space, skip_spaces, ◌==◌,
}
use technosoft_tml_motor.Prelude.Int.{pos, to_word32, signed32, signed32-to_word32}
use technosoft_tml_motor.Channel.Address.{
  split_last, is_digit, dec_value, long_of, strtol, atoi, target, target_at, target_of,
  parse_target,
}

abbrev pub IsDigit : ℕ → Type 0
IsDigit b = is_digit b ≡ true

-- The number that digits spell behind `v`.
abbrev pub spelled : ℕ → List ℕ → ℕ
spelled v [] = v
spelled v (b ∷ bs) = spelled (v * 10 + (b - b'0')) bs

dec_value-spelled : (bs : List ℕ) (v : ℕ) → All IsDigit bs → dec_value v bs ≡ spelled v bs
unfolding dec_value
dec_value-spelled [] v h = refl
dec_value-spelled (b ∷ bs) v h = rw h.0 (dec_value-spelled bs (v * 10 + (b - b'0')) h.1)

skip_spaces-digit : (b : ℕ) (bs : List ℕ) → IsDigit b → skip_spaces (b ∷ bs) ≡ b ∷ bs
unfolding skip_spaces
skip_spaces-digit b bs h = let solid : is_space b ≡ false = ground (arith, h) in rw solid

strtol-digit : (b : ℕ) (bs : List ℕ) → IsDigit b → strtol (b ∷ bs) ≡ long_of (dec_value 0 (b ∷ bs))
unfolding strtol
strtol-digit b bs h =
    let minus : (b == b'-') ≡ false = ground (arith, h) in
    let plus : (b == b'+') ≡ false = ground (arith, h) in rw (minus, plus)

long_of-small : (n : ℕ) → n < 2 ^ 31 → long_of n ≡ pos n
long_of-small n h = ground arith

atoi-digits :
    (b : ℕ) (bs : List ℕ)
    → All IsDigit (b ∷ bs)
    → spelled 0 (b ∷ bs) < 2 ^ 31
    → atoi (b ∷ bs) ≡ pos (spelled 0 (b ∷ bs))
unfolding atoi
atoi-digits b bs h fits =
    let n : ℕ = spelled 0 (b ∷ bs) in
    ap (λ s. signed32 (to_word32 (strtol s))) (skip_spaces-digit b bs h.0)
    ∙ ap (λ z. signed32 (to_word32 z))
        (strtol-digit b bs h.0 ∙ ap long_of (dec_value-spelled (b ∷ bs) 0 h) ∙ long_of-small n fits)
    ∙ signed32-to_word32 (pos n) fits

no_colon : (bs : List ℕ) → All IsDigit bs → split_last b':' bs ≡ none
unfolding split_last
no_colon [] h = refl
no_colon (b ∷ bs) h = ground (arith, h.0, no_colon bs h.1)

split_last-append :
    (host bs : List ℕ) → All IsDigit bs → split_last b':' (host ++ b':' ∷ bs) ≡ some (host, bs)
unfolding split_last
split_last-append [] bs h = rw (no_colon bs h)
split_last-append (b ∷ host) bs h = rw (split_last-append host bs h)

take_all : (n : ℕ) (xs : List ℕ) → length xs ≤ n → take n xs ≡ xs
take_all zero [] h = refl
take_all zero (x ∷ xs) h = absurd (omega arith)
take_all (suc n) [] h = refl
take_all (suc n) (x ∷ xs) h = ap (◌∷◌ x) (take_all n xs (omega arith))

target_at-port :
    (host : List ℕ) (n : ℕ) → 0 < n → n < 2 ^ 16 → target_at host (pos n) ≡ target host n
unfolding target_at
target_at-port host n h k = ground arith

-- A path of a host, a colon and at least one digit, of at most 255 bytes, is split into that host
-- and the number that the digits spell, where it is from 1 to 65535.
pub parse_target-port :
    (host : List ℕ) (b : ℕ) (bs : List ℕ)
    → All IsDigit (b ∷ bs)
    → length host + length bs < 254
    → 0 < spelled 0 (b ∷ bs)
    → spelled 0 (b ∷ bs) < 2 ^ 16
    → parse_target (host ++ b':' ∷ b ∷ bs) ≡ target host (spelled 0 (b ∷ bs))
unfolding parse_target target_of
parse_target-port host b bs digits short positive fits =
    ap (λ s. target_of (split_last b':' s))
      (take_all 255 (host ++ b':' ∷ b ∷ bs) (omega (arith, length-append host (b':' ∷ b ∷ bs))))
    ∙ ap target_of (split_last-append host (b ∷ bs) digits)
    ∙ ap (target_at host) (atoi-digits b bs digits (omega (arith, fits)))
    ∙ target_at-port host (spelled 0 (b ∷ bs)) positive fits
