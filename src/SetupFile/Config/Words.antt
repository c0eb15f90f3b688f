-- ===== src/SetupFile/Config/Words.antt =====
-- What the conversions of `sscanf` read of words, gaps and addresses.
use technosoft_tml_motor.Prelude.{
  ℕ, zero, suc, ◌+◌, ◌-◌, ◌*◌, ◌/◌, ◌%◌, ◌^◌, ◌≤◌, ◌<◌, List, [], ◌∷◌, ◌++◌, ◌≡◌, refl, ap, ◌∙◌,
  arith, true, false, some, length, All, if◌then◌else◌, ltb, is_space, skip_spaces,
}
use technosoft_tml_motor.SetupFile.Config.{
  scan_word, scan_string, not_empty, hex_digit, hex_value, parse_address,
}

abbrev pub IsBlank : ℕ → Type 0
IsBlank b = is_space b ≡ true

abbrev pub IsSolid : ℕ → Type 0
IsSolid b = is_space b ≡ false

-- A word ends here: at the end of the line or at a blank.
abbrev pub Stops : List ℕ → Type 0
Stops [] = Unit {0}
Stops (b ∷ bs) = IsBlank b

scan_word-stop : (n : ℕ) (rest : List ℕ) → Stops rest → scan_word n rest ≡ ([], rest)
unfolding scan_word
scan_word-stop zero rest h = refl
scan_word-stop (suc n) [] h = refl
scan_word-stop (suc n) (b ∷ bs) h = rw h

scan_word-append :
    (w : List ℕ) (n : ℕ) (rest : List ℕ)
    → length w ≤ n
    → All IsSolid w
    → Stops rest
    → scan_word n (w ++ rest) ≡ (w, rest)
unfolding scan_word
scan_word-append [] n rest fits h stop = scan_word-stop n rest stop
scan_word-append (b ∷ w) zero rest fits h stop = absurd (omega arith)
scan_word-append (b ∷ w) (suc n) rest fits h stop =
    rw (h.0, scan_word-append w n rest (omega arith) h.1 stop)

skip_spaces-append :
    (gap rest : List ℕ) → All IsBlank gap → skip_spaces (gap ++ rest) ≡ skip_spaces rest
unfolding skip_spaces
skip_spaces-append [] rest h = refl
skip_spaces-append (b ∷ gap) rest h = rw h.0 (skip_spaces-append gap rest h.1)

-- A word behind a gap is read whole.
pub scan_string-word :
    (gap : List ℕ) (b : ℕ) (w : List ℕ) (n : ℕ) (rest : List ℕ)
    → All IsBlank gap
    → length (b ∷ w) ≤ n
    → All IsSolid (b ∷ w)
    → Stops rest
    → scan_string n (gap ++ (b ∷ (w ++ rest))) ≡ some (b ∷ w, rest)
unfolding scan_string skip_spaces
scan_string-word gap b w n rest blank fits solid stop =
    let skipped : skip_spaces (gap ++ (b ∷ (w ++ rest))) ≡ b ∷ (w ++ rest) =
      skip_spaces-append gap (b ∷ (w ++ rest)) blank ∙ rw solid.0 in
    ap (λ t. not_empty (scan_word n t)) skipped
    ∙ ap not_empty (scan_word-append (b ∷ w) n rest fits solid stop)

-- A digit in capital letters.
abbrev pub hex_char : ℕ → ℕ
hex_char d = if ltb d 10 then b'0' + d else b'A' + d - 10

abbrev pub hex4 : ℕ → List ℕ
hex4 a =
    hex_char (a / 2 ^ 12)
    ∷ hex_char (a / 2 ^ 8 % 16)
    ∷ hex_char (a / 2 ^ 4 % 16)
    ∷ hex_char (a % 16)
    ∷ []

hex_digit-hex_char : (d : ℕ) → d < 16 → hex_digit (hex_char d) ≡ some d
hex_digit-hex_char d h = ground arith

hex_char-IsSolid : (d : ℕ) → IsSolid (hex_char d)
hex_char-IsSolid d = ground arith

pub hex4-IsSolid : (a : ℕ) → All IsSolid (hex4 a)
hex4-IsSolid a = (
  hex_char-IsSolid (a / 2 ^ 12),
  (
    hex_char-IsSolid (a / 2 ^ 8 % 16),
    (hex_char-IsSolid (a / 2 ^ 4 % 16), (hex_char-IsSolid (a % 16), tt)),
  ),
)

hex_value-hex_char :
    (v d : ℕ) (bs : List ℕ) → d < 16 → hex_value v (hex_char d ∷ bs) ≡ hex_value (v * 16 + d) bs
unfolding hex_value
hex_value-hex_char v d bs h = ground (arith, hex_digit-hex_char d h)

hex_value-hex4 : (a : ℕ) → a < 2 ^ 16 → hex_value 0 (hex4 a) ≡ a
unfolding hex_value
hex_value-hex4 a h =
    let d₃ : ℕ = hex_char (a / 2 ^ 12) in
    let d₂ : ℕ = hex_char (a / 2 ^ 8 % 16) in
    let d₁ : ℕ = hex_char (a / 2 ^ 4 % 16) in
    let d₀ : ℕ = hex_char (a % 16) in
    let v₃ : ℕ = 0 * 16 + a / 2 ^ 12 in
    let v₂ : ℕ = v₃ * 16 + a / 2 ^ 8 % 16 in
    let v₁ : ℕ = v₂ * 16 + a / 2 ^ 4 % 16 in
    let whole : v₁ * 16 + a % 16 ≡ a = omega arith in
    hex_value-hex_char 0 (a / 2 ^ 12) (d₂ ∷ d₁ ∷ d₀ ∷ []) (omega arith)
    ∙ hex_value-hex_char v₃ (a / 2 ^ 8 % 16) (d₁ ∷ d₀ ∷ []) (omega arith)
    ∙ hex_value-hex_char v₂ (a / 2 ^ 4 % 16) (d₀ ∷ []) (omega arith)
    ∙ hex_value-hex_char v₁ (a % 16) [] (omega arith)
    ∙ whole

pub parse_address-hex4 : (a : ℕ) → a < 2 ^ 16 → parse_address (b'@' ∷ b'0' ∷ b'x' ∷ hex4 a) ≡ some a
unfolding parse_address
parse_address-hex4 a h = ap some (rw (hex_value-hex4 a h) (ground arith))
