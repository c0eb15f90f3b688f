-- ===== src/Channel/Address.antt =====
-- Device paths: `looksLikeTcp`, and how `connectTcp` reads `host:port`.
pub mod Split
use technosoft_tml_motor.Prelude.{
  ℕ, ◌+◌, ◌-◌, ◌*◌, ◌^◌, List, [], ◌∷◌, Bool, true, false, ◌&&◌, ◌||◌, Option, none, some,
  if◌then◌else◌, ltb, leb, ◌==◌, take, skip_spaces,
}
use technosoft_tml_motor.Prelude.Int.{ℤ, pos, negsuc, to_word32, signed32}

-- `strchr(s, c) != nullptr`.
unfoldable pub has_byte : ℕ → List ℕ → Bool
has_byte c [] = false
has_byte c (b ∷ bs) = (b == c) || has_byte c bs

unfoldable pub looks_like_tcp : List ℕ → Bool
unfolding has_byte
looks_like_tcp [] = false
looks_like_tcp (b ∷ bs) = if b == b'/' || b == b'.' then false else has_byte b':' (b ∷ bs)

abbrev split_here : ℕ → ℕ → List ℕ → Option (List ℕ × List ℕ) → Option (List ℕ × List ℕ)
split_here c b bs none = if b == c then some ([], bs) else none
split_here c b bs (some (before, behind)) = some (b ∷ before, behind)

-- What stands before the last `c`, as `strrchr` finds it, and behind it.
unfoldable pub split_last : ℕ → List ℕ → Option (List ℕ × List ℕ)
split_last c [] = none
split_last c (b ∷ bs) = split_here c b bs (split_last c bs)

abbrev pub is_digit : ℕ → Bool
is_digit b = leb b'0' b && leb b b'9'

-- The number that decimal digits spell behind `v`, up to the first byte that is none.
unfoldable pub dec_value : ℕ → List ℕ → ℕ
dec_value v [] = v
dec_value v (b ∷ bs) =
    let rest = dec_value (v * 10 + (b - b'0')) bs in if is_digit b then rest else v

-- `strtol` ends at the largest and the smallest `long`.
abbrev pub long_of : ℕ → ℤ
long_of v = if ltb v (2 ^ 63) then pos v else pos (2 ^ 63 - 1)

abbrev pub minus_long : ℕ → ℤ
minus_long v =
    if v == 0 then pos 0 else if ltb v (2 ^ 63) then negsuc (v - 1) else negsuc (2 ^ 63 - 1)

unfoldable pub strtol : List ℕ → ℤ
unfolding dec_value
strtol [] = pos 0
strtol (b ∷ bs) =
    if b == b'-'
    then minus_long (dec_value 0 bs)
    else if b == b'+'
    then long_of (dec_value 0 bs)
    else long_of (dec_value 0 (b ∷ bs))

-- `atoi` is glibc's: `(int)strtol(s, nullptr, 10)`.
unfoldable pub atoi : List ℕ → ℤ
unfolding strtol
atoi s = signed32 (to_word32 (strtol (skip_spaces s)))

pub data Target : Type 0 where
  target : List ℕ → ℕ → Target
  without_port bad_port : Target

unfoldable pub target_at : List ℕ → ℤ → Target
target_at host (negsuc n) = bad_port
target_at host (pos n) = if n == 0 || ltb 65535 n then bad_port else target host n

unfoldable pub target_of : Option (List ℕ × List ℕ) → Target
unfolding target_at atoi
target_of none = without_port
target_of (some (host, port)) = target_at host (atoi port)

-- `hostBuf` has room for 255 bytes.
unfoldable pub parse_target : List ℕ → Target
unfolding split_last target_of
parse_target path = target_of (split_last b':' (take 255 path))
