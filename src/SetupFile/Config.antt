-- ===== src/SetupFile/Config.antt =====
-- The lines of variables.cfg, as `TmlVariableMap::loadFromZip` of technosoftSup/src/tmlSerial.cpp
-- reads them with `strtok_r` and `sscanf`. `%x` is glibc's: it accepts `0x` with no digit behind it
-- as 0, and a number beyond 64 bits as 2 ^ 64 - 1.
pub mod Merge
pub mod Words
pub mod RoundTrip
use technosoft_tml_motor.Prelude.{
  ℕ, zero, suc, ◌+◌, ◌-◌, ◌*◌, ◌%◌, ◌^◌, List, [], ◌∷◌, ◌++◌, Bool, true, false, ◌&&◌, ◌||◌, Option,
  none, some, if◌then◌else◌, ltb, leb, ◌==◌, is_space, skip_spaces,
}
use technosoft_tml_motor.Prelude.Chain.{◌>>=◌}
use technosoft_tml_motor.SetupFile.Zip.{c_string}
use technosoft_tml_motor.VarMap.{Name, VarMap, set_address}

-- At most `n` bytes that are no white space, and what is left.
unfoldable pub scan_word : ℕ → List ℕ → List ℕ × List ℕ
scan_word zero bs = ([], bs)
scan_word (suc n) [] = ([], [])
scan_word (suc n) (b ∷ bs) =
    if is_space b then ([], b ∷ bs) else let (w, rest) = scan_word n bs in (b ∷ w, rest)

-- A conversion that reads no byte fails.
abbrev pub not_empty : List ℕ × List ℕ → Option (List ℕ × List ℕ)
not_empty ([], rest) = none
not_empty (b ∷ w, rest) = some (b ∷ w, rest)

-- `%<n>s`, behind white space.
unfoldable pub scan_string : ℕ → List ℕ → Option (List ℕ × List ℕ)
unfolding skip_spaces scan_word
scan_string n bs = not_empty (scan_word n (skip_spaces bs))

-- `sscanf(line, "%31s %63s %31s", type, name, addrStr)`; `none` where fewer than three are read.
unfoldable pub scan_fields : List ℕ → Option (List ℕ × List ℕ × List ℕ)
scan_fields line = do
  (kind, r) ← scan_string 31 line
  (name, s) ← scan_string 63 r
  (addr, _) ← scan_string 31 s
  some (kind, name, addr)

abbrev pub hex_digit : ℕ → Option ℕ
hex_digit b =
    if leb b'0' b && leb b b'9'
    then some (b - b'0')
    else if leb b'a' b && leb b b'f'
    then some (b - b'a' + 10)
    else if leb b'A' b && leb b b'F'
    then some (b - b'A' + 10)
    else none

-- The number that hexadecimal digits spell behind `v`, up to the first byte that is none.
unfoldable pub hex_value : ℕ → List ℕ → ℕ
hex_value v [] = v
hex_value v (b ∷ bs) = elim (hex_digit b) [ none ↦ v | some d ↦ hex_value (v * 16 + d) bs ]

-- The conversion of glibc ends at the largest `unsigned long`.
abbrev pub saturated : ℕ → ℕ
saturated v = if ltb v (2 ^ 64) then v else 2 ^ 64 - 1

-- The test for `@0x` and the `%x` behind it; `addrStr` is filled up with zeros.
unfoldable pub parse_address : List ℕ → Option ℕ
unfolding hex_value
parse_address (p ∷ q ∷ r ∷ digits) =
    if p == b'@' && q == b'0' && (r == b'x' || r == b'X')
    then some (saturated (hex_value 0 digits) % 2 ^ 16)
    else none
parse_address _ = none

-- The carriage return at the end of a line is dropped.
unfoldable pub strip_cr : List ℕ → List ℕ
strip_cr [] = []
strip_cr (b ∷ []) = if b == b'\r' then [] else b ∷ []
strip_cr (b ∷ c ∷ bs) = b ∷ strip_cr (c ∷ bs)

unfoldable pub address_line : Option (List ℕ × List ℕ × List ℕ) → Option (Name × ℕ)
address_line none = none
address_line (some (kind, name, addr)) = do a ← parse_address addr; some (name, a)

-- What a stripped line says: nothing, or the address of a name.
unfoldable pub parse_stripped : List ℕ → Option (Name × ℕ)
unfolding scan_fields address_line
parse_stripped [] = none
parse_stripped (b ∷ bs) = if b == b'#' then none else address_line (scan_fields (b ∷ bs))

unfoldable pub parse_line : List ℕ → Option (Name × ℕ)
unfolding strip_cr parse_stripped
parse_line line = parse_stripped (strip_cr line)

-- An empty token is no token.
abbrev pub token : List ℕ → List (List ℕ) → List (List ℕ)
token [] rest = rest
token (b ∷ bs) rest = (b ∷ bs) ∷ rest

-- `strtok_r` with "\n": the lines behind what is read of the current one.
unfoldable pub lines : List ℕ → List ℕ → List (List ℕ)
lines acc [] = token acc []
lines acc (b ∷ bs) =
    let rest = lines (if b == b'\n' then [] else acc ++ b ∷ []) bs in
    if b == b'\n' then token acc rest else rest

unfoldable pub add_entry : Option (Name × ℕ) → VarMap × ℕ → VarMap × ℕ
add_entry none (m, count) = (m, count)
add_entry (some (name, a)) (m, count) = (set_address name a m, count + 1)

unfoldable pub load_lines : List (List ℕ) → VarMap × ℕ → VarMap × ℕ
unfolding add_entry parse_line
load_lines [] s = s
load_lines (line ∷ ls) s = load_lines ls (add_entry (parse_line line) s)

-- The `while` over the lines of the extracted text, with the number of entries set.
unfoldable pub load_config : List ℕ → VarMap → VarMap × ℕ
unfolding lines load_lines c_string
load_config text m = load_lines (lines [] (c_string text)) (m, 0)
