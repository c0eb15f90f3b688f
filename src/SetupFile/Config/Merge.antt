-- ===== src/SetupFile/Config/Merge.antt =====
-- The loop over the lines of variables.cfg, and a merge with the entries that they list.
use technosoft_tml_motor.Prelude.{
  zero, suc, true, is_space, Bool-cases, inl, inr, skip_spaces, ℕ, ◌+◌, List, [], ◌∷◌, ◌≡◌, refl,
  ap, ◌∙◌, arith, Option, none, some, length,
}
use technosoft_tml_motor.VarMap.{Name, VarMap, set_address, merge}
use technosoft_tml_motor.SetupFile.Zip.{c_string}
use technosoft_tml_motor.SetupFile.Config.{
  scan_fields, scan_string, scan_word, parse_stripped, strip_cr, address_line, parse_line, lines,
  add_entry, load_lines, load_config,
}
use technosoft_tml_motor.SetupFile.Config.Words.{scan_string-word}

abbrev pub listed : Option (Name × ℕ) → List (Name × ℕ) → List (Name × ℕ)
listed none es = es
listed (some e) es = e ∷ es

-- What the lines say, in their order.
unfoldable pub entries : List (List ℕ) → List (Name × ℕ)
entries [] = []
entries (line ∷ ls) = listed (parse_line line) (entries ls)

add_entry-merge :
    (o : Option (Name × ℕ)) (es : List (Name × ℕ)) (m : VarMap) (n : ℕ)
    → (let s : VarMap × ℕ = add_entry o (m, n) in
        ◌≡◌ {A = VarMap × ℕ}
          (merge s.0 es, s.1 + length es)
          (merge m (listed o es), n + length (listed o es)))
unfolding add_entry merge
add_entry-merge none es m n = refl
add_entry-merge (some (name, a)) es m n =
    ap (λ t. (merge (set_address name a m) es, t)) (omega arith)

load_lines-merge :
    (ls : List (List ℕ)) (s : VarMap × ℕ)
    → load_lines ls s ≡ (merge s.0 (entries ls), s.1 + length (entries ls))
unfolding load_lines entries merge
load_lines-merge [] s = ap (λ t. (s.0, t)) (omega arith)
load_lines-merge (line ∷ ls) s =
    load_lines-merge ls (add_entry (parse_line line) s)
    ∙ add_entry-merge (parse_line line) (entries ls) s.0 s.1

-- The loop over the lines as one merge with what they say.
pub load_config-merge :
    (text : List ℕ) (m : VarMap)
    → load_config text m
      ≡ (merge m (entries (lines [] (c_string text))), length (entries (lines [] (c_string text))))
unfolding load_config
load_config-merge text m =
    load_lines-merge (lines [] (c_string text)) (m, 0)
    ∙ ap (λ t. (merge m (entries (lines [] (c_string text))), t)) (omega arith)

scan_string-blank : (n b : ℕ) → is_space b ≡ true → scan_string n (b ∷ []) ≡ none
unfolding scan_string scan_word skip_spaces
scan_string-blank zero b h = refl
scan_string-blank (suc n) b h = rw h refl

scan_string-nil : (n : ℕ) → scan_string n [] ≡ none
unfolding scan_string scan_word skip_spaces
scan_string-nil zero = refl
scan_string-nil (suc n) = refl

scan_fields-one : (b : ℕ) → scan_fields (b ∷ []) ≡ none
unfolding scan_fields
scan_fields-one b = elim (Bool-cases (is_space b)) [
  | inl blank ↦ rw (scan_string-blank 31 b blank) refl
  | inr solid ↦
      rw (scan_string-word [] b [] 31 [] tt (omega arith) (solid, tt) tt, scan_string-nil 63) refl
]

parse_line-one : (b : ℕ) → parse_line (b ∷ []) ≡ none
unfolding parse_line parse_stripped strip_cr address_line
parse_line-one b = ground (arith, scan_fields-one b)

-- A text of one byte has no entry.
load_config-one : (b : ℕ) (m : VarMap) → load_config (b ∷ []) m ≡ (m, 0)
unfolding load_config c_string lines load_lines add_entry
load_config-one b m = ground (arith, parse_line-one b)
