-- ===== src/SetupFile/Config/RoundTrip.antt =====
-- A writer of lines `TYPE NAME @0xADDR`, with what may stand behind the address, and the reader on
-- them.
use technosoft_tml_motor.Prelude.{
  ℕ, suc, ◌^◌, ◌≤◌, ◌<◌, List, [], ◌∷◌, ◌++◌, ◌≡◌, ◌≢◌, refl, sym, ap, ◌∙◌, arith, some, length,
  All, All-append, append_assoc, append-nil, ne→==,
}
use technosoft_tml_motor.VarMap.{Name, VarMap, merge}
use technosoft_tml_motor.SetupFile.Zip.{c_string}
use technosoft_tml_motor.SetupFile.Config.{
  scan_string, scan_fields, parse_address, strip_cr, address_line, parse_stripped, parse_line,
  token, lines, load_config,
}
use technosoft_tml_motor.SetupFile.Config.Merge.{entries, listed, load_config-merge}
use technosoft_tml_motor.SetupFile.Config.Words.{
  IsBlank, IsSolid, Stops, scan_string-word, hex4, hex4-IsSolid, parse_address-hex4,
}

-- A byte that can stand within a line.
abbrev pub IsText : ℕ → Type 0
IsText b = (b ≢ 0) × (b ≢ b'\n')

-- A line of variables.cfg. The type and the name are given as a first byte and the rest.
pub record Line : Type 0 where
  pub kind : ℕ
  pub kind_rest : List ℕ
  pub gap : List ℕ
  pub name : ℕ
  pub name_rest : List ℕ
  pub gap' : List ℕ
  pub address : ℕ
  pub flags : List ℕ

pub record IsLine (l : Line) : Type 0 where
  pub no_comment : l.kind ≢ b'#'
  pub kind_solid : All IsSolid (l.kind ∷ l.kind_rest)
  pub kind_fits : length (l.kind ∷ l.kind_rest) ≤ 31
  pub gap_blank : All IsBlank (b' ' ∷ l.gap)
  pub name_solid : All IsSolid (l.name ∷ l.name_rest)
  pub name_fits : length (l.name ∷ l.name_rest) ≤ 63
  pub gap'_blank : All IsBlank (b' ' ∷ l.gap')
  pub address_fits : l.address < 2 ^ 16
  pub flags_stop : Stops l.flags

abbrev pub fields : Line → List ℕ
fields l =
    l.kind
    ∷ (l.kind_rest
        ++ (b' '
            ∷ (l.gap
                ++ (l.name
                    ∷ (l.name_rest
                        ++ (b' '
                            ∷ (l.gap' ++ (b'@' ∷ ((b'0' ∷ b'x' ∷ hex4 l.address) ++ l.flags)))))))))

-- The text of the file, each line ended by a carriage return and a newline.
unfoldable pub print : List Line → List ℕ
print [] = []
print (l ∷ ls) = fields l ++ (b'\r' ∷ b'\n' ∷ print ls)

abbrev pub entry : Line → Name × ℕ
entry l = (l.name ∷ l.name_rest, l.address)

-- The names with their addresses, in the order of the lines.
abbrev pub listing : List Line → List (Name × ℕ)
listing [] = []
listing (l ∷ ls) = entry l ∷ listing ls

abbrev IsWhole : Line → Type 0
IsWhole l = IsLine l × All IsText (fields l)

both : (ls : List Line) → All IsLine ls → All (λ l. All IsText (fields l)) ls → All IsWhole ls
both [] h t = tt
both (l ∷ ls) h t = ((h.0, t.0), both ls h.1 t.1)

scan_fields_lem :
    (line r s t k n a : List ℕ)
    → scan_string 31 line ≡ some (k, r)
    → scan_string 63 r ≡ some (n, s)
    → scan_string 31 s ≡ some (a, t)
    → scan_fields line ≡ some (k, n, a)
unfolding scan_fields
scan_fields_lem line r s t k n a one two three = ground arith

parse_stripped_lem :
    (b : ℕ) (bs k n a : List ℕ) (v : ℕ)
    → b ≢ b'#'
    → scan_fields (b ∷ bs) ≡ some (k, n, a)
    → parse_address a ≡ some v
    → parse_stripped (b ∷ bs) ≡ some (n, v)
unfolding parse_stripped address_line
parse_stripped_lem b bs k n a v h read found = ground arith

parse_stripped-fields : (l : Line) → IsLine l → parse_stripped (fields l) ≡ some (entry l)
parse_stripped-fields l h =
    let addr : List ℕ = b'@' ∷ b'0' ∷ b'x' ∷ hex4 l.address in
    let third : List ℕ = b' ' ∷ (l.gap' ++ (addr ++ l.flags)) in
    let second : List ℕ = b' ' ∷ (l.gap ++ (l.name ∷ (l.name_rest ++ third))) in
    parse_stripped_lem l.kind (l.kind_rest ++ second) (l.kind ∷ l.kind_rest) (l.name ∷ l.name_rest)
      addr l.address h.no_comment
      (scan_fields_lem (fields l) second third l.flags (l.kind ∷ l.kind_rest) (l.name ∷ l.name_rest)
        addr (scan_string-word [] l.kind l.kind_rest 31 second tt h.kind_fits h.kind_solid refl)
        (scan_string-word (b' ' ∷ l.gap) l.name l.name_rest 63 third h.gap_blank h.name_fits
          h.name_solid refl)
        (scan_string-word (b' ' ∷ l.gap') b'@' (b'0' ∷ b'x' ∷ hex4 l.address) 31 l.flags
          h.gap'_blank (omega arith) (refl, (refl, (refl, hex4-IsSolid l.address))) h.flags_stop))
      (parse_address-hex4 l.address h.address_fits)

strip_cr-append : (s : List ℕ) → strip_cr (s ++ b'\r' ∷ []) ≡ s
unfolding strip_cr
strip_cr-append [] = refl
strip_cr-append (b ∷ []) = refl
strip_cr-append (b ∷ c ∷ s) = ap (◌∷◌ b) (strip_cr-append (c ∷ s))

parse_line-fields : (l : Line) → IsLine l → parse_line (fields l ++ b'\r' ∷ []) ≡ some (entry l)
unfolding parse_line
parse_line-fields l h = ap parse_stripped (strip_cr-append (fields l)) ∙ parse_stripped-fields l h

-- A line is cut off at its newline.
lines-line :
    (acc s rest : List ℕ)
    → All IsText s
    → lines acc (s ++ b'\n' ∷ rest) ≡ token (acc ++ s) (lines [] rest)
unfolding lines
lines-line acc [] rest h = rw append-nil
lines-line acc (b ∷ s) rest ((z, n), h) =
    rw (ne→== b b'\n' n) (lines-line (acc ++ b ∷ []) s rest h ∙ rw append_assoc)

abbrev printed : List Line → List (List ℕ)
printed [] = []
printed (l ∷ ls) = (fields l ++ b'\r' ∷ []) ∷ printed ls

lines-line_cr :
    (l : Line) (rest : List ℕ)
    → All IsText (fields l)
    → lines [] (fields l ++ (b'\r' ∷ b'\n' ∷ rest)) ≡ (fields l ++ b'\r' ∷ []) ∷ lines [] rest
lines-line_cr l rest h =
    let text : All IsText (fields l ++ b'\r' ∷ []) =
      All-append IsText (fields l) (b'\r' ∷ []) h (omega arith) in
    let split : fields l ++ (b'\r' ∷ b'\n' ∷ rest) ≡ (fields l ++ b'\r' ∷ []) ++ (b'\n' ∷ rest) =
      sym (append_assoc (fields l) (b'\r' ∷ []) (b'\n' ∷ rest)) in
    ap (lines []) split ∙ lines-line [] (fields l ++ b'\r' ∷ []) rest text

lines-print : (ls : List Line) → All IsWhole ls → lines [] (print ls) ≡ printed ls
unfolding print
lines-print [] h = unfold lines in refl
lines-print (l ∷ ls) ((f, t), h) =
    lines-line_cr l (print ls) t ∙ ap (◌∷◌ (fields l ++ b'\r' ∷ [])) (lines-print ls h)

entries-printed : (ls : List Line) → All IsWhole ls → entries (printed ls) ≡ listing ls
unfolding entries
entries-printed [] h = refl
entries-printed (l ∷ ls) ((f, t), h) =
    ap (λ o. listed o (entries (printed ls))) (parse_line-fields l f)
    ∙ ap (◌∷◌ (entry l)) (entries-printed ls h)

c_string-append : (s rest : List ℕ) → All IsText s → c_string (s ++ rest) ≡ s ++ c_string rest
unfolding c_string
c_string-append [] rest h = refl
c_string-append (b ∷ s) rest ((z, n), h) = rw (ne→== b 0 z) (ap (◌∷◌ b) (c_string-append s rest h))

c_string-line_end : (s : List ℕ) → c_string (b'\r' ∷ b'\n' ∷ s) ≡ b'\r' ∷ b'\n' ∷ c_string s
unfolding c_string
c_string-line_end s = refl

c_string-print : (ls : List Line) → All IsWhole ls → c_string (print ls) ≡ print ls
unfolding print
c_string-print [] h = unfold c_string in refl
c_string-print (l ∷ ls) ((f, t), h) =
    c_string-append (fields l) (b'\r' ∷ b'\n' ∷ print ls) t
    ∙ ap (λ s. fields l ++ s)
        (c_string-line_end (print ls) ∙ ap (λ s. b'\r' ∷ b'\n' ∷ s) (c_string-print ls h))

length-listing : (ls : List Line) → length (listing ls) ≡ length ls
length-listing [] = refl
length-listing (l ∷ ls) = ap suc (length-listing ls)

-- Let lines have a type of at most 31 bytes that does not begin with #, a name of at most 63 bytes,
-- neither with white space in it, an address below 65536, white space between them, and behind the
-- address nothing or white space and any flags, all without 0 bytes and newlines. Printed in the
-- format of variables.cfg, they are read back as exactly their names and addresses, all of them
-- counted.
pub load_config-print :
    (ls : List Line) (m : VarMap)
    → All IsLine ls
    → All (λ l. All IsText (fields l)) ls
    → load_config (print ls) m ≡ (merge m (listing ls), length ls)
load_config-print ls m h t =
    let whole : All IsWhole ls = both ls h t in
    let same : entries (lines [] (c_string (print ls))) ≡ listing ls =
      ap (λ s. entries (lines [] s)) (c_string-print ls whole)
      ∙ ap entries (lines-print ls whole)
      ∙ entries-printed ls whole in
    load_config-merge (print ls) m
    ∙ ap (λ es. (merge m es, length es)) same
    ∙ ap (λ n. (merge m (listing ls), n)) (length-listing ls)
