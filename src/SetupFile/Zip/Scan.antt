-- ===== src/SetupFile/Zip/Scan.antt =====
-- The scan of the central directory that the writer of archives puts out.
use technosoft_tml_motor.Prelude.{
  false, ℕ, suc, ◌+◌, ◌^◌, ◌<◌, ◌≡◌, ◌≢◌, List, [], ◌∷◌, ◌++◌, refl, ap, ◌∙◌, arith, Option, none,
  some, length, length-append, All, inl, inr, ◌==◌, ==_iff, bytes_eq, bytes_eq_iff, append_assoc,
  Bool-cases, if◌then◌else◌, ◌&&◌,
}
use technosoft_tml_motor.VarMap.{Name}
use technosoft_tml_motor.SetupFile.Zip.{
  Scanned, found, not_found, name_overruns, read_at, c_string, strncmp_eq, name_matches,
  central_name, central_length, scan, entry_of, name_read, le16_at,
}
use technosoft_tml_motor.SetupFile.Zip.Bytes.{read_at-part}
use technosoft_tml_motor.SetupFile.Zip.Archive.{
  Item, Fits, local_part, central_part, central_header, locals, centrals, find_item, item_entry,
}

c_string-whole : (s : List ℕ) → All (λ b. b ≢ 0) s → c_string s ≡ s
unfolding c_string
c_string-whole [] h = refl
c_string-whole (b ∷ s) h = ground (arith, c_string-whole s h.1)

-- For texts of the same length the first so many bytes are all of them.
strncmp_eq-bytes_eq :
    (a b : List ℕ) → length a ≡ length b → strncmp_eq (length b) a b ≡ bytes_eq a b
unfolding strncmp_eq bytes_eq
strncmp_eq-bytes_eq [] [] h = refl
strncmp_eq-bytes_eq [] (y ∷ b) h = absurd (omega arith)
strncmp_eq-bytes_eq (x ∷ a) [] h = absurd (omega arith)
strncmp_eq-bytes_eq (x ∷ a) (y ∷ b) h =
    ap (λ r. (x == y) && r) (strncmp_eq-bytes_eq a b (omega arith))

name_matches-bytes_eq :
    (name fname : Name)
    → length fname < 511
    → length name < 2 ^ 16
    → All (λ b. b ≢ 0) fname
    → name_matches name (length fname) fname ≡ bytes_eq fname name
unfolding name_matches
name_matches-bytes_eq name fname short fits text = elim (Bool-cases (length fname == length name)) [
  | inl same ↦
      let e : length fname ≡ length name = (==_iff _ _).0 same in
      rw (c_string-whole fname text) (ground (arith, strncmp_eq-bytes_eq fname name e))
  | inr other ↦
      ground (arith, bytes_eq_iff fname name, ap {A = List ℕ} length {x = fname} {y = name})
]

entry_of_header :
    (off : ℕ) (it : Item)
    → Fits it
    → off < 2 ^ 32
    → entry_of (central_header off it) ≡ item_entry off it
entry_of_header off it fits h = ground arith

header_lengths :
    (off : ℕ) (it : Item)
    → Fits it
    → (le16_at (central_header off it) 28 ≡ length it.name)
      × (le16_at (central_header off it) 30 ≡ length it.central_extra)
      × (le16_at (central_header off it) 32 ≡ length it.comment)
header_lengths off it fits = (ground arith, ground arith, ground arith)

abbrev pub entry_found : Option (ℕ × Item) → Scanned
entry_found none = not_found
entry_found (some (off, it)) = found (item_entry off it)

-- The clamp of `readLen` keeps every name within `fname`.
pub name_overruns_never : (hdr : List ℕ) → name_overruns hdr ≡ false
unfolding name_overruns
name_overruns_never hdr = ground arith

central_parts :
    (off : ℕ) (it : Item) (rest post : List ℕ)
    → (central_part off it ++ rest) ++ post
      ≡ central_header off it ++ (it.name ++ (it.central_extra ++ (it.comment ++ (rest ++ post))))
central_parts off it rest post = simp append_assoc

module _ (name : Name) (short : length name < 2 ^ 16) where
  central_name_found :
      (off : ℕ) (it : Item) (pre rest post : List ℕ) (pos : ℕ)
      → Fits it
      → pos ≡ length pre
      → central_name pos (pre ++ ((central_part off it ++ rest) ++ post)) (central_header off it)
        ≡ some it.name
  unfolding central_name bytes_eq
  central_name_found off it pre rest post pos fits hp =
      let (named, _, _) = header_lengths off it fits in
      let split : pre ++ ((central_part off it ++ rest) ++ post)
          ≡ (pre ++ central_header off it)
            ++ (it.name ++ (it.central_extra ++ (it.comment ++ (rest ++ post)))) =
        simp append_assoc in
      let len : name_read (le16_at (central_header off it) 28) ≡ length it.name =
        ground (arith, fits.name_fits) in
      rw (split, len)
        (read_at-part (pre ++ central_header off it) it.name _ _ (pos + 46) refl
          (omega (arith, hp, length-append pre (central_header off it))))

  length-central_part :
      (off : ℕ) (it : Item)
      → Fits it
      → length (central_part off it) ≡ central_length (central_header off it)
  length-central_part off it fits =
      let (a, b, c) = header_lengths off it fits in
      omega (
        arith,
        a,
        b,
        c,
        length-append (central_header off it) (it.name ++ (it.central_extra ++ it.comment)),
        length-append it.name (it.central_extra ++ it.comment),
        length-append it.central_extra it.comment,
      )

  -- One round of the scan, at a header that can be read.
  scan_round :
      (k pos : ℕ) (file hdr fname : List ℕ)
      → read_at 46 pos file ≡ some hdr
      → central_name pos file hdr ≡ some fname
      → scan (suc k) pos file name ≡ (
          if name_matches name (le16_at hdr 28) fname
          then found (entry_of hdr)
          else scan k (pos + central_length hdr) file name)
  unfolding scan
  scan_round k pos file hdr fname read named = ground (arith, name_overruns_never hdr)

  -- The scan of the central directory of an archive finds the first entry with the name.
  pub scan-find_item :
      (its : List Item) (off : ℕ) (pre post : List ℕ) (pos : ℕ)
      → All Fits its
      → off + length (locals its) < 2 ^ 32
      → pos ≡ length pre
      → scan (length its) pos (pre ++ (centrals off its ++ post)) name
        ≡ entry_found (find_item off name its)
  unfolding scan find_item centrals locals
  scan-find_item [] off pre post pos fits h hp = refl
  scan-find_item (it ∷ its) off pre post pos (f, fs) h hp =
      let hdr : List ℕ = central_header off it in
      let later : ℕ = off + length (local_part it) in
      let rest : List ℕ = centrals later its in
      let (named, _, _) = header_lengths off it f in
      let read : read_at 46 pos (pre ++ ((central_part off it ++ rest) ++ post)) ≡ some hdr =
        rw (central_parts off it rest post) (read_at-part pre hdr _ 46 pos refl hp) in
      let fit : off + length (local_part it) + length (locals its) < 2 ^ 32 =
        omega (arith, h, length-append (local_part it) (locals its)) in
      let small : off < 2 ^ 32 = omega (arith, fit) in
      let shift : pre ++ ((central_part off it ++ rest) ++ post)
          ≡ (pre ++ central_part off it) ++ (rest ++ post) =
        simp append_assoc in
      let ih : scan (length its) (pos + central_length hdr)
            (pre ++ ((central_part off it ++ rest) ++ post)) name
          ≡ entry_found (find_item later name its) =
        rw shift (
          scan-find_item its later (pre ++ central_part off it) post (pos + central_length hdr) fs
            fit
            (omega (
              arith,
              hp,
              length-append pre (central_part off it),
              length-central_part off it f,
            ))) in
      let file : List ℕ = pre ++ ((central_part off it ++ rest) ++ post) in
      let same : name_matches name (le16_at hdr 28) it.name ≡ bytes_eq it.name name =
        rw named (name_matches-bytes_eq name it.name f.name_fits short f.name_bytes) in
      scan_round (length its) pos file hdr it.name read
        (central_name_found off it pre rest post pos f hp)
      ∙ rw same (elim (Bool-cases (bytes_eq it.name name)) [
        | inl same ↦ rw same (ap found (entry_of_header off it f small))
        | inr other ↦ rw other ih
      ])
