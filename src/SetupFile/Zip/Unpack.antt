-- ===== src/SetupFile/Zip/Unpack.antt =====
-- From the central directory's word on an entry to its data, and the whole of `zipExtractFile` on an
-- archive.
use mathlib.Core.Path.{subst}
use technosoft_tml_motor.Prelude.{
  ℕ, ◌+◌, ◌^◌, ◌<◌, ◌≡◌, List, [], ◌∷◌, ◌++◌, refl, sym, ap, ◌∙◌, arith, true, Option, none, some,
  length, length-append, take, drop, All, inl, inr, bytes_eq, append_assoc, append-nil, Bool-cases,
}
use technosoft_tml_motor.VarMap.{Name}
use technosoft_tml_motor.SetupFile.Zip.{
  found, Inflate, Extracted, not_extracted, no_entry, Entry, read_at, scan, decompress, unpack,
  unpack_local, unpack_data, extract, extract_from, extract_listed, le16_at, le32_at, end_signature,
}
use technosoft_tml_motor.SetupFile.Zip.Bytes.{read_at-part}
use technosoft_tml_motor.SetupFile.Zip.Search.{find_end-at}
use technosoft_tml_motor.SetupFile.Zip.Archive.{
  Item, Fits, local_part, local_header, locals, centrals, end_record, archive, find_item,
  item_entry,
}
use technosoft_tml_motor.SetupFile.Zip.Scan.{entry_found, scan-find_item}

local_lengths :
    (it : Item)
    → Fits it
    → (le16_at (local_header it) 26 ≡ length it.name)
      × (le16_at (local_header it) 28 ≡ length it.local_extra)
local_lengths it fits = (ground (arith, fits.name_fits), ground arith)

unpack_at_header :
    (inflate : Inflate) (e : Entry) (file lfh : List ℕ)
    → read_at 30 e.local_off file ≡ some lfh
    → bytes_eq (take 4 lfh) (0x50 ∷ 0x4B ∷ 0x03 ∷ 0x04 ∷ []) ≡ true
    → unpack inflate file (found e)
      ≡ unpack_data inflate e
          (read_at e.comp_size (e.local_off + 30 + (le16_at lfh 26 + le16_at lfh 28)) file)
unfolding unpack unpack_local
unpack_at_header inflate e file lfh read sig = ground arith

unpack-local_part :
    (inflate : Inflate) (it : Item) (pre post : List ℕ) (off : ℕ)
    → Fits it
    → off ≡ length pre
    → unpack inflate (pre ++ (local_part it ++ post)) (found (item_entry off it))
      ≡ decompress inflate (item_entry off it) it.packed
unfolding unpack_data bytes_eq
unpack-local_part inflate it pre post off fits h =
    let (named, extra) = local_lengths it fits in
    let lfh : List ℕ = local_header it in
    let file : List ℕ = pre ++ (local_part it ++ post) in
    let e : Entry = item_entry off it in
    let head : file ≡ pre ++ (lfh ++ (it.name ++ (it.local_extra ++ (it.packed ++ post)))) =
      simp append_assoc in
    let body : file ≡ (pre ++ (lfh ++ (it.name ++ it.local_extra))) ++ (it.packed ++ post) =
      simp append_assoc in
    let read : read_at 30 off file ≡ some lfh = rw head (read_at-part pre lfh _ 30 off refl h) in
    let found : read_at (length it.packed) (off + 30 + (le16_at lfh 26 + le16_at lfh 28)) file
        ≡ some it.packed =
      rw body (
        read_at-part (pre ++ (lfh ++ (it.name ++ it.local_extra))) it.packed post _ _ refl (
          omega (
            arith,
            h,
            named,
            extra,
            length-append pre (lfh ++ (it.name ++ it.local_extra)),
            length-append lfh (it.name ++ it.local_extra),
            length-append it.name it.local_extra,
          ))) in
    unpack_at_header inflate e file lfh read refl ∙ ap (unpack_data inflate e) found

-- Where the first item with a name stands.
record Located (off : ℕ) (its : List Item) (at_ : ℕ) (it : Item) : Type 0 where
  before : List ℕ
  behind : List ℕ
  splits : locals its ≡ before ++ (local_part it ++ behind)
  place : at_ ≡ off + length before
  fit : Fits it

Located-head : (off : ℕ) (x : Item) (its : List Item) → Fits x → Located off (x ∷ its) off x
unfolding locals
Located-head off x its f = record {
  before = [];
  behind = locals its;
  splits = refl;
  place = omega arith;
  fit = f;
}

find_item-Located :
    (name : Name) (its : List Item) (off at_ : ℕ) (it : Item)
    → All Fits its
    → find_item off name its ≡ some (at_, it)
    → Located off its at_ it
unfolding find_item locals
find_item-Located name [] off at_ it fits h = absurd (ground arith)
find_item-Located name (x ∷ its) off at_ it (f, fs) h = elim (Bool-cases (bytes_eq x.name name)) [
  | inl same ↦
      let e : ◌≡◌ {A = Option (ℕ × Item)} (some (off, x)) (some (at_, it)) = rw same at h in
      let p : ◌≡◌ {A = ℕ × Item} (off, x) (at_, it) = cc in
      subst (λ (q : ℕ × Item). Located off (x ∷ its) q.0 q.1) p (Located-head off x its f)
  | inr other ↦
      let later : Located (off + length (local_part x)) its at_ it =
        find_item-Located name its (off + length (local_part x)) at_ it fs (rw other at h) in
      record {
        before = local_part x ++ later.before;
        behind = later.behind;
        splits =
            rw later.splits
              (sym (append_assoc (local_part x) later.before (local_part it ++ later.behind)));
        place = omega (arith, later.place, length-append (local_part x) later.before);
        fit = later.fit;
      }
]

-- What the reader makes of an item: its data is decompressed.
abbrev pub item_result : Inflate → Option (ℕ × Item) → Extracted
item_result inflate none = not_extracted no_entry
item_result inflate (some (off, it)) = decompress inflate (item_entry off it) it.packed

module _ (inflate : Inflate) (name : Name) (short : length name < 2 ^ 16) where
  unpack-find_item :
      (its : List Item) (post : List ℕ) (found : Option (ℕ × Item))
      → All Fits its
      → find_item 0 name its ≡ found
      → unpack inflate (locals its ++ post) (entry_found found) ≡ item_result inflate found
  unfolding unpack
  unpack-find_item its post none fits h = refl
  unpack-find_item its post (some (off, it)) fits h =
      let l : Located 0 its off it = find_item-Located name its 0 off it fits h in
      let split : locals its ++ post ≡ l.before ++ (local_part it ++ (l.behind ++ post)) =
        rw l.splits (
          append_assoc l.before (local_part it ++ l.behind) post
          ∙ ap (λ t. l.before ++ t) (append_assoc (local_part it) l.behind post)) in
      rw split (
        unpack-local_part inflate it l.before (l.behind ++ post) off l.fit (omega (arith, l.place)))

  extract_listed-archive :
      (its : List Item)
      → All Fits its
      → length its < 2 ^ 16
      → length (locals its) < 2 ^ 32
      → extract_listed inflate
          (archive its)
          name
          (some (end_record (length its) (length (centrals 0 its)) (length (locals its))))
        ≡ item_result inflate (find_item 0 name its)
  unfolding extract_listed archive
  extract_listed-archive its fits few small =
      let all : List ℕ = locals its in
      let dir : List ℕ = centrals 0 its in
      let last : List ℕ = end_record (length its) (length dir) (length all) in
      let count : le16_at last 10 ≡ length its = omega arith in
      let place : le32_at last 16 ≡ length all = omega arith in
      let listed : scan (length its) (length all) (all ++ (dir ++ last)) name
          ≡ entry_found (find_item 0 name its) =
        scan-find_item name short its 0 all last (length all) fits (omega arith) refl in
      ap
        (λ n.
          unpack inflate (all ++ (dir ++ last))
            (scan n (le32_at last 16) (all ++ (dir ++ last)) name))
        count
      ∙ ap
          (λ n.
            unpack inflate (all ++ (dir ++ last)) (scan (length its) n (all ++ (dir ++ last)) name))
          place
      ∙ ap (unpack inflate (all ++ (dir ++ last))) listed
      ∙ unpack-find_item its (dir ++ last) (find_item 0 name its) fits refl

  -- Let an archive be as a ZIP writer lays it out, without a comment at its end, with entries
  -- whose names are below 511 bytes and hold no 0 byte, and whose other fields, sizes, counts and
  -- offsets fit the headers. For a name below 65536 bytes, zipExtractFile gives the data of the
  -- first entry with that name, decompressed by that entry's method and sizes, or says that there
  -- is no such entry.
  pub extract-archive :
      (its : List Item)
      → All Fits its
      → length its < 2 ^ 16
      → length (locals its) < 2 ^ 32
      → extract inflate (archive its) name ≡ item_result inflate (find_item 0 name its)
  unfolding extract extract_from archive
  extract-archive its fits few small =
      let all : List ℕ = locals its in
      let dir : List ℕ = centrals 0 its in
      let last : List ℕ = end_record (length its) (length dir) (length all) in
      let file : List ℕ = all ++ (dir ++ last) in
      let behind : file ≡ (all ++ dir) ++ (last ++ []) = simp (append_assoc, append-nil) in
      let sig : file ≡ (all ++ dir) ++ (end_signature ++ drop 4 last) = simp append_assoc in
      let place : ℕ = length (all ++ dir) in
      let read : read_at 22 place file ≡ some last =
        rw behind (read_at-part (all ++ dir) last [] 22 place refl refl) in
      let signed : read_at 4 place file ≡ some end_signature =
        rw sig (read_at-part (all ++ dir) end_signature (drop 4 last) 4 place refl refl) in
      let whole : place + 22 ≡ length file =
        omega
          (arith, length-append all dir, length-append all (dir ++ last), length-append dir last) in
      ap (extract_from inflate file name) (find_end-at file place whole signed)
      ∙ ap (extract_listed inflate file name) read
      ∙ extract_listed-archive its fits few small
