-- ===== src/SetupFile/Zip/Search.antt =====
-- The search for the end record.
use technosoft_tml_motor.Prelude.{
  ℕ, zero, suc, ◌+◌, ◌-◌, ◌≤◌, ◌<◌, List, ◌≡◌, ap, arith, Option, none, some, length, Bool-cases,
  inl, inr, if_cases, ◌==◌, ==_iff,
}
use technosoft_tml_motor.SetupFile.Zip.{read_at, holds, end_signature, search_end, find_end}
use technosoft_tml_motor.SetupFile.Zip.Bytes.{holds-some, holds-ne}

abbrev pub EndsAt : List ℕ → ℕ → Type 0
EndsAt file off = read_at 4 off file ≡ some end_signature

-- The last of the offsets `low` to `low + k - 1` with the signature.
abbrev IsLast : List ℕ → ℕ → ℕ → Option ℕ → Type 0
IsLast file low k none = (off : ℕ) → low ≤ off → off < low + k → EndsAt file off → ⊥
IsLast file low k (some found) =
    EndsAt file found
    × (low ≤ found)
    × (found < low + k)
    × ((off : ℕ) → found < off → off < low + k → EndsAt file off → ⊥)

-- One more offset without the signature, above those searched.
IsLast-suc :
    (file : List ℕ) (low k : ℕ) (o : Option ℕ)
    → (EndsAt file (low + k) → ⊥)
    → IsLast file low k o
    → IsLast file low (suc k) o
IsLast-suc file low k none unsigned last = λ off h g e. elim (Bool-cases (off == low + k)) [
  | inl top ↦ unsigned (rw ((==_iff off (low + k)).0 top) at e)
  | inr other ↦ last off h (ground arith) e
]
IsLast-suc file low k (some found) unsigned (here, above, below, last) = (
  here,
  above,
  omega arith,
  λ off h g e. elim (Bool-cases (off == low + k)) [
    | inl top ↦ unsigned (rw ((==_iff off (low + k)).0 top) at e)
    | inr other ↦ last off h (ground arith) e
  ],
)

search_end-IsLast : (k low : ℕ) (file : List ℕ) → IsLast file low k (search_end k low file)
unfolding search_end
search_end-IsLast zero low file = λ off h g e. omega arith
search_end-IsLast (suc k) low file =
    if_cases (IsLast file low (suc k)) (holds end_signature (read_at 4 (low + k) file)) _ _
      (λ t. (holds-some end_signature _ t, omega arith, omega arith, λ off h g e. omega arith))
      (λ f.
        IsLast-suc file low k (search_end k low file) (holds-ne end_signature _ f)
          (search_end-IsLast k low file))

-- The last place of the signature that leaves room for an end record, and is no further from the
-- end of the file than the longest comment allows.
abbrev pub LastEnd : List ℕ → Option ℕ → Type 0
LastEnd file none =
    (off : ℕ) → length file ≤ off + 65557 → off + 22 ≤ length file → EndsAt file off → ⊥
LastEnd file (some found) =
    EndsAt file found
    × (length file ≤ found + 65557)
    × (found + 22 ≤ length file)
    × ((off : ℕ) → found < off → off + 22 ≤ length file → EndsAt file off → ⊥)

in_range :
    (file : List ℕ) (o : Option ℕ)
    → IsLast file (length file - 65557) (length file - 21 - (length file - 65557)) o
    → LastEnd file o
in_range file none last = λ off h g e. last off (omega arith) (omega arith) e
in_range file (some found) (here, above, below, last) =
    (here, omega arith, omega arith, λ off h g e. last off h (omega arith) e)

-- The search for the end record gives the last place of its signature that leaves room for 22
-- bytes, no further from the end of the file than a comment of 65535 bytes allows, and none exactly
-- where there is no such place.
pub find_end-LastEnd : (file : List ℕ) → LastEnd file (find_end file)
unfolding find_end
find_end-LastEnd file =
    let low : ℕ = length file - 65557 in
    in_range file _ (search_end-IsLast (length file - 21 - low) low file)

same_end :
    (file : List ℕ) (off : ℕ) (o : Option ℕ)
    → off + 22 ≡ length file
    → EndsAt file off
    → LastEnd file o
    → o ≡ some off
same_end file off none h e last = absurd (last off (omega arith) (omega arith) e)
same_end file off (some found) h e (here, near, room, last) = elim (Bool-cases (found == off)) [
  | inl same ↦ ap some ((==_iff found off).0 same)
  | inr other ↦ absurd (last off (ground arith) (omega arith) e)
]

-- An end record with no comment behind it is found.
pub find_end-at :
    (file : List ℕ) (off : ℕ) → off + 22 ≡ length file → EndsAt file off → find_end file ≡ some off
find_end-at file off h e = same_end file off (find_end file) h e (find_end-LastEnd file)
