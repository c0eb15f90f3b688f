-- ===== src/SetupFile/Zip.antt =====
-- `zipExtractFile` of technosoftSup/src/tmlSerial.cpp, over the bytes of the file. `inflate` is
-- zlib's: what the output buffer of so many bytes holds when the stream ended in it. Memory
-- allocation succeeds, and `out_of_bounds` is an access outside of `fname`, `compBuf` or `outBuf`. The
-- other buffers are read with fixed sizes and offsets. `unset_byte` is a result of one byte that
-- nothing has written.
pub mod Bytes
pub mod Search
pub mod Archive
pub mod Scan
pub mod Unpack
pub mod Bounds
use technosoft_tml_motor.Prelude.{
  ℕ, zero, suc, ◌+◌, ◌-◌, ◌*◌, ◌%◌, ◌^◌, List, [], ◌∷◌, Bool, true, false, not, ◌&&◌, ◌||◌, Option,
  none, some, if◌then◌else◌, ltb, leb, ◌==◌, length, get_or, take, drop, bytes_eq,
}
use technosoft_tml_motor.VarMap.{Name}

pub data ZipError : Type 0 where
  no_end_record short_end_record no_entry bad_local_header short_data : ZipError
  inflate_failed : ZipError
  unsupported_method : ℕ → ZipError

pub data Extracted : Type 0 where
  extracted : List ℕ → Extracted
  not_extracted : ZipError → Extracted
  unset_byte : Extracted
  out_of_bounds : Extracted

abbrev pub Inflate : Type 0
Inflate = List ℕ → ℕ → Option (List ℕ)

-- `zipLE16(p + off)` and `zipLE32(p + off)`.
abbrev pub le16_at : List ℕ → ℕ → ℕ
le16_at p off = get_or p off 0 + get_or p (off + 1) 0 * 2 ^ 8

abbrev pub le32_at : List ℕ → ℕ → ℕ
le32_at p off =
    get_or p off 0
    + get_or p (off + 1) 0 * 2 ^ 8
    + get_or p (off + 2) 0 * 2 ^ 16
    + get_or p (off + 3) 0 * 2 ^ 24

-- `fseek` to the position and `fread` of `n` bytes; `none` is a short read.
unfoldable pub read_at : ℕ → ℕ → List ℕ → Option (List ℕ)
read_at n pos file =
    let bytes = take n (drop pos file) in if length bytes == n then some bytes else none

-- The bytes of a buffer up to its first 0.
unfoldable pub c_string : List ℕ → List ℕ
c_string [] = []
c_string (b ∷ bs) = if b == 0 then [] else b ∷ c_string bs

-- `strncmp(a, b, n) == 0`.
unfoldable pub strncmp_eq : ℕ → List ℕ → List ℕ → Bool
strncmp_eq zero a b = true
strncmp_eq (suc n) [] [] = true
strncmp_eq (suc n) [] (y ∷ b) = false
strncmp_eq (suc n) (x ∷ a) [] = false
strncmp_eq (suc n) (x ∷ a) (y ∷ b) = (x == y) && strncmp_eq n a b

abbrev pub end_signature : List ℕ
end_signature = 0x50 ∷ 0x4B ∷ 0x05 ∷ 0x06 ∷ []

abbrev pub central_signature : List ℕ
central_signature = 0x50 ∷ 0x4B ∷ 0x01 ∷ 0x02 ∷ []

abbrev pub local_signature : List ℕ
local_signature = 0x50 ∷ 0x4B ∷ 0x03 ∷ 0x04 ∷ []

abbrev pub holds : List ℕ → Option (List ℕ) → Bool
holds sig none = false
holds sig (some bytes) = bytes_eq bytes sig

-- The search backwards over `rounds` offsets, the lowest of which is `low`.
unfoldable pub search_end : ℕ → ℕ → List ℕ → Option ℕ
unfolding read_at
search_end zero low file = none
search_end (suc k) low file =
    let rest = search_end k low file in
    if holds end_signature (read_at 4 (low + k) file) then some (low + k) else rest

-- From 22 bytes before the end of the file back to `searchEnd`, as far as a comment can reach.
unfoldable pub find_end : List ℕ → Option ℕ
unfolding search_end
find_end file = let low = length file - (22 + 65535) in search_end (length file - 21 - low) low file

-- What the central directory says of an entry.
pub record Entry : Type 0 where
  pub method : ℕ
  pub comp_size : ℕ
  pub uncomp_size : ℕ
  pub local_off : ℕ

abbrev pub entry_of : List ℕ → Entry
entry_of hdr = record {
  method = le16_at hdr 10;
  comp_size = le32_at hdr 20;
  uncomp_size = le32_at hdr 24;
  local_off = le32_at hdr 42;
}

-- `readLen`: the bytes of a name that fit in `fname`.
abbrev pub name_read : ℕ → ℕ
name_read len = if ltb len 511 then len else 511

unfoldable pub name_matches : Name → ℕ → List ℕ → Bool
unfolding c_string strncmp_eq
name_matches name len fname =
    (len == length name % 2 ^ 16) && strncmp_eq (length name) (c_string fname) name

-- A header of the central directory at a position, with the name behind it.
unfoldable pub central_name : ℕ → List ℕ → List ℕ → Option (List ℕ)
unfolding read_at
central_name pos file hdr =
    if bytes_eq (take 4 hdr) central_signature
    then read_at (name_read (le16_at hdr 28)) (pos + 46) file
    else none

abbrev pub central_length : List ℕ → ℕ
central_length hdr = 46 + le16_at hdr 28 + le16_at hdr 30 + le16_at hdr 32

-- The `fread` of a name would go beyond the 512 bytes of `fname`.
unfoldable pub name_overruns : List ℕ → Bool
name_overruns hdr = bytes_eq (take 4 hdr) central_signature && ltb 512 (name_read (le16_at hdr 28))

pub data Scanned : Type 0 where
  found : Entry → Scanned
  not_found name_overrun : Scanned

-- The scan of the central directory, over the entries left; a header that cannot be read ends it.
unfoldable pub scan : ℕ → ℕ → List ℕ → Name → Scanned
unfolding read_at name_overruns central_name name_matches
scan zero pos file name = not_found
scan (suc k) pos file name = elim (read_at 46 pos file) [
  | none ↦ not_found
  | some hdr ↦ elim (name_overruns hdr) [
    | true ↦ name_overrun
    | false ↦ elim (central_name pos file hdr) [
      | none ↦ not_found
      | some fname ↦ elim (name_matches name (le16_at hdr 28) fname) [
        | true ↦ found (entry_of hdr)
        | false ↦ scan k (pos + central_length hdr) file name
      ]
    ]
  ]
]

-- `uncompSize + 1` is an unsigned 32-bit sum.
abbrev pub buffer_size : Entry → ℕ
buffer_size e = (e.uncomp_size + 1) % 2 ^ 32

abbrev pub inflated : Option (List ℕ) → Extracted
inflated none = not_extracted inflate_failed
inflated (some out) = extracted out

-- `malloc(compSize ? compSize : 1)`.
abbrev pub data_size : Entry → ℕ
data_size e = if e.comp_size == 0 then 1 else e.comp_size

-- `memcpy(outBuf, compBuf, uncompSize)` between the two buffers, and the final 0. A copy of one byte
-- from the buffer of no data copies a byte that was not set.
unfoldable pub copy_stored : Entry → List ℕ → Extracted
copy_stored e comp =
    if ltb (data_size e) e.uncomp_size || leb (buffer_size e) e.uncomp_size
    then out_of_bounds
    else if ltb e.comp_size e.uncomp_size
    then unset_byte
    else extracted (take e.uncomp_size comp)

unfoldable pub decompress : Inflate → Entry → List ℕ → Extracted
unfolding copy_stored
decompress inflate e comp =
    if e.method == 0
    then copy_stored e comp
    else if e.method == 8
    then if leb (buffer_size e) e.uncomp_size
      then out_of_bounds
      else inflated (inflate comp e.uncomp_size)
    else not_extracted (unsupported_method e.method)

unfoldable pub unpack_data : Inflate → Entry → Option (List ℕ) → Extracted
unfolding decompress
unpack_data inflate e none = not_extracted short_data
unpack_data inflate e (some comp) = decompress inflate e comp

-- From the local header to the data behind it.
unfoldable pub unpack_local : Inflate → Entry → List ℕ → Option (List ℕ) → Extracted
unfolding read_at unpack_data
unpack_local inflate e file none = not_extracted bad_local_header
unpack_local inflate e file (some lfh) =
    if bytes_eq (take 4 lfh) local_signature
    then unpack_data inflate e
        (read_at e.comp_size (e.local_off + 30 + (le16_at lfh 26 + le16_at lfh 28)) file)
    else not_extracted bad_local_header

unfoldable pub unpack : Inflate → List ℕ → Scanned → Extracted
unfolding read_at unpack_local
unpack inflate file not_found = not_extracted no_entry
unpack inflate file name_overrun = out_of_bounds
unpack inflate file (found e) = unpack_local inflate e file (read_at 30 e.local_off file)

unfoldable pub extract_listed : Inflate → List ℕ → Name → Option (List ℕ) → Extracted
unfolding scan unpack
extract_listed inflate file name none = not_extracted short_end_record
extract_listed inflate file name (some eocd) =
    unpack inflate file (scan (le16_at eocd 10) (le32_at eocd 16) file name)

unfoldable pub extract_from : Inflate → List ℕ → Name → Option ℕ → Extracted
unfolding read_at extract_listed
extract_from inflate file name none = not_extracted no_end_record
extract_from inflate file name (some off) = extract_listed inflate file name (read_at 22 off file)

-- `zipExtractFile` on a file that could be opened.
unfoldable pub extract : Inflate → List ℕ → Name → Extracted
unfolding find_end extract_from
extract inflate file name = extract_from inflate file name (find_end file)
