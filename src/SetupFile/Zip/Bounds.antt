-- ===== src/SetupFile/Zip/Bounds.antt =====
-- When the reader leaves its buffers.
use technosoft_tml_motor.Prelude.{
  true, ◌+◌, ◌≤◌, ◌⊎◌, take, bytes_eq, ℕ, ◌^◌, ◌<◌, ◌≡◌, List, ap, ◌∙◌, arith, some, length, All,
}
use technosoft_tml_motor.VarMap.{Name}
use technosoft_tml_motor.SetupFile.Zip.{
  found, data_size, Entry, read_at, scan, local_signature, find_end, le16_at, le32_at, copy_stored,
  Inflate, out_of_bounds, decompress, extract,
}
use technosoft_tml_motor.SetupFile.Zip.Archive.{Item, Fits, locals, archive, find_item, item_entry}
use technosoft_tml_motor.SetupFile.Zip.Unpack.{item_result, extract-archive}

-- Stored with a larger size than the buffer of the data has, or too large for `uncompSize + 1`.
abbrev pub Overruns : Entry → Type 0
Overruns e =
    ((e.method ≡ 0) × (data_size e < e.uncomp_size))
    ⊎ (((e.method ≡ 0) ⊎ (e.method ≡ 8)) × (2 ^ 32 ≤ e.uncomp_size + 1))

-- The central directory lists the entry under the name.
pub record Listed (file : List ℕ) (name : Name) (e : Entry) : Type 0 where
  pub place : ℕ
  pub eocd : List ℕ
  pub end_record : find_end file ≡ some place
  pub record_read : read_at 22 place file ≡ some eocd
  pub first : scan (le16_at eocd 10) (le32_at eocd 16) file name ≡ found e

abbrev data_place : Entry → List ℕ → ℕ
data_place e lfh = e.local_off + 30 + (le16_at lfh 26 + le16_at lfh 28)

-- The entry's data can be read, and its sizes lead out of the buffers.
pub record Faulty (e : Entry) (file : List ℕ) : Type 0 where
  pub lfh : List ℕ
  pub comp : List ℕ
  pub header_read : read_at 30 e.local_off file ≡ some lfh
  pub signed : bytes_eq (take 4 lfh) local_signature ≡ true
  pub data_read : read_at e.comp_size (data_place e lfh) file ≡ some comp
  pub overruns : Overruns e

module _ (inflate : Inflate) (file : List ℕ) (name : Name) where
  -- A listed entry at fault.
  pub record Overrun : Type 0 where
    pub entry : Entry
    pub listed : Listed file name entry
    pub fault : Faulty entry file

decompress_overrun :
    (inflate : Inflate) (off : ℕ) (it : Item)
    → it.method ≡ 0
    → 1 < it.size
    → length it.packed < it.size
    → decompress inflate (item_entry off it) it.packed ≡ out_of_bounds
unfolding decompress copy_stored
decompress_overrun inflate off it m one h = ground arith

-- If the first entry with the name is stored with an uncompressed size above 1 and above the length
-- of its data, in an archive as a writer lays it out with names below 511 bytes and without a 0,
-- zipExtractFile reads behind the buffer of the data, which has one byte at least.
pub extract-archive_overrun :
    (inflate : Inflate) (name : Name) (its : List Item) (place : ℕ) (it : Item)
    → length name < 2 ^ 16
    → All Fits its
    → length its < 2 ^ 16
    → length (locals its) < 2 ^ 32
    → find_item 0 name its ≡ some (place, it)
    → it.method ≡ 0
    → 1 < it.size
    → length it.packed < it.size
    → extract inflate (archive its) name ≡ out_of_bounds
extract-archive_overrun inflate name its place it short fits few small first stored one more =
    extract-archive inflate name short its fits few small
    ∙ ap (item_result inflate) first
    ∙ decompress_overrun inflate place it stored one more
