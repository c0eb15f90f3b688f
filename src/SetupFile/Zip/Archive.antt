-- ===== src/SetupFile/Zip/Archive.antt =====
-- A writer of ZIP archives, as the format describes them: the entries with their local headers, the
-- central directory, and an end record with no comment. Fields that the reader does not look at are 0.
use technosoft_tml_motor.Prelude.{
  ℕ, ◌+◌, ◌/◌, ◌%◌, ◌^◌, ◌<◌, ◌≢◌, List, [], ◌∷◌, ◌++◌, Option, none, some, All, if◌then◌else◌,
  bytes_eq, length, replicate,
}
use technosoft_tml_motor.VarMap.{Name}
use technosoft_tml_motor.SetupFile.Zip.{Entry, end_signature, central_signature, local_signature}

pub record Item : Type 0 where
  pub name : Name
  pub local_extra : List ℕ
  pub central_extra : List ℕ
  pub comment : List ℕ
  pub method : ℕ
  pub size : ℕ
  pub packed : List ℕ

abbrev pub le16 : ℕ → List ℕ
le16 n = (n % 2 ^ 8) ∷ (n / 2 ^ 8 % 2 ^ 8) ∷ []

abbrev pub le32 : ℕ → List ℕ
le32 n = (n % 2 ^ 8) ∷ (n / 2 ^ 8 % 2 ^ 8) ∷ (n / 2 ^ 16 % 2 ^ 8) ∷ (n / 2 ^ 24 % 2 ^ 8) ∷ []

abbrev pub zeros : ℕ → List ℕ
zeros n = replicate n 0

abbrev pub local_header : Item → List ℕ
local_header it =
    local_signature ++ (zeros 22 ++ (le16 (length it.name) ++ le16 (length it.local_extra)))

-- An entry with its local header.
abbrev pub local_part : Item → List ℕ
local_part it = local_header it ++ (it.name ++ (it.local_extra ++ it.packed))

abbrev pub central_header : ℕ → Item → List ℕ
central_header off it =
    central_signature
    ++ (zeros 6
        ++ (le16 it.method
            ++ (zeros 8
                ++ (le32 (length it.packed)
                    ++ (le32 it.size
                        ++ (le16 (length it.name)
                            ++ (le16 (length it.central_extra)
                                ++ (le16 (length it.comment) ++ (zeros 8 ++ le32 off)))))))))

-- What the central directory says of an entry that stands at `off`.
abbrev pub central_part : ℕ → Item → List ℕ
central_part off it = central_header off it ++ (it.name ++ (it.central_extra ++ it.comment))

unfoldable pub locals : List Item → List ℕ
locals [] = []
locals (it ∷ its) = local_part it ++ locals its

unfoldable pub centrals : ℕ → List Item → List ℕ
centrals off [] = []
centrals off (it ∷ its) = central_part off it ++ centrals (off + length (local_part it)) its

abbrev pub end_record : ℕ → ℕ → ℕ → List ℕ
end_record count size off =
    end_signature ++ (zeros 6 ++ (le16 count ++ (le32 size ++ (le32 off ++ zeros 2))))

unfoldable pub archive : List Item → List ℕ
unfolding locals centrals
archive its =
    locals its
    ++ (centrals 0 its ++ end_record (length its) (length (centrals 0 its)) (length (locals its)))

-- The fields of the item fit those of the headers, and its name fits the reader's buffer.
pub record Fits (it : Item) : Type 0 where
  pub name_fits : length it.name < 511
  pub name_bytes : All (λ b. b ≢ 0) it.name
  pub local_extra_fits : length it.local_extra < 2 ^ 16
  pub central_extra_fits : length it.central_extra < 2 ^ 16
  pub comment_fits : length it.comment < 2 ^ 16
  pub method_fits : it.method < 2 ^ 16
  pub size_fits : it.size < 2 ^ 32
  pub packed_fits : length it.packed < 2 ^ 32

abbrev pub item_entry : ℕ → Item → Entry
item_entry off it = record {
  method = it.method;
  comp_size = length it.packed;
  uncomp_size = it.size;
  local_off = off;
}

-- The first item with the name, and the place of its local header.
unfoldable pub find_item : ℕ → Name → List Item → Option (ℕ × Item)
find_item off name [] = none
find_item off name (it ∷ its) =
    if bytes_eq it.name name
    then some (off, it)
    else find_item (off + length (local_part it)) name its
