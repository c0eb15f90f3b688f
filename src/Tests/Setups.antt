-- ===== src/Tests/Setups.antt =====
-- Runs of the properties of the setup file reader: an archive with variables.cfg and another file.
use technosoft_tml_motor.Prelude.{
  bytes_eq, replicate, set, ℕ, ◌≡◌, refl, arith, none, some, [], ◌∷◌, All, length, codes, List,
  Option,
}
use technosoft_tml_motor.Prelude.Int.{pos}
use technosoft_tml_motor.VarMap.{get_address, new_map, merge, defaults}
use technosoft_tml_motor.VarMap.Laws.{or_else, IsMap}
use technosoft_tml_motor.SetupFile.Zip.{Inflate, extract, out_of_bounds, find_end}
use technosoft_tml_motor.SetupFile.Zip.Archive.{Item, Fits, locals, archive, find_item, local_part}
use technosoft_tml_motor.SetupFile.Zip.Search.{LastEnd, find_end-LastEnd}
use technosoft_tml_motor.SetupFile.Zip.Unpack.{item_result, extract-archive}
use technosoft_tml_motor.SetupFile.Zip.Bounds.{extract-archive_overrun}
use technosoft_tml_motor.SetupFile.Config.{load_config}
use technosoft_tml_motor.SetupFile.Config.RoundTrip.{
  Line, IsLine, IsText, fields, print, listing, load_config-print,
}
use technosoft_tml_motor.SetupFile.Load.{load}
use technosoft_tml_motor.SetupFile.Stored.{IsSetup}
use technosoft_tml_motor.Api.Table.{load_setup, setup_axis, Globals, Slot, initial, find_free}
use technosoft_tml_motor.Api.Table.Firmware.{get_address-load_setup}
use technosoft_tml_motor.Api.Table.Runs.{active_address}
use technosoft_tml_motor.Tests.Sim.{link, channel}

-- `UINT MER @0x08FC` and `LONG  TPOS @0x02B2 rw`.
abbrev mer : Line
mer = record {
  kind = b'U';
  kind_rest = codes "INT";
  gap = [];
  name = b'M';
  name_rest = codes "ER";
  gap' = [];
  address = 0x08FC;
  flags = [];
}

abbrev tpos : Line
tpos = record {
  kind = b'L';
  kind_rest = codes "ONG";
  gap = b' ' ∷ [];
  name = b'T';
  name_rest = codes "POS";
  gap' = [];
  address = 0x02B2;
  flags = codes " rw";
}

abbrev both : List Line
both = mer ∷ tpos ∷ []

mer-IsLine : IsLine mer
mer-IsLine = record {
  no_comment = omega arith;
  kind_solid = (refl, (refl, (refl, (refl, tt))));
  kind_fits = omega arith;
  gap_blank = (refl, tt);
  name_solid = (refl, (refl, (refl, tt)));
  name_fits = omega arith;
  gap'_blank = (refl, tt);
  address_fits = omega arith;
  flags_stop = tt;
}

tpos-IsLine : IsLine tpos
tpos-IsLine = record {
  no_comment = omega arith;
  kind_solid = (refl, (refl, (refl, (refl, tt))));
  kind_fits = omega arith;
  gap_blank = (refl, (refl, tt));
  name_solid = (refl, (refl, (refl, (refl, tt))));
  name_fits = omega arith;
  gap'_blank = (refl, tt);
  address_fits = omega arith;
  flags_stop = refl;
}

both-IsText : All (λ l. All IsText (fields l)) both
both-IsText = omega arith

load_config-print_example :
    load_config (print both) new_map ≡ (merge new_map (listing both), length both)
load_config-print_example =
    load_config-print both new_map (mer-IsLine, (tpos-IsLine, tt)) both-IsText

-- `inflate` is never asked in these archives.
abbrev no_inflate : Inflate
no_inflate = λ _ _. none

abbrev config : Item
config = record {
  name = codes "variables.cfg";
  local_extra = 1 ∷ 2 ∷ [];
  central_extra = [];
  comment = codes "c";
  method = 0;
  size = length (print both);
  packed = print both;
}

abbrev other : Item
other = record {
  name = codes "setup";
  local_extra = [];
  central_extra = 7 ∷ [];
  comment = [];
  method = 0;
  size = 3;
  packed = 1 ∷ 2 ∷ [];
}

abbrev items : List Item
items = other ∷ config ∷ []

other-Fits : Fits other
other-Fits = record {
  name_fits = omega arith;
  name_bytes = omega arith;
  local_extra_fits = omega arith;
  central_extra_fits = omega arith;
  comment_fits = omega arith;
  method_fits = omega arith;
  size_fits = omega arith;
  packed_fits = omega arith;
}

config-Fits : Fits config
unfolding print
config-Fits = record {
  name_fits = omega arith;
  name_bytes = omega arith;
  local_extra_fits = omega arith;
  central_extra_fits = omega arith;
  comment_fits = omega arith;
  method_fits = omega arith;
  size_fits = omega arith;
  packed_fits = omega arith;
}

items-Fits : All Fits items
items-Fits = (other-Fits, (config-Fits, tt))

extract-archive_example :
    extract no_inflate (archive items) (codes "variables.cfg")
    ≡ item_result no_inflate (find_item 0 (codes "variables.cfg") items)
unfolding locals print
extract-archive_example =
    extract-archive no_inflate (codes "variables.cfg") (omega arith) items items-Fits (omega arith)
      (omega arith)

find_end-LastEnd_example : LastEnd (archive items) (find_end (archive items))
find_end-LastEnd_example = find_end-LastEnd (archive items)

first_other : find_item 0 (codes "setup") items ≡ some (0, other)
unfolding find_item bytes_eq
first_other = refl

first_config : find_item 0 (codes "variables.cfg") items ≡ some (length (local_part other), config)
unfolding find_item bytes_eq
first_config = refl

extract-archive_overrun_example : extract no_inflate (archive items) (codes "setup") ≡ out_of_bounds
unfolding locals print
extract-archive_overrun_example =
    extract-archive_overrun no_inflate (codes "setup") items 0 other (omega arith) items-Fits
      (omega arith) (omega arith) first_other refl (omega arith) (omega arith)

items-IsSetup : IsSetup items both
unfolding locals print
items-IsSetup = record {
  fit = items-Fits;
  few = omega arith;
  small = omega arith;
  place = length (local_part other);
  config = config;
  first = first_config;
  is_stored = refl;
  whole = refl;
  no_wrap = omega arith;
  text = refl;
  lines = (mer-IsLine, (tpos-IsLine, tt));
  printable = both-IsText;
}

abbrev one_file : List ℕ → Option (List ℕ)
one_file _ = some (archive items)

abbrev one_slot : Slot link
one_slot = record { fd = 3; chan = channel [] }

abbrev opened_one : Globals link
opened_one = record (initial link) {
  channels = set (replicate 8 none) 0 (some one_slot);
  active = some 0;
}

free_first : find_free opened_one.setups ≡ some 0
unfolding find_free
free_first = refl

listing-IsMap : IsMap (listing both)
unfolding get_address bytes_eq
listing-IsMap = (refl, (refl, tt))

get_address-load_setup_example :
    let (index, g') = load_setup link (load no_inflate one_file) (codes "b.t.zip") opened_one in
    (index ≡ some 0)
    × (active_address link (codes "MER") (setup_axis link 2 (pos 0) g').1
        ≡ or_else (get_address (codes "MER") (listing both)) (
            or_else
              (get_address (codes "MER") defaults)
              (active_address link (codes "MER") opened_one)))
get_address-load_setup_example =
    get_address-load_setup link no_inflate one_file (codes "b.t.zip") (codes "MER") 2 0 0 one_slot
      items both opened_one refl refl free_first refl items-IsSetup listing-IsMap
