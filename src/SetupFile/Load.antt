-- ===== src/SetupFile/Load.antt =====
-- `TmlVariableMap::loadFromZip`. `files` gives the bytes of a file that can be read; logging is left
-- out.
use technosoft_tml_motor.Prelude.{ℕ, List, Option, none, some, codes}
use technosoft_tml_motor.VarMap.{Name, VarMap}
use technosoft_tml_motor.SetupFile.Zip.{
  Inflate, Extracted, extracted, not_extracted, unset_byte, out_of_bounds, extract,
}
use technosoft_tml_motor.SetupFile.Config.{load_config}

abbrev pub config_name : Name
config_name = codes "variables.cfg"

-- `none` is undefined behaviour. A text of one byte is no entry, whatever the byte is:
-- `Config.Merge.load_config-one`.
unfoldable pub load_extracted : Extracted → VarMap → Option (VarMap × ℕ)
unfolding load_config
load_extracted (extracted text) m = some (load_config text m)
load_extracted (not_extracted e) m = some (m, 0)
load_extracted unset_byte m = some (m, 0)
load_extracted out_of_bounds m = none

module _ (inflate : Inflate) (files : Name → Option (List ℕ)) where
  unfoldable pub load_file : Option (List ℕ) → VarMap → Option (VarMap × ℕ)
  unfolding extract load_extracted
  load_file none m = some (m, 0)
  load_file (some file) m = load_extracted (extract inflate file config_name) m

  -- The new map with the number of its entries that were set.
  unfoldable pub load_from_zip : Name → VarMap → Option (VarMap × ℕ)
  unfolding load_file
  load_from_zip path m = load_file (files path) m

  abbrev pub map_or : VarMap → Option (VarMap × ℕ) → VarMap
  map_or m none = m
  map_or m (some r) = r.0

  -- The `load` of TS_LoadSetup; where the behaviour is undefined, here no effect.
  unfoldable pub load : Name → VarMap → VarMap
  unfolding load_from_zip
  load path m = map_or m (load_from_zip path m)
