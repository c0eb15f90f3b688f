-- ===== src/SetupFile/Stored.antt =====
-- A setup file: an archive whose variables.cfg is stored as it is.
use technosoft_tml_motor.Prelude.{
  ℕ, ◌+◌, ◌^◌, ◌<◌, List, [], ◌∷◌, ◌≡◌, refl, ap, ◌∙◌, arith, Option, some, length, take, All,
}
use technosoft_tml_motor.VarMap.{Name, VarMap, merge}
use technosoft_tml_motor.SetupFile.Zip.{Inflate, extracted, decompress, copy_stored, extract}
use technosoft_tml_motor.SetupFile.Zip.Archive.{Item, Fits, locals, archive, find_item, item_entry}
use technosoft_tml_motor.SetupFile.Zip.Unpack.{item_result, extract-archive}
use technosoft_tml_motor.SetupFile.Config.RoundTrip.{
  Line, IsLine, IsText, fields, print, listing, load_config-print,
}
use technosoft_tml_motor.SetupFile.Load.{
  config_name, load_extracted, load_file, load_from_zip, load,
}

-- The archive `its` holds the lines `ls` under the name variables.cfg.
pub record IsSetup (its : List Item) (ls : List Line) : Type 0 where
  pub fit : All Fits its
  pub few : length its < 2 ^ 16
  pub small : length (locals its) < 2 ^ 32
  pub place : ℕ
  pub config : Item
  pub first : find_item 0 config_name its ≡ some (place, config)
  pub is_stored : config.method ≡ 0
  pub whole : config.size ≡ length config.packed
  pub no_wrap : config.size + 1 < 2 ^ 32
  pub text : config.packed ≡ print ls
  pub lines : All IsLine ls
  pub printable : All (λ l. All IsText (fields l)) ls

take-length : (xs : List ℕ) → take (length xs) xs ≡ xs
take-length [] = refl
take-length (x ∷ xs) = ap (◌∷◌ x) (take-length xs)

-- An entry that is stored with its true size comes out as it was put in.
decompress_stored :
    (inflate : Inflate) (off : ℕ) (it : Item)
    → it.method ≡ 0
    → it.size ≡ length it.packed
    → it.size + 1 < 2 ^ 32
    → decompress inflate (item_entry off it) it.packed ≡ extracted it.packed
unfolding decompress copy_stored
decompress_stored inflate off it m s h = ground (arith, take-length it.packed)

module _ (inflate : Inflate) (files : Name → Option (List ℕ)) where
  extract-IsSetup :
      (its : List Item) (ls : List Line)
      → IsSetup its ls
      → extract inflate (archive its) config_name ≡ extracted (print ls)
  extract-IsSetup its ls h =
      extract-archive inflate config_name (omega arith) its h.fit h.few h.small
      ∙ ap (item_result inflate) h.first
      ∙ decompress_stored inflate h.place h.config h.is_stored h.whole h.no_wrap
      ∙ ap extracted h.text

  -- From such a file, loadFromZip reads the lines' names and addresses, and counts them.
  pub load_from_zip-IsSetup :
      (path : Name) (its : List Item) (ls : List Line) (m : VarMap)
      → files path ≡ some (archive its)
      → IsSetup its ls
      → load_from_zip inflate files path m ≡ some (merge m (listing ls), length ls)
  unfolding load_from_zip load_file load_extracted
  load_from_zip-IsSetup path its ls m file h =
      ap (λ o. load_file inflate files o m) file
      ∙ ap (λ r. load_extracted r m) (extract-IsSetup its ls h)
      ∙ ap some (load_config-print ls m h.lines h.printable)

  pub load-IsSetup :
      (path : Name) (its : List Item) (ls : List Line) (m : VarMap)
      → files path ≡ some (archive its)
      → IsSetup its ls
      → load inflate files path m ≡ merge m (listing ls)
  unfolding load
  load-IsSetup path its ls m file h = rw (load_from_zip-IsSetup path its ls m file h)
