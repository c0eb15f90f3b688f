-- ===== src/Api/Table/Firmware.antt =====
-- From a setup file to the addresses that the active channel uses: TS_LoadSetup, then TS_SetupAxis.
use technosoft_tml_motor.Prelude.{ℕ, List, ◌≡◌, refl, ap, ◌∙◌, Option, none, some, take, set}
use technosoft_tml_motor.Prelude.Int.{pos}
use technosoft_tml_motor.VarMap.{Name, VarMap, get_address, merge, new_map, defaults}
use technosoft_tml_motor.VarMap.Laws.{
  IsMap, or_else, get_address-merge, get_address-new_map, merge-IsMap, new_map-IsMap,
}
use technosoft_tml_motor.Link.{Link}
use technosoft_tml_motor.SetupFile.Zip.{Inflate}
use technosoft_tml_motor.SetupFile.Zip.Archive.{Item, archive}
use technosoft_tml_motor.SetupFile.Config.RoundTrip.{Line, listing}
use technosoft_tml_motor.SetupFile.Load.{load}
use technosoft_tml_motor.SetupFile.Stored.{IsSetup, load-IsSetup}
use technosoft_tml_motor.Api.Table.{
  Globals, Setup, Slot, entry_at, find_free, load_setup, store_setup, setup_axis,
}
use technosoft_tml_motor.Api.Table.Slots.{entry_at-set_self, find_free-some}
use technosoft_tml_motor.Api.Table.Runs.{active_address, get_address-setup_axis}

or_else_assoc : (a b c : Option ℕ) → or_else (or_else a b) c ≡ or_else a (or_else b c)
or_else_assoc none b c = refl
or_else_assoc (some a) b c = refl

module _ (L : Link) (inflate : Inflate) (files : Name → Option (List ℕ)) where
  abbrev loaded : Name → ℕ → VarMap → Globals L → Globals L
  loaded path k vars g = record g {
    setups = set g.setups k (some (record { path = take 511 path; vars = vars }));
  }

  load_setup-place :
      (path : Name) (k : ℕ) (g : Globals L)
      → find_free g.setups ≡ some k
      → load_setup L (load inflate files) path g
        ≡ (some k, loaded path k (load inflate files (take 511 path) new_map) g)
  unfolding load_setup store_setup
  load_setup-place path k g free =
      let s : Setup = record {
        path = take 511 path;
        vars = load inflate files (take 511 path) new_map;
      } in
      ap (λ o. store_setup L s o g) free

  -- Let a channel be active and a setup place be free, and let the file that the first 511 bytes
  -- of the path name be an archive whose variables.cfg holds printed lines, with no name twice,
  -- and is stored as it is. TS_LoadSetup then gives that place. After TS_SetupAxis with it,
  -- whatever axis it names, the active channel uses for every name the address of the lines, or
  -- else the built-in default, and for a name that neither has its address of before.
  pub get_address-load_setup :
      (path name : Name) (axis i k : ℕ) (s : Slot L) (its : List Item) (ls : List Line)
      (g : Globals L)
      → g.active ≡ some i
      → entry_at g.channels i ≡ some s
      → find_free g.setups ≡ some k
      → files (take 511 path) ≡ some (archive its)
      → IsSetup its ls
      → IsMap (listing ls)
      → let (index, g') = load_setup L (load inflate files) path g in
        (index ≡ some k)
        × (active_address L name (setup_axis L axis (pos k) g').1
            ≡ or_else
                (get_address name (listing ls))
                (or_else (get_address name defaults) (active_address L name g)))
  get_address-load_setup path name axis i k s its ls g is here free file h distinct =
      let vars : VarMap = load inflate files (take 511 path) new_map in
      let is_merge : vars ≡ merge new_map (listing ls) =
        load-IsSetup inflate files (take 511 path) its ls new_map file h in
      let setup : Setup = record { path = take 511 path; vars = vars } in
      let stored : entry_at (set g.setups k (some setup)) k ≡ some setup =
        entry_at-set_self g.setups k (some setup) (find_free-some g.setups k free).0 in
      let unique : IsMap vars = rw is_merge (merge-IsMap new_map (listing ls) new_map-IsMap) in
      let address : get_address name vars
          ≡ or_else (get_address name (listing ls)) (get_address name defaults) =
        ap (get_address name) is_merge
        ∙ get_address-merge name new_map (listing ls) distinct
        ∙ ap (or_else (get_address name (listing ls))) (get_address-new_map name) in
      let used : active_address L name (setup_axis L axis (pos k) (loaded path k vars g)).1
          ≡ or_else (get_address name vars) (active_address L name g) =
        get_address-setup_axis L axis k i name s setup (loaded path k vars g) is here stored
          unique in
      rw (load_setup-place path k g free) (
        refl,
        used
            ∙ ap (λ o. or_else o (active_address L name g)) address
            ∙ or_else_assoc (get_address name (listing ls)) (get_address name defaults)
                (active_address L name g),
      )
