-- ===== src/Api/Table/Runs.antt =====
-- Sequences of TS_* calls, in any order, and what holds after each of them.
use technosoft_tml_motor.Prelude.{ℕ, ◌≡◌, refl, ap, ◌∙◌, Option, none, some, List}
use technosoft_tml_motor.Prelude.Int.{ℤ, pos, negsuc}
use technosoft_tml_motor.VarMap.{Name, VarMap}
use technosoft_tml_motor.VarMap.{get_address}
use technosoft_tml_motor.VarMap.Laws.{IsMap, or_else, get_address-merge}
use technosoft_tml_motor.Link.{Link}
use technosoft_tml_motor.Drive.{Chan}
use technosoft_tml_motor.Api.Act.{Act, Fn}
use technosoft_tml_motor.Api.Table.{
  entry_at, find_free, find_fd, find_used, Slot, Setup, Globals, Opened, initial, open_in,
  open_channel, place_channel, opened, not_opened, select_slot, select_channel, close_slot,
  close_channel, store_setup, load_setup, run_in, run_at, call_on, call, setup_axis, merge_setup,
}
use technosoft_tml_motor.Api.Table.Slots.{entry_at-set_self, entry_at-lt}
use technosoft_tml_motor.Api.Table.Valid.{
  Valid, initial-Valid, open_in-Valid, select_slot-Valid, close_slot-Valid, call_on-Valid,
  store_setup-Valid,
}

module _ (L : Link) where
  -- One call from outside: opening with any result of the transport's `open`, selecting, closing,
  -- loading a setup, or a call on the active channel.
  pub data Step : Globals L → Globals L → Type 1 where
    opens : (o : Opened (Chan L)) (g : Globals L) → Step g (open_channel L o g).1
    selects : (fd : ℤ) (g : Globals L) → Step g (select_channel L fd g).1
    closes : (fd : ℤ) (g : Globals L) → Step g (close_channel L fd g)
    loads :
        (load : Name → VarMap → VarMap) (path : Name) (g : Globals L)
        → Step g (load_setup L load path g).1
    calls : {A : Type 0} (fn : Fn) (act : Act L A) (g : Globals L) → Step g (call L fn act g).1

  pub data Run : Globals L → Globals L → Type 1 where
    start : (g : Globals L) → Run g g
    next : {g h k : Globals L} → Run g h → Step h k → Run g k

  Step-Valid : {g h : Globals L} → Step g h → Valid L g → Valid L h
  unfolding open_channel select_channel close_channel load_setup call
  Step-Valid (opens o g) v = open_in-Valid L o (find_free g.channels) g refl v
  Step-Valid (selects (negsuc n) g) v = v
  Step-Valid (selects (pos fd) g) v = select_slot-Valid L fd (find_fd L fd g.channels) g refl v
  Step-Valid (closes (negsuc n) g) v = close_slot-Valid L (find_used L g.channels) g v
  Step-Valid (closes (pos fd) g) v = close_slot-Valid L (find_fd L fd g.channels) g v
  Step-Valid (loads load path g) v = store_setup-Valid L _ (find_free g.setups) g v
  Step-Valid (calls fn act g) v = call_on-Valid L fn act g.active g refl v

  -- Whatever calls are made from the initial state, in any order and with any result of the
  -- transport: there are always 8 channel and 16 setup places; the active channel, where there is
  -- one, stands in a place that is in use and has the noted descriptor; where there is none, no
  -- descriptor is noted.
  pub Run-Valid : (g : Globals L) → Run (initial L) g → Valid L g
  Run-Valid g (start _) = initial-Valid L
  Run-Valid g (next {h = h} run step) = Step-Valid step (Run-Valid h run)

  open_in_setups :
      (o : Opened (Chan L)) (place : Option ℕ) (g : Globals L)
      → (open_in L o place g).1.setups ≡ g.setups
  unfolding open_in place_channel
  open_in_setups o none g = refl
  open_in_setups (not_opened e) (some i) g = refl
  open_in_setups (opened fd ch) (some i) g = refl

  select_slot_setups :
      (fd : ℕ) (place : Option ℕ) (g : Globals L) → (select_slot L fd place g).1.setups ≡ g.setups
  unfolding select_slot
  select_slot_setups fd none g = refl
  select_slot_setups fd (some i) g = refl

  close_slot_setups : (place : Option ℕ) (g : Globals L) → (close_slot L place g).setups ≡ g.setups
  unfolding close_slot
  close_slot_setups none g = refl
  close_slot_setups (some i) g = refl

  run_at_setups :
      {A : Type 0} (act : Act L A) (i : ℕ) (o : Option (Slot L)) (g : Globals L)
      → (run_at L act i o g).1.setups ≡ g.setups
  unfolding run_at run_in
  run_at_setups act i none g = refl
  run_at_setups act i (some s) g = refl

  call_on_setups :
      {A : Type 0} (fn : Fn) (act : Act L A) (o : Option ℕ) (g : Globals L)
      → (call_on L fn act o g).1.setups ≡ g.setups
  unfolding call_on
  call_on_setups fn act none g = refl
  call_on_setups fn act (some i) g = run_at_setups act i (entry_at g.channels i) g

  Step-full : {g h : Globals L} → Step g h → find_free g.setups ≡ none → find_free h.setups ≡ none
  unfolding open_channel select_channel close_channel load_setup call store_setup
  Step-full (opens o g) full = ap find_free (open_in_setups o (find_free g.channels) g) ∙ full
  Step-full (selects (negsuc n) g) full = full
  Step-full (selects (pos fd) g) full =
      ap find_free (select_slot_setups fd (find_fd L fd g.channels) g) ∙ full
  Step-full (closes (negsuc n) g) full =
      ap find_free (close_slot_setups (find_used L g.channels) g) ∙ full
  Step-full (closes (pos fd) g) full =
      ap find_free (close_slot_setups (find_fd L fd g.channels) g) ∙ full
  Step-full (loads load path g) full = rw (full, full)
  Step-full (calls fn act g) full = ap find_free (call_on_setups fn act g.active g) ∙ full

  Run-full : {g h : Globals L} → Run g h → find_free g.setups ≡ none → find_free h.setups ≡ none
  Run-full (start g) full = full
  Run-full (next run step) full = Step-full step (Run-full run full)

  -- Once no setup place is free, TS_LoadSetup fails after any further calls, closing channels
  -- included: no call gives a setup place back.
  pub load_setup-full :
      (g h : Globals L) (load : Name → VarMap → VarMap) (path : Name)
      → find_free g.setups ≡ none
      → Run g h
      → (load_setup L load path h).0 ≡ none
  unfolding load_setup store_setup
  load_setup-full g h load path full run = rw (Run-full run full, store_setup)

  abbrev pub slot_address : Name → Option (Slot L) → Option ℕ
  slot_address name none = none
  slot_address name (some s) = get_address name s.chan.ident.var_map

  abbrev address_through : Name → List (Option (Slot L)) → Option ℕ → Option ℕ
  address_through name ss none = none
  address_through name ss (some i) = slot_address name (entry_at ss i)

  -- The address of a name that the active channel uses.
  abbrev pub active_address : Name → Globals L → Option ℕ
  active_address name g = address_through name g.channels g.active

  -- Let a channel be active and a setup place in use, with no name listed twice in the setup.
  -- After TS_SetupAxis with that place, whatever axis it names, the active channel has the
  -- setup's address for each name of the setup, and its address of before for every other name.
  pub get_address-setup_axis :
      (axis index i : ℕ) (name : Name) (s : Slot L) (setup : Setup) (g : Globals L)
      → g.active ≡ some i
      → entry_at g.channels i ≡ some s
      → entry_at g.setups index ≡ some setup
      → IsMap setup.vars
      → let g' = (setup_axis L axis (pos index) g).1 in
        active_address name g' ≡ or_else (get_address name setup.vars) (active_address name g)
  unfolding setup_axis call call_on run_at run_in merge_setup
  get_address-setup_axis axis index i name s setup g is here loaded distinct =
      rw
        (
          is,
          here,
          loaded,
          entry_at-set_self g.channels i
              (some (record s { chan = (merge_setup L (pos index) (some setup) s.chan).1 }))
              (entry_at-lt g.channels i s here),
        )
        (get_address-merge name s.chan.ident.var_map setup.vars distinct)
