-- ===== src/Api/Table/Valid.antt =====
-- The invariant of the global tables, with the active pointer, across each call.
use technosoft_tml_motor.Prelude.{
  ℕ, ◌<◌, ◌≡◌, refl, sym, ap, ◌∙◌, Option, none, some, List, if◌then◌else◌, ◌==◌, length, set,
  arith, Bool-cases, inl, inr,
}
use technosoft_tml_motor.Link.{Link}
use technosoft_tml_motor.Drive.{Chan}
use technosoft_tml_motor.Api.Act.{Act, Fn}
use technosoft_tml_motor.Api.Table.{
  entry_at, find_free, find_fd, Slot, Setup, Globals, Opened, opened, not_opened, initial, open_in,
  place_channel, select_slot, is_active, close_slot, store_setup, run_in, run_at, call_on,
  max_channels, max_setups,
}
use technosoft_tml_motor.Api.Table.Slots.{
  length-set, entry_at-set_self, entry_at-set_ne, entry_at-lt, find_free-some, find_fd-some,
}

module _ (L : Link) where
  -- The active channel is one in use, and its descriptor is the one noted.
  abbrev pub Active : List (Option (Slot L)) → Option ℕ → Option ℕ → Type 0
  Active ss none fd = fd ≡ none
  Active ss (some i) fd = (s : Slot L) × (entry_at ss i ≡ some s) × (fd ≡ some s.fd)

  pub record Valid (g : Globals L) : Type 0 where
    pub channels_size : length g.channels ≡ max_channels
    pub setups_size : length g.setups ≡ max_setups
    pub active_in_use : Active g.channels g.active g.active_fd

  pub initial-Valid : Valid (initial L)
  initial-Valid = record { channels_size = refl; setups_size = refl; active_in_use = refl }

  pub open_in-Valid :
      (o : Opened (Chan L)) (place : Option ℕ) (g : Globals L)
      → find_free g.channels ≡ place
      → Valid g
      → Valid (open_in L o place g).1
  unfolding open_in place_channel
  open_in-Valid o none g e v = record {
    channels_size = v.channels_size;
    setups_size = v.setups_size;
    active_in_use = v.active_in_use;
  }
  open_in-Valid (not_opened x) (some i) g e v = record {
    channels_size = v.channels_size;
    setups_size = v.setups_size;
    active_in_use = v.active_in_use;
  }
  open_in-Valid (opened fd ch) (some i) g e v =
      let slot : Slot L = record { fd = fd; chan = ch } in
      let inside : i < length g.channels = (find_free-some g.channels i e).0 in
      record {
        channels_size = length-set g.channels i (some slot) ∙ v.channels_size;
        setups_size = v.setups_size;
        active_in_use = (slot, entry_at-set_self g.channels i (some slot) inside, refl);
      }

  pub select_slot-Valid :
      (fd : ℕ) (place : Option ℕ) (g : Globals L)
      → find_fd L fd g.channels ≡ place
      → Valid g
      → Valid (select_slot L fd place g).1
  unfolding select_slot
  select_slot-Valid fd none g e v = record {
    channels_size = v.channels_size;
    setups_size = v.setups_size;
    active_in_use = v.active_in_use;
  }
  select_slot-Valid fd (some i) g e v =
      let (s, here, same) = find_fd-some L fd g.channels i e in
      record {
        channels_size = v.channels_size;
        setups_size = v.setups_size;
        active_in_use = (s, here, ap some (sym same));
      }

  Active-without_slot :
      (ss : List (Option (Slot L))) (i : ℕ) (active fd : Option ℕ)
      → Active ss active fd
      → Active
          (set ss i none)
          (if is_active L active i then none else active)
          (if is_active L active i then none else fd)
  Active-without_slot ss i none fd h = h
  Active-without_slot ss i (some j) fd (s, here, e) = elim (Bool-cases (j == i)) [
    | inl same ↦ rw same refl
    | inr other ↦ rw other (s, entry_at-set_ne ss i j none (λ bad. absurd (ground arith)) ∙ here, e)
  ]

  pub close_slot-Valid : (place : Option ℕ) (g : Globals L) → Valid g → Valid (close_slot L place g)
  unfolding close_slot
  close_slot-Valid none g v = v
  close_slot-Valid (some i) g v = record {
    channels_size = length-set g.channels i none ∙ v.channels_size;
    setups_size = v.setups_size;
    active_in_use = Active-without_slot g.channels i g.active g.active_fd v.active_in_use;
  }

  Active-set_chan :
      (ss : List (Option (Slot L))) (i : ℕ) (s : Slot L) (c : Chan L) (fd : Option ℕ)
      → entry_at ss i ≡ some s
      → Active ss (some i) fd
      → Active (set ss i (some (record s { chan = c }))) (some i) fd
  Active-set_chan ss i s c fd here (t, there, e) =
      let moved : Slot L = record s { chan = c } in
      (
        moved,
        entry_at-set_self ss i (some moved) (entry_at-lt ss i s here),
        let same : t ≡ s = ground (arith, sym there ∙ here) in
            e ∙ ap (λ (u : Slot L). some u.fd) same,
      )

  pub run_at-Valid :
      {A : Type 0} (act : Act L A) (i : ℕ) (o : Option (Slot L)) (g : Globals L)
      → entry_at g.channels i ≡ o
      → g.active ≡ some i
      → Valid g
      → Valid (run_at L act i o g).1
  unfolding run_at run_in
  run_at-Valid act i none g e is v = v
  run_at-Valid act i (some s) g e is v = record {
    channels_size = length-set g.channels i _ ∙ v.channels_size;
    setups_size = v.setups_size;
    active_in_use =
        rw is
          (Active-set_chan g.channels i s (act s.chan).1 g.active_fd e (rw is at v.active_in_use));
  }

  pub call_on-Valid :
      {A : Type 0} (fn : Fn) (act : Act L A) (o : Option ℕ) (g : Globals L)
      → g.active ≡ o
      → Valid g
      → Valid (call_on L fn act o g).1
  unfolding call_on
  call_on-Valid fn act none g e v = record {
    channels_size = v.channels_size;
    setups_size = v.setups_size;
    active_in_use = v.active_in_use;
  }
  call_on-Valid fn act (some i) g e v = run_at-Valid act i (entry_at g.channels i) g refl e v

  pub store_setup-Valid :
      (s : Setup) (o : Option ℕ) (g : Globals L) → Valid g → Valid (store_setup L s o g).1
  unfolding store_setup
  store_setup-Valid s none g v = record {
    channels_size = v.channels_size;
    setups_size = v.setups_size;
    active_in_use = v.active_in_use;
  }
  store_setup-Valid s (some i) g v = record {
    channels_size = v.channels_size;
    setups_size = length-set g.setups i (some s) ∙ v.setups_size;
    active_in_use = v.active_in_use;
  }
