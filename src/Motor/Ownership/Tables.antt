-- ===== src/Motor/Ownership/Tables.antt =====
-- The TS_* tables as the library that Motor.Ownership asks for: which channels they hold.
use mathlib.Core.Path.{subst}
use technosoft_tml_motor.Prelude.{
  ℕ, zero, suc, ◌≡◌, refl, sym, ap, ◌∙◌, Option, none, some, List, [], ◌∷◌, set, arith, ==_iff,
}
use technosoft_tml_motor.VarMap.{Name, VarMap}
use technosoft_tml_motor.Link.{Link}
use technosoft_tml_motor.Drive.{Chan}
use technosoft_tml_motor.Api.Act.{Act, Fn, ApiError}
use technosoft_tml_motor.Api.Real.{Real}
use technosoft_tml_motor.Api.Table.{
  Globals, Setup, Slot, Opened, opened, not_opened, initial, entry_at, find_free, find_fd,
  open_channel, open_in, place_channel, close_channel, close_slot, select_channel, select_slot,
  load_setup, store_setup, call, call_on, run_at, run_in, setup_axis,
}
use technosoft_tml_motor.Motor.Calls.{Calls}
use technosoft_tml_motor.Motor.Axis.{Params, Controller}
use technosoft_tml_motor.Motor.Library.{library}
use technosoft_tml_motor.Motor.Lifecycle.{new_controller}
use technosoft_tml_motor.Motor.Runs.{Run}
use technosoft_tml_motor.Motor.Ownership.{Ownership}
use technosoft_tml_motor.Motor.Ownership.Runs.{Run-Owned_new}

module _ (L : Link) where
  -- The only channel in the table is the one with this descriptor, or there is none.
  abbrev pub Holds : Option ℕ → List (Option (Slot L)) → Type 0
  Holds none [] = Unit {0}
  Holds none (none ∷ ss) = Holds none ss
  Holds none (some s ∷ ss) = ⊥
  Holds (some fd) [] = ⊥
  Holds (some fd) (none ∷ ss) = Holds (some fd) ss
  Holds (some fd) (some s ∷ ss) = (s.fd ≡ fd) × Holds none ss

  open_channel-Holds :
      (o : Opened (Chan L)) (ss : List (Option (Slot L))) (g : Globals L)
      → g.channels ≡ ss
      → Holds none ss
      → Holds (open_in L o (find_free ss) g).0 (open_in L o (find_free ss) g).1.channels
  unfolding open_in place_channel find_free
  open_channel-Holds o [] g same h = subst (Holds none) (sym same) h
  open_channel-Holds o (some s ∷ ss) g same h = absurd h
  open_channel-Holds (not_opened e) (none ∷ ss) g same h = subst (Holds none) (sym same) h
  open_channel-Holds (opened fd ch) (none ∷ ss) g same h =
      subst (λ cs. Holds (some fd) (set cs 0 (some (record { fd = fd; chan = ch })))) (sym same)
        (refl, h)

  find_fd-Holds :
      (fd : ℕ) (ss : List (Option (Slot L)))
      → Holds (some fd) ss
      → (i : ℕ) × (find_fd L fd ss ≡ some i) × Holds none (set ss i none)
  unfolding find_fd
  find_fd-Holds fd [] h = absurd h
  find_fd-Holds fd (none ∷ ss) h =
      let (i, found, rest) = find_fd-Holds fd ss h in (suc i, rw found refl, rest)
  find_fd-Holds fd (some s ∷ ss) (same, h) = (zero, rw ((==_iff s.fd fd).1 same) refl, h)

  -- A channel that is written back keeps its descriptor.
  set-Holds :
      (o : Option ℕ) (i : ℕ) (s : Slot L) (c : Chan L) (ss : List (Option (Slot L)))
      → entry_at ss i ≡ some s
      → Holds o ss
      → Holds o (set ss i (some (record s { chan = c })))
  set-Holds none i s c [] here h = h
  set-Holds (some fd) i s c [] here h = h
  set-Holds none zero s c (none ∷ ss) here h = cc here
  set-Holds none (suc i) s c (none ∷ ss) here h = set-Holds none i s c ss here h
  set-Holds none i s c (some t ∷ ss) here h = absurd h
  set-Holds (some fd) zero s c (none ∷ ss) here h = cc here
  set-Holds (some fd) (suc i) s c (none ∷ ss) here h = set-Holds (some fd) i s c ss here h
  set-Holds (some fd) zero s c (some t ∷ ss) here (same, h) =
      let t_s : t ≡ s = ground (arith, here) in (ap (λ (x : Slot L). x.fd) (sym t_s) ∙ same, h)
  set-Holds (some fd) (suc i) s c (some t ∷ ss) here (same, h) =
      (same, set-Holds none i s c ss here h)

  run_at-Holds :
      {A : Type 0} (act : Act L A) (i : ℕ) (e : Option (Slot L)) (o : Option ℕ) (g : Globals L)
      → entry_at g.channels i ≡ e
      → Holds o g.channels
      → Holds o (run_at L act i e g).1.channels
  unfolding run_at run_in
  run_at-Holds act i none o g here h = h
  run_at-Holds act i (some s) o g here h = set-Holds o i s (act s.chan).1 g.channels here h

  call_on-Holds :
      {A : Type 0} (fn : Fn) (act : Act L A) (active : Option ℕ) (o : Option ℕ) (g : Globals L)
      → Holds o g.channels
      → Holds o (call_on L fn act active g).1.channels
  unfolding call_on
  call_on-Holds fn act none o g h = h
  call_on-Holds fn act (some i) o g h = run_at-Holds act i (entry_at g.channels i) o g refl h

  call-Holds :
      {A : Type 0} (fn : Fn) (act : Act L A) (o : Option ℕ) (g : Globals L)
      → Holds o g.channels
      → Holds o (call L fn act g).1.channels
  unfolding call
  call-Holds fn act o g h = call_on-Holds fn act g.active o g h

  select_slot_channels :
      (fd : ℕ) (place : Option ℕ) (g : Globals L)
      → (select_slot L fd place g).1.channels ≡ g.channels
  unfolding select_slot
  select_slot_channels fd none g = refl
  select_slot_channels fd (some i) g = refl

  store_setup_channels :
      (s : Setup) (place : Option ℕ) (g : Globals L)
      → (store_setup L s place g).1.channels ≡ g.channels
  unfolding store_setup
  store_setup_channels s none g = refl
  store_setup_channels s (some i) g = refl

module _ (L : Link) (F : Real) (now : Globals L → ℕ) (sleep : ℕ → Globals L → Globals L)
    (open_result : Globals L → Opened (Chan L)) (load : Name → VarMap → VarMap)
    (text : ApiError → Name)
    (sleep_keeps : (ms : ℕ) (g : Globals L) → (sleep ms g).channels ≡ g.channels) where
  abbrev C : Calls F.R
  C = library L F now sleep open_result load text

  abbrev Owns : Option ℕ → Globals L → Type 0
  Owns o g = Holds L o g.channels

  unfoldable tables_ownership : Ownership C
  unfolding open_channel close_channel close_slot select_channel load_setup setup_axis
  tables_ownership = record {
    Owns = Owns;
    opens = λ g h. open_channel-Holds L (open_result g) g.channels g refl h;
    closes = λ fd g h.
        let (i, found, free) = find_fd-Holds L fd g.channels h in
        subst (λ place. Owns none (close_slot L place g)) (sym found) free;
    sleeps = λ ms o g h. subst (Holds L o) (sym (sleep_keeps ms g)) h;
    clears = λ o g h. call-Holds L _ _ o g h;
    selects = λ fd o g h.
        subst (Holds L o) (sym (select_slot_channels L fd (find_fd L fd g.channels) g)) h;
    loads =
        λ path o g h. subst (Holds L o) (sym (store_setup_channels L _ (find_free g.setups) g)) h;
    sets_up = λ axis idx o g h. call-Holds L _ _ o g h;
    chooses = λ axis o g h. call-Holds L _ _ o g h;
    initialises = λ o g h. call-Holds L _ _ o g h;
    powers = λ on o g h. call-Holds L _ _ o g h;
    reads = λ reg o g h. call-Holds L _ _ o g h;
    gets_long = λ name o g h. call-Holds L _ _ o g h;
    gets_int = λ name o g h. call-Holds L _ _ o g h;
    sets_int = λ name z o g h. call-Holds L _ _ o g h;
    sets_long = λ name z o g h. call-Holds L _ _ o g h;
    sets_position = λ z o g h. call-Holds L _ _ o g h;
    disables = λ lsp lsn o g h. call-Holds L _ _ o g h;
    moves_to = λ p v a o g h. call-Holds L _ _ o g h;
    moves_by = λ p v a o g h. call-Holds L _ _ o g h;
    runs = λ v a o g h. call-Holds L _ _ o g h;
    awaits_end = λ o g h. call-Holds L _ _ o g h;
    awaits_limit = λ positive o g h. call-Holds L _ _ o g h;
    aborts = λ o g h. call-Holds L _ _ o g h;
    resets_fault = λ o g h. call-Holds L _ _ o g h;
    saves = λ o g h. call-Holds L _ _ o g h;
    resets = λ o g h. call-Holds L _ _ o g h;
  }

  -- Let the driver run over the TS_* calls on tables that are empty at its start, with any
  -- results of the transport and a sleep that leaves the channels alone. In every state that it
  -- reaches from the constructor of its controller, the channel of its channelFd_ is the only one
  -- in the table, and the table is empty where it has none: no reconnection leaves a channel
  -- behind or keeps a closed one.
  pub Run-Holds :
      (count : ℕ) (p : Params) (g : Controller C)
      → Run F C (new_controller F C count p (initial L)) g
      → Holds L g.channel_fd g.lib.channels
  unfolding tables_ownership
  Run-Holds count p g run = Run-Owned_new F tables_ownership count p (initial L) g tt run
