-- ===== src/Api/Table.antt =====
-- The global state of technosoftSup/src/tmlSerial.cpp: the table of channels, the active channel,
-- the table of setups, and the last error; and the TS_* calls that work on it.
pub mod Slots
pub mod Valid
pub mod Runs
pub mod Firmware
pub mod Opening
pub mod Lookup
pub mod Room
pub mod Abstract
pub mod Filled
pub mod Simulation
pub mod Selection
pub mod Refines
use technosoft_tml_motor.Prelude.{
  ℕ, zero, suc, ◌+◌, Bool, true, false, ◌&&◌, ◌||◌, not, Option, none, some, List, [], ◌∷◌,
  if◌then◌else◌, ◌==◌, length, get_elem?, set, replicate, take, ltb, Bool-cases,
}
use technosoft_tml_motor.Prelude.Int.{ℤ, pos, negsuc}
use technosoft_tml_motor.Prelude.State.{State}
use technosoft_tml_motor.VarMap.{Name, VarMap, merge, new_map}
use technosoft_tml_motor.Channel.{LinkError}
use technosoft_tml_motor.Link.{Link}
use technosoft_tml_motor.Drive.{Chan, Ident}
use technosoft_tml_motor.Api.Act.{
  Act, Outcome, done, failed, refused, Fn, ApiError, no_free_channel, no_free_setup,
  no_active_channel, invalid_setup, fd_not_found, of_channel,
}

abbrev pub max_channels : ℕ
max_channels = 8

abbrev pub max_setups : ℕ
max_setups = 16

pub record Setup : Type 0 where
  pub path : Name
  pub vars : VarMap

-- The first free place of a table.
unfoldable pub find_free : {A : Type 0} → List (Option A) → Option ℕ
find_free [] = none
find_free (none ∷ xs) = some zero
find_free (some a ∷ xs) = elim (find_free xs) [ none ↦ none | some i ↦ some (suc i) ]

-- What a place of a table holds; nothing is in use behind the table's end.
abbrev pub entry_at : {A : Type 0} → List (Option A) → ℕ → Option A
entry_at [] i = none
entry_at (o ∷ xs) zero = o
entry_at (o ∷ xs) (suc i) = entry_at xs i

-- How `TmlChannel::open` ends.
pub data Opened (A : Type 0) : Type 0 where
  opened : ℕ → A → Opened A
  not_opened : LinkError → Opened A

module _ (L : Link) where
  -- A used channel slot: the channel that it owns, and its descriptor.
  pub record Slot : Type 0 where
    pub fd : ℕ
    pub chan : Chan L

  pub record Globals : Type 0 where
    pub channels : List (Option Slot)
    pub active : Option ℕ
    pub active_fd : Option ℕ
    pub setups : List (Option Setup)
    pub error : ApiError

  abbrev pub initial : Globals
  initial = record {
    channels = replicate max_channels none;
    active = none;
    active_fd = none;
    setups = replicate max_setups none;
    error = ApiError.no_error;
  }

  -- The descriptor of a slot is `fd`.
  abbrev pub has_fd : ℕ → Option Slot → Bool
  has_fd fd none = false
  has_fd fd (some s) = s.fd == fd

  unfoldable pub find_fd : ℕ → List (Option Slot) → Option ℕ
  find_fd fd [] = none
  find_fd fd (s ∷ ss) =
      if has_fd fd s
      then some zero
      else elim (find_fd fd ss) [ none ↦ none | some i ↦ some (suc i) ]

  unfoldable pub find_used : List (Option Slot) → Option ℕ
  find_used [] = none
  find_used (none ∷ ss) = elim (find_used ss) [ none ↦ none | some i ↦ some (suc i) ]
  find_used (some s ∷ ss) = some zero

  -- `new TmlChannel` and its `open`, as the rest of TS_OpenChannel uses them.
  unfoldable pub place_channel : ℕ → Opened (Chan L) → State Globals (Option ℕ)
  place_channel slot (not_opened e) g = (none, record g { error = of_channel e })
  place_channel slot (opened fd ch) g = (
    some fd,
    record g {
      channels = set g.channels slot (some (record { fd = fd; chan = ch }));
      active = some slot;
      active_fd = some fd;
    },
  )

  unfoldable pub open_in : Opened (Chan L) → Option ℕ → State Globals (Option ℕ)
  unfolding place_channel
  open_in o none g = (none, record g { error = no_free_channel })
  open_in o (some slot) g = place_channel slot o g

  -- `none` is the result -1. The channel is opened only when a slot is free.
  unfoldable pub open_channel : Opened (Chan L) → State Globals (Option ℕ)
  unfolding open_in find_free
  open_channel o g = open_in o (find_free g.channels) g

  unfoldable pub select_slot : ℕ → Option ℕ → State Globals Bool
  select_slot fd none g = (false, record g { error = fd_not_found fd })
  select_slot fd (some i) g = (true, record g { active = some i; active_fd = some fd })

  abbrev pub is_some : {A : Type 0} → Option A → Bool
  is_some none = false
  is_some (some a) = true

  -- A negative descriptor asks whether any channel is selected.
  unfoldable pub select_channel : ℤ → State Globals Bool
  unfolding select_slot find_fd
  select_channel (negsuc n) g = (is_some g.active, g)
  select_channel (pos fd) g = select_slot fd (find_fd fd g.channels) g

  abbrev pub is_active : Option ℕ → ℕ → Bool
  is_active none i = false
  is_active (some j) i = j == i

  unfoldable pub close_slot : Option ℕ → Globals → Globals
  close_slot none g = g
  close_slot (some i) g = record g {
    channels = set g.channels i none;
    active = if is_active g.active i then none else g.active;
    active_fd = if is_active g.active i then none else g.active_fd;
  }

  -- A negative descriptor closes the first channel in use.
  unfoldable pub close_channel : ℤ → Globals → Globals
  unfolding close_slot find_fd find_used
  close_channel (negsuc n) g = close_slot (find_used g.channels) g
  close_channel (pos fd) g = close_slot (find_fd fd g.channels) g

  unfoldable pub store_setup : Setup → Option ℕ → State Globals (Option ℕ)
  store_setup s none g = (none, record g { error = no_free_setup })
  store_setup s (some i) g = (some i, record g { setups = set g.setups i (some s) })

  -- `load` is `loadFromZip` on a fresh variable map; no call ever frees a setup slot.
  unfoldable pub load_setup : (Name → VarMap → VarMap) → Name → State Globals (Option ℕ)
  unfolding store_setup find_free
  load_setup load path g =
      let kept = take 511 path in
      store_setup (record { path = kept; vars = load kept new_map }) (find_free g.setups) g

  -- The end of a TS_* call: its result and what it leaves in `g_lastError`.
  unfoldable pub outcome_error : {A : Type 0} → Outcome A → LinkError → ApiError → ApiError
  outcome_error (done a) e old = old
  outcome_error failed e old = of_channel e
  outcome_error (refused x) e old = x

  abbrev pub result : {A : Type 0} → Outcome A → Option A
  result (done a) = some a
  result failed = none
  result (refused e) = none

  unfoldable pub run_in : {A : Type 0} → Act L A → ℕ → Slot → State Globals (Option A)
  unfolding outcome_error
  run_in act i s g =
      let (o, c) = act s.chan in
      (
        result o,
        record g {
          channels = set g.channels i (some (record s { chan = c }));
          error = outcome_error o (L.error c.link) g.error;
        },
      )

  unfoldable pub run_at : {A : Type 0} → Act L A → ℕ → Option Slot → State Globals (Option A)
  unfolding run_in
  run_at act i none g = (none, g)
  run_at act i (some s) g = run_in act i s g

  -- A TS_* call named `fn`: its test for an active channel, then its body on that channel. A pointer
  -- to a channel that was deleted is undefined behaviour, here no effect; `Valid` rules it out.
  unfoldable pub call_on : {A : Type 0} → Fn → Act L A → Option ℕ → State Globals (Option A)
  unfolding run_at
  call_on fn act none g = (none, record g { error = no_active_channel fn })
  call_on fn act (some i) g = run_at act i (entry_at g.channels i) g

  unfoldable pub call : {A : Type 0} → Fn → Act L A → State Globals (Option A)
  unfolding call_on
  call fn act g = call_on fn act g.active g

  unfoldable pub select_axis : ℕ → Act L (Unit {0})
  select_axis axis c = (done tt, record c { ident = record (c.ident) { active_axis = axis } })

  abbrev pub setup_at : List (Option Setup) → ℤ → Option Setup
  setup_at ss (negsuc n) = none
  setup_at ss (pos i) = entry_at ss i

  unfoldable pub merge_setup : ℤ → Option Setup → Act L (Unit {0})
  merge_setup index none c = (refused (invalid_setup index), c)
  merge_setup index (some s) c =
      (done tt, record c { ident = record (c.ident) { var_map = merge c.ident.var_map s.vars } })

  -- TS_SetupAxis. The axis number is only logged: the addresses go into the map of the channel.
  unfoldable pub setup_axis : ℕ → ℤ → State Globals (Option (Unit {0}))
  unfolding call merge_setup
  setup_axis axis index g = call Fn.setup_axis (merge_setup index (setup_at g.setups index)) g
