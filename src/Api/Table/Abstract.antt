-- ===== src/Api/Table/Abstract.antt =====
-- What the tables promise their callers: channels are named by descriptors, one of which is the active
-- one; as many can be open as there is room for; and the setups are a list that only grows.
use technosoft_tml_motor.Prelude.{
  ℕ, zero, suc, ◌≡◌, Bool, true, false, Option, none, some, List, [], ◌∷◌, ◌++◌, if◌then◌else◌,
  ◌==◌, length, get_elem?, take,
}
use technosoft_tml_motor.Prelude.Int.{ℤ, pos, negsuc}
use technosoft_tml_motor.Prelude.State.{State}
use technosoft_tml_motor.VarMap.{Name, VarMap, new_map}
use technosoft_tml_motor.Link.{Link}
use technosoft_tml_motor.Drive.{Chan}
use technosoft_tml_motor.Api.Act.{Act, Fn}
use technosoft_tml_motor.Api.Table.{
  Globals, Setup, Opened, opened, not_opened, is_some, is_active, result, max_channels, max_setups,
  merge_setup, open_channel, select_channel, close_channel, load_setup, setup_axis, call,
}

module _ (L : Link) where
  pub record View : Type 0 where
    pub channels : ℕ → Option (Chan L)
    pub active : Option ℕ
    pub room : ℕ
    pub setups : List Setup
    pub setup_room : ℕ

  abbrev pub empty : View
  empty = record {
    channels = λ fd. none;
    active = none;
    room = max_channels;
    setups = [];
    setup_room = max_setups;
  }

  -- The descriptor names this from now on.
  abbrev pub put : ℕ → Option (Chan L) → View → View
  put f o v = record v { channels = λ fd. if fd == f then o else v.channels fd }

  abbrev pub view_open : ℕ → Chan L → ℕ → State View (Option ℕ)
  view_open fd ch zero v = (none, v)
  view_open fd ch (suc n) v = (some fd, record (put fd (some ch) v) { active = some fd; room = n })

  abbrev pub view_select : ℕ → Option (Chan L) → State View Bool
  view_select fd none v = (false, v)
  view_select fd (some c) v = (true, record v { active = some fd })

  abbrev pub view_close : ℕ → Option (Chan L) → View → View
  view_close fd none v = v
  view_close fd (some c) v = record (put fd none v) {
    active = if is_active L v.active fd then none else v.active;
    room = suc v.room;
  }

  abbrev pub view_load : Setup → ℕ → State View (Option ℕ)
  view_load s zero v = (none, v)
  view_load s (suc n) v =
      (some (length v.setups), record v { setups = v.setups ++ s ∷ []; setup_room = n })

  abbrev pub view_on : {A : Type 0} → Act L A → ℕ → Option (Chan L) → State View (Option A)
  view_on act fd none v = (none, v)
  view_on act fd (some c) v = let (o, c') = act c in (result L o, put fd (some c') v)

  -- A call works on the active channel.
  abbrev pub view_call : {A : Type 0} → Act L A → Option ℕ → State View (Option A)
  view_call act none v = (none, v)
  view_call act (some fd) v = view_on act fd (v.channels fd) v

  abbrev pub loaded_at : List Setup → ℤ → Option Setup
  loaded_at ss (negsuc n) = none
  loaded_at ss (pos i) = get_elem? ss i

  -- The calls of a client, and what it gets back. `calls` is any call on the active channel.
  pub data Request (A : Type 0) : Type 0 where
    opens : Opened (Chan L) → Request A
    selects : ℤ → Request A
    closes : ℕ → Request A
    loads : (Name → VarMap → VarMap) → Name → Request A
    sets_up : ℕ → ℤ → Request A
    calls : Fn → Act L A → Request A

  pub data Reply (A : Type 0) : Type 0 where
    closed : Reply A
    selected : Bool → Reply A
    number : Option ℕ → Reply A
    ended : Option (Unit {0}) → Reply A
    value : Option A → Reply A

  abbrev pub with_reply : {A B S : Type 0} → (B → Reply A) → B × S → Reply A × S
  with_reply f r = (f r.0, r.1)

  module _ {A : Type 0} where
    unfoldable pub perform : Request A → State (Globals L) (Reply A)
    perform (opens o) g = with_reply number (open_channel L o g)
    perform (selects fd) g = with_reply selected (select_channel L fd g)
    perform (closes fd) g = (closed, close_channel L (pos fd) g)
    perform (loads load path) g = with_reply number (load_setup L load path g)
    perform (sets_up axis index) g = with_reply ended (setup_axis L axis index g)
    perform (calls fn act) g = with_reply value (call L fn act g)

    unfoldable pub promised : Request A → State View (Reply A)
    promised (opens (not_opened e)) v = (number none, v)
    promised (opens (opened fd ch)) v = with_reply number (view_open fd ch v.room v)
    promised (selects (negsuc n)) v = (selected (is_some L v.active), v)
    promised (selects (pos fd)) v = with_reply selected (view_select fd (v.channels fd) v)
    promised (closes fd) v = (closed, view_close fd (v.channels fd) v)
    promised (loads load path) v =
        let kept = take 511 path in
        with_reply number
          (view_load (record { path = kept; vars = load kept new_map }) v.setup_room v)
    promised (sets_up axis index) v =
        with_reply ended (view_call (merge_setup L index (loaded_at v.setups index)) v.active v)
    promised (calls fn act) v = with_reply value (view_call act v.active v)

    -- The replies to a sequence of calls.
    unfoldable pub replies : List (Request A) → Globals L → List (Reply A)
    unfolding perform
    replies [] g = []
    replies (r ∷ rs) g = let (a, g') = perform r g in a ∷ replies rs g'

    unfoldable pub promised_replies : List (Request A) → View → List (Reply A)
    unfolding promised
    promised_replies [] v = []
    promised_replies (r ∷ rs) v = let (a, v') = promised r v in a ∷ promised_replies rs v'

    -- A descriptor that `open` gives names no open channel.
    abbrev pub New : Request A → View → Type 0
    New (opens (not_opened e)) v = Unit {0}
    New (opens (opened fd ch)) v = v.channels fd ≡ none
    New (selects fd) v = Unit {0}
    New (closes fd) v = Unit {0}
    New (loads load path) v = Unit {0}
    New (sets_up axis index) v = Unit {0}
    New (calls fn act) v = Unit {0}

    unfoldable pub AllNew : List (Request A) → View → Type 0
    AllNew [] v = Unit {0}
    AllNew (r ∷ rs) v = New r v × AllNew rs (promised r v).1
