-- ===== src/Api/Table/Opening.antt =====
-- TS_OpenChannel with the real `TmlChannel::open`: what it gives the table of channels, and the state
-- in which a new channel is entered.
use technosoft_tml_motor.Prelude.{
  ℕ, List, [], ◌≡◌, refl, ap, ◌∙◌, true, Option, none, some, set, arith,
}
use technosoft_tml_motor.VarMap.{Name, get_address, new_map, defaults}
use technosoft_tml_motor.VarMap.Laws.{get_address-new_map}
use technosoft_tml_motor.Channel.{Posix}
use technosoft_tml_motor.Channel.Network.{Network}
use technosoft_tml_motor.Channel.Open.{Device, new_device, open_device}
use technosoft_tml_motor.Channel.Open.Usable.{open_device-Usable, Usable}
use technosoft_tml_motor.Link.{Link, channel_link}
use technosoft_tml_motor.Drive.{Chan}
use technosoft_tml_motor.Api.Table.{
  Globals, Opened, opened, not_opened, Slot, entry_at, find_free, open_channel, open_in,
  place_channel,
}
use technosoft_tml_motor.Api.Table.Slots.{entry_at-set_self, find_free-some}
use technosoft_tml_motor.Api.Table.Runs.{active_address, slot_address}

module _ (P : Posix) (N : Network P) where
  -- The new TmlChannel: its fields, with the map of its constructor.
  abbrev pub channel_of : Device P N → Chan (channel_link P)
  channel_of d = record {
    ident = record { host_id = d.host_id; active_axis = d.active_axis; var_map = new_map };
    link = record { port = d.port; log = [] };
  }

  unfoldable pub opened_device : Option ℕ → Device P N → Opened (Chan (channel_link P))
  opened_device none d = not_opened d.port.last_error
  opened_device (some fd) d = opened fd (channel_of d)

  -- `new TmlChannel` and its `open`.
  unfoldable pub open_new : List ℕ → ℕ → ℕ → ℕ → P.World → Opened (Chan (channel_link P))
  unfolding opened_device
  open_new path channel_type host_id baud w =
      let (r, d) = open_device P N path host_id baud channel_type (new_device P N w) in
      opened_device r d

  -- TS_OpenChannel.
  unfoldable pub ts_open_channel :
      List ℕ → ℕ → ℕ → ℕ → P.World → Globals (channel_link P) → Option ℕ × Globals (channel_link P)
  unfolding open_new
  ts_open_channel path channel_type host_id baud w g =
      open_channel (channel_link P) (open_new path channel_type host_id baud w) g

  -- The channel in a place of the table is open, talks as the host, and knows the default addresses.
  pub record Entered (fd host_id i : ℕ) (g : Globals (channel_link P)) : Type 0 where
    pub slot : Slot (channel_link P)
    pub entered : entry_at g.channels i ≡ some slot
    pub is_fd : slot.fd ≡ fd
    pub is_active : g.active ≡ some i
    pub is_open : slot.chan.link.port.is_open ≡ true
    pub as_host : slot.chan.ident.host_id ≡ host_id
    pub to_axis : slot.chan.ident.active_axis ≡ host_id
    pub addresses :
        (name : Name) → active_address (channel_link P) name g ≡ get_address name defaults

  placed :
      (fd host_id i : ℕ) (r : Option ℕ) (d : Device P N) (g : Globals (channel_link P))
      → Usable P N host_id r d
      → find_free g.channels ≡ some i
      → (open_in (channel_link P) (opened_device r d) (some i) g).0 ≡ some fd
      → Entered fd host_id i (open_in (channel_link P) (opened_device r d) (some i) g).1
  unfolding open_in place_channel opened_device
  placed fd host_id i none d g u free h = cc
  placed fd host_id i (some fd') d g u free h =
      let L : Link = channel_link P in
      let s : Slot L = record { fd = fd'; chan = channel_of d } in
      let here : entry_at (set g.channels i (some s)) i ≡ some s =
        entry_at-set_self g.channels i (some s) (find_free-some g.channels i free).0 in
      record {
        slot = s;
        entered = here;
        is_fd = ground (arith, h);
        is_active = refl;
        is_open = u.is_open;
        as_host = u.as_host;
        to_axis = u.to_axis;
        addresses = λ name. ap (slot_address L name) here ∙ get_address-new_map name;
      }

  Entered-at :
      (fd host_id : ℕ) (place : Option ℕ) (r : Option ℕ) (d : Device P N)
      (g : Globals (channel_link P))
      → Usable P N host_id r d
      → find_free g.channels ≡ place
      → (open_in (channel_link P) (opened_device r d) place g).0 ≡ some fd
      → (i : ℕ) × (find_free g.channels ≡ some i)
        × Entered fd host_id i (open_in (channel_link P) (opened_device r d) place g).1
  Entered-at fd host_id none r d g u free h = absurd (unfold open_in in ground (arith, h))
  Entered-at fd host_id (some i) r d g u free h = (i, free, placed fd host_id i r d g u free h)

  -- If TS_OpenChannel returns a descriptor, the first free place of the table holds a channel
  -- with it, which is the active one, is open, has the given host as host and as axis, and knows
  -- exactly the default addresses.
  pub ts_open_channel-Entered :
      (path : List ℕ) (channel_type host_id baud fd : ℕ) (w : P.World)
      (g : Globals (channel_link P))
      → (ts_open_channel path channel_type host_id baud w g).0 ≡ some fd
      → (i : ℕ) × (find_free g.channels ≡ some i)
        × Entered fd host_id i (ts_open_channel path channel_type host_id baud w g).1
  unfolding ts_open_channel open_channel
  ts_open_channel-Entered path channel_type host_id baud fd w g h =
      let (r, d) = open_device P N path host_id baud channel_type (new_device P N w) in
      Entered-at fd host_id (find_free g.channels) r d g
        (open_device-Usable P N path host_id baud channel_type (new_device P N w) refl) refl h
