-- ===== src/Api/Table/Simulation.antt =====
-- When the tables show an abstract view, and TS_OpenChannel beside its abstract version.
use technosoft_tml_motor.Prelude.{
  ℕ, zero, suc, ◌≡◌, refl, sym, ap, ◌∙◌, Option, none, some, List, if◌then◌else◌, ◌==◌, arith,
}
use technosoft_tml_motor.Prelude.Int.{ℤ, pos, negsuc}
use technosoft_tml_motor.Channel.{LinkError}
use technosoft_tml_motor.Link.{Link}
use technosoft_tml_motor.Drive.{Chan}
use technosoft_tml_motor.Api.Act.{ApiError, no_free_channel, of_channel}
use technosoft_tml_motor.Api.Table.{
  Globals, Setup, Slot, entry_at, find_free, opened, not_opened, initial, open_in, place_channel,
  setup_at,
}
use technosoft_tml_motor.Api.Table.Slots.{find_free-some}
use technosoft_tml_motor.Api.Table.Valid.{Valid, initial-Valid, open_in-Valid}
use technosoft_tml_motor.Api.Table.Lookup.{
  chan_at, chan_of, Distinct, Alone, Of, chan_at-set, Distinct-set, Alone-free, Alone-used,
  chan_at-Alone,
}
use technosoft_tml_motor.Api.Table.Room.{room, room-full, room-use}
use technosoft_tml_motor.Api.Table.Abstract.{View, empty, view_open, loaded_at}
use technosoft_tml_motor.Api.Table.Filled.{filled, entry_at-filled}

module _ (L : Link) where
  pub setup_at-filled :
      (ss : List Setup) (n : ℕ) (z : ℤ) → setup_at L (filled ss n) z ≡ loaded_at L ss z
  setup_at-filled ss n (negsuc k) = refl
  setup_at-filled ss n (pos i) = entry_at-filled ss n i

  -- The tables show this view.
  pub record Shows (g : Globals L) (v : View L) : Type 0 where
    pub valid : Valid L g
    pub distinct : Distinct L g.channels
    pub named : (fd : ℕ) → chan_at L fd g.channels ≡ v.channels fd
    pub same_active : g.active_fd ≡ v.active
    pub same_room : room L g.channels ≡ v.room
    pub same_setups : g.setups ≡ filled v.setups v.setup_room

  pub initial-Shows : Shows (initial L) (empty L)
  unfolding chan_at room
  initial-Shows = record {
    valid = initial-Valid L;
    distinct = tt;
    named = λ fd. refl;
    same_active = refl;
    same_room = refl;
    same_setups = refl;
  }

  -- Both sides come to the same reply, and the tables still show the view.
  abbrev pub Agrees : {A : Type 0} → A × Globals L → A × View L → Type 0
  Agrees (a, g) (b, v) = (a ≡ b) × Shows g v

  -- The last error is no part of the view.
  pub Shows-error :
      (e : ApiError) (g : Globals L) (v : View L) → Shows g v → Shows (record g { error = e }) v
  Shows-error e g v s = record {
    valid = record {
      channels_size = s.valid.channels_size;
      setups_size = s.valid.setups_size;
      active_in_use = s.valid.active_in_use;
    };
    distinct = s.distinct;
    named = s.named;
    same_active = s.same_active;
    same_room = s.same_room;
    same_setups = s.same_setups;
  }

  pub opened-Agrees :
      (fd : ℕ) (ch : Chan L) (place : Option ℕ) (n : ℕ) (g : Globals L) (v : View L)
      → find_free g.channels ≡ place
      → v.room ≡ n
      → v.channels fd ≡ none
      → Shows g v
      → Agrees (open_in L (opened fd ch) place g) (view_open L fd ch n v)
  unfolding open_in place_channel
  opened-Agrees fd ch none zero g v free room_n new s = (refl, Shows-error no_free_channel g v s)
  opened-Agrees fd ch none (suc n) g v free room_n new s =
      absurd (omega (arith, room-full L g.channels free, s.same_room, room_n))
  opened-Agrees fd ch (some i) zero g v free room_n new s =
      let (inside, unused) = find_free-some g.channels i free in
      absurd (
        omega (
          arith,
          room-use L i (record { fd = fd; chan = ch }) g.channels inside unused,
          s.same_room,
          room_n,
        ))
  opened-Agrees fd ch (some i) (suc n) g v free room_n new s =
      let slot : Slot L = record { fd = fd; chan = ch } in
      let (inside, unused) = find_free-some g.channels i free in
      let alone : Alone L fd g.channels i =
        Alone-free L fd i g.channels inside unused (s.named fd ∙ new) in
      let old : Of L fd (entry_at g.channels i) = rw unused tt in
      (
        refl,
        record {
          valid = open_in-Valid L (opened fd ch) (some i) g free s.valid;
          distinct = Distinct-set L fd i (some slot) g.channels alone old refl s.distinct;
          named = λ f.
              chan_at-set L fd f i (some slot) g.channels alone old refl
              ∙ ap (λ c. if f == fd then some ch else c) (s.named f);
          same_active = refl;
          same_room =
              omega (arith, room-use L i slot g.channels inside unused, s.same_room, room_n);
          same_setups = s.same_setups;
        },
      )

  pub refused-Agrees :
      (e : LinkError) (place : Option ℕ) (g : Globals L) (v : View L)
      → Shows g v
      → Agrees (open_in L (not_opened e) place g) (none, v)
  unfolding open_in place_channel
  refused-Agrees e none g v s = (refl, Shows-error no_free_channel g v s)
  refused-Agrees e (some i) g v s = (refl, Shows-error (of_channel e) g v s)

  -- A channel in use is what its descriptor names.
  pub in_use :
      (i : ℕ) (t : Slot L) (g : Globals L) (v : View L)
      → entry_at g.channels i ≡ some t
      → Shows g v
      → v.channels t.fd ≡ some t.chan
  in_use i t g v here s =
      let old : Of L t.fd (entry_at g.channels i) = rw here refl in
      sym (s.named t.fd)
      ∙ chan_at-Alone L t.fd i g.channels (Alone-used L i t g.channels s.distinct here) old
      ∙ ap (chan_of L) here
