-- ===== src/Tests/Tables.antt =====
-- Runs of the properties of the tables.
use technosoft_tml_motor.Prelude.{[], ◌∷◌, ◌≡◌, refl, none, some, codes, replicate}
use technosoft_tml_motor.Prelude.Int.{pos}
use technosoft_tml_motor.Api.Table.{
  Globals, Setup, opened, initial, find_free, open_channel, close_channel, load_setup,
}
use technosoft_tml_motor.Api.Table.Valid.{Valid}
use technosoft_tml_motor.Api.Table.Runs.{
  Run, start, next, opens, closes, Run-Valid, load_setup-full,
}
use technosoft_tml_motor.Tests.Sim.{link, channel}

-- One channel is opened with descriptor 3, and closed again.
abbrev one_open : Globals link
one_open = (open_channel link (opened 3 (channel [])) (initial link)).1

abbrev all_closed : Globals link
all_closed = close_channel link (pos 3) one_open

opening_and_closing : Run link (initial link) all_closed
opening_and_closing =
    next (next (start (initial link)) (opens (opened 3 (channel [])) (initial link)))
      (closes (pos 3) one_open)

Run-Valid_example : Valid link all_closed
Run-Valid_example = Run-Valid link all_closed opening_and_closing

-- A setup that moves MER.
abbrev setup : Setup
setup = record { path = codes "a.t.zip"; vars = (codes "MER", 0x08FC) ∷ [] }

abbrev all_loaded : Globals link
all_loaded = record one_open { setups = replicate 16 (some setup) }

nothing_free : find_free all_loaded.setups ≡ none
unfolding find_free
nothing_free = refl

load_setup-full_example :
    (load_setup link (λ _ m. m) (codes "b.t.zip") (close_channel link (pos 3) all_loaded)).0 ≡ none
load_setup-full_example =
    load_setup-full link all_loaded (close_channel link (pos 3) all_loaded) (λ _ m. m)
      (codes "b.t.zip") nothing_free (next (start all_loaded) (closes (pos 3) all_loaded))
