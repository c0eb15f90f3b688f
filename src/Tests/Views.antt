-- ===== src/Tests/Views.antt =====
-- A run of the refinement of the tables.
use technosoft_tml_motor.Prelude.{[], ◌∷◌, ◌≡◌, refl, codes, List}
use technosoft_tml_motor.Prelude.Int.{ℤ, pos, negsuc}
use technosoft_tml_motor.Api.Act.{Fn}
use technosoft_tml_motor.Api.Variables.{get_long_variable}
use technosoft_tml_motor.Api.Table.{opened, initial}
use technosoft_tml_motor.Api.Table.Abstract.{
  Request, opens, selects, closes, loads, sets_up, calls, empty, replies, promised_replies, AllNew,
  promised,
}
use technosoft_tml_motor.Api.Table.Refines.{replies-promised_replies}
use technosoft_tml_motor.Tests.Sim.{link, channel}

-- Two channels are opened, the first is selected, the second closed and opened again with the same
-- descriptor, and a setup is loaded and used before a variable is read.
abbrev requests : List (Request link ℤ)
requests =
    opens (opened 3 (channel []))
    ∷ opens (opened 4 (channel []))
    ∷ selects (pos 3)
    ∷ closes 4
    ∷ opens (opened 4 (channel []))
    ∷ selects (negsuc 0)
    ∷ loads (λ path m. m) (codes "a.t.zip")
    ∷ sets_up 2 (pos 0)
    ∷ calls Fn.get_long (get_long_variable link (codes "APOS"))
    ∷ []

requests-AllNew : AllNew link requests (empty link)
unfolding AllNew promised
requests-AllNew = (refl, (refl, (tt, (tt, (refl, (tt, (tt, (tt, (tt, tt)))))))))

replies-promised_replies_example :
    replies link requests (initial link) ≡ promised_replies link requests (empty link)
replies-promised_replies_example = replies-promised_replies link requests requests-AllNew
