-- ===== src/Api/Table/Room.antt =====
-- How many places of a table are free.
use technosoft_tml_motor.Prelude.{
  ℕ, zero, suc, ◌<◌, ◌≡◌, refl, ap, Option, none, some, List, [], ◌∷◌, length, set, arith,
  Option-cases, inl, inr,
}
use technosoft_tml_motor.Link.{Link}
use technosoft_tml_motor.Api.Table.{entry_at, find_free, Slot}

module _ (L : Link) where
  -- How many places are free.
  unfoldable pub room : List (Option (Slot L)) → ℕ
  room [] = 0
  room (none ∷ ss) = suc (room ss)
  room (some s ∷ ss) = room ss

  pub room-full : (ss : List (Option (Slot L))) → find_free ss ≡ none → room ss ≡ 0
  unfolding room find_free
  room-full [] h = refl
  room-full (none ∷ ss) h = cc h
  room-full (some s ∷ ss) h = elim (Option-cases (find_free ss)) [
    | inl e ↦ room-full ss e
    | inr (k, e) ↦ absurd (ground (arith, h))
  ]

  -- A free place that is used, a used one that is freed, and one that stays in use.
  pub room-use :
      (i : ℕ) (s : Slot L) (ss : List (Option (Slot L)))
      → i < length ss
      → entry_at ss i ≡ none
      → room ss ≡ suc (room (set ss i (some s)))
  unfolding room
  room-use i s [] inside free = absurd (omega arith)
  room-use zero s (none ∷ ss) inside free = refl
  room-use zero s (some t ∷ ss) inside free = cc free
  room-use (suc i) s (none ∷ ss) inside free = ap suc (room-use i s ss (omega arith) free)
  room-use (suc i) s (some t ∷ ss) inside free = room-use i s ss (omega arith) free

  pub room-free :
      (i : ℕ) (s : Slot L) (ss : List (Option (Slot L)))
      → entry_at ss i ≡ some s
      → room (set ss i none) ≡ suc (room ss)
  unfolding room
  room-free i s [] here = cc here
  room-free zero s (none ∷ ss) here = cc here
  room-free zero s (some t ∷ ss) here = refl
  room-free (suc i) s (none ∷ ss) here = ap suc (room-free i s ss here)
  room-free (suc i) s (some t ∷ ss) here = room-free i s ss here

  pub room-keep :
      (i : ℕ) (s t : Slot L) (ss : List (Option (Slot L)))
      → entry_at ss i ≡ some s
      → room (set ss i (some t)) ≡ room ss
  unfolding room
  room-keep i s t [] here = refl
  room-keep zero s t (none ∷ ss) here = cc here
  room-keep zero s t (some u ∷ ss) here = refl
  room-keep (suc i) s t (none ∷ ss) here = ap suc (room-keep i s t ss here)
  room-keep (suc i) s t (some u ∷ ss) here = room-keep i s t ss here
