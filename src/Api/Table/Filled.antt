-- ===== src/Api/Table/Filled.antt =====
-- A table of setups that is filled from its start.
use technosoft_tml_motor.Prelude.{
  ℕ, zero, suc, ◌≡◌, refl, ap, Option, none, some, List, [], ◌∷◌, ◌++◌, length, set, get_elem?,
  replicate,
}
use technosoft_tml_motor.Api.Table.{Setup, entry_at, find_free}

abbrev pub filled : List Setup → ℕ → List (Option Setup)
filled [] n = replicate n none
filled (s ∷ ss) n = some s ∷ filled ss n

pub find_free-filled-none : (ss : List Setup) → find_free (filled ss zero) ≡ none
unfolding find_free
find_free-filled-none [] = refl
find_free-filled-none (s ∷ ss) = rw (find_free-filled-none ss)

pub find_free-filled-some :
    (ss : List Setup) (n : ℕ) → find_free (filled ss (suc n)) ≡ some (length ss)
unfolding find_free
find_free-filled-some [] n = refl
find_free-filled-some (s ∷ ss) n = rw (find_free-filled-some ss n)

pub set-filled :
    (ss : List Setup) (n : ℕ) (s : Setup)
    → set (filled ss (suc n)) (length ss) (some s) ≡ filled (ss ++ s ∷ []) n
set-filled [] n s = refl
set-filled (t ∷ ss) n s = ap (◌∷◌ (some t)) (set-filled ss n s)

pub entry_at-filled : (ss : List Setup) (n i : ℕ) → entry_at (filled ss n) i ≡ get_elem? ss i
entry_at-filled [] zero i = refl
entry_at-filled [] (suc n) zero = refl
entry_at-filled [] (suc n) (suc i) = entry_at-filled [] n i
entry_at-filled (s ∷ ss) n zero = refl
entry_at-filled (s ∷ ss) n (suc i) = entry_at-filled ss n i
