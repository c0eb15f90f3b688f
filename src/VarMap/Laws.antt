-- ===== src/VarMap/Laws.antt =====
-- Lookup after an update and after a merge, and the invariant that no name is listed twice.
use technosoft_tml_motor.Prelude.{
  ℕ, [], ◌∷◌, Option, none, some, ◌≡◌, refl, arith, if◌then◌else◌, bytes_eq, bytes_eq_iff,
  Bool-cases, inl, inr, ◌∙◌,
}
use technosoft_tml_motor.VarMap.{Name, VarMap, get_address, set_address, merge, new_map, defaults}

-- No name is listed twice, as in a `std::map`.
abbrev pub IsMap : VarMap → Type 0
IsMap [] = Unit {0}
IsMap ((k, a) ∷ m) = (get_address k m ≡ none) × IsMap m

-- After setAddress, its name has the new address and every other name the one that it had.
pub get_address-set_address :
    (j k : Name) (a : ℕ) (m : VarMap)
    → get_address j (set_address k a m) ≡ (if bytes_eq k j then some a else get_address j m)
unfolding get_address set_address
get_address-set_address j k a [] = refl
get_address-set_address j k a ((i, b) ∷ m) =
    ground
      (arith, bytes_eq_iff k j, bytes_eq_iff i k, bytes_eq_iff i j, get_address-set_address j k a m)

pub set_address-IsMap : (k : Name) (a : ℕ) (m : VarMap) → IsMap m → IsMap (set_address k a m)
unfolding get_address set_address
set_address-IsMap k a [] h = (refl, tt)
set_address-IsMap k a ((i, b) ∷ m) h = ground (
  arith,
  bytes_eq_iff i k,
  bytes_eq_iff k i,
  get_address-set_address i k a m,
  set_address-IsMap k a m h.1,
)

-- The later map where it has the name, else the earlier one.
abbrev pub or_else : Option ℕ → Option ℕ → Option ℕ
or_else (some a) o = some a
or_else none o = o

-- A merge with a map in which no name is listed twice gives every name the other map's address
-- where it has one, and else the address that the name had.
pub get_address-merge :
    (j : Name) (m other : VarMap)
    → IsMap other
    → get_address j (merge m other) ≡ or_else (get_address j other) (get_address j m)
unfolding get_address merge
get_address-merge j m [] h = refl
get_address-merge j m ((k, a) ∷ other) h =
    rw (get_address-merge j (set_address k a m) other h.1, get_address-set_address j k a m)
      (elim (Bool-cases (bytes_eq k j)) [
        | inl same ↦
            let e : k ≡ j = (bytes_eq_iff k j).0 same in
            let new : get_address j other ≡ none = rw (← e) h.0 in rw (same, new)
        | inr other_name ↦ rw other_name
      ])

pub merge-IsMap : (m other : VarMap) → IsMap m → IsMap (merge m other)
unfolding merge
merge-IsMap m [] h = h
merge-IsMap m ((k, a) ∷ other) h = merge-IsMap (set_address k a m) other (set_address-IsMap k a m h)

pub defaults-IsMap : IsMap defaults
unfolding get_address bytes_eq
defaults-IsMap = ground arith

or_else-none : (o : Option ℕ) → or_else o none ≡ o
or_else-none none = refl
or_else-none (some a) = refl

-- A fresh map gives each default name its default address and knows no other name.
pub get_address-new_map : (j : Name) → get_address j new_map ≡ get_address j defaults
unfolding new_map get_address
get_address-new_map j =
    get_address-merge j [] defaults defaults-IsMap ∙ or_else-none (get_address j defaults)

pub new_map-IsMap : IsMap new_map
unfolding new_map
new_map-IsMap = merge-IsMap [] defaults tt
