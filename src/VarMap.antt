-- ===== src/VarMap.antt =====
-- The variable address map, TmlVariableMap of technosoftSup/src/tmlSerial.cpp: names of TML
-- variables and their 16-bit data-memory addresses. A `std::map` is a list with one entry for each
-- key; nothing in the program depends on its order.
pub mod Laws
use technosoft_tml_motor.Prelude.{
  ℕ, List, [], ◌∷◌, Option, none, some, if◌then◌else◌, bytes_eq, codes, length,
}

-- A `std::string` or a C string, as its bytes.
abbrev pub Name : Type 0
Name = List ℕ

abbrev pub VarMap : Type 0
VarMap = List (Name × ℕ)

-- `getAddress`: `none` is the result `false`.
unfoldable pub get_address : Name → VarMap → Option ℕ
get_address k [] = none
get_address k ((j, a) ∷ m) = if bytes_eq j k then some a else get_address k m

-- `setAddress`, and `map_[name] = addr` elsewhere.
unfoldable pub set_address : Name → ℕ → VarMap → VarMap
set_address k a [] = (k, a) ∷ []
set_address k a ((j, b) ∷ m) = if bytes_eq j k then (j, a) ∷ m else (j, b) ∷ set_address k a m

-- `merge`: every entry of the other map overrides.
unfoldable pub merge : VarMap → VarMap → VarMap
merge m [] = m
merge m ((k, a) ∷ other) = merge (set_address k a m) other

-- `size`.
abbrev pub size : VarMap → ℕ
size m = length m

abbrev pub defaults : List (Name × ℕ)
defaults =
    (codes "APOS", 0x0228)
    ∷ (codes "TPOS", 0x022A)
    ∷ (codes "CPOS", 0x022E)
    ∷ (codes "CSPD", 0x0230)
    ∷ (codes "CACC", 0x0232)
    ∷ (codes "MCR", 0x0908)
    ∷ (codes "MSR", 0x0909)
    ∷ (codes "ISR", 0x090A)
    ∷ (codes "SRL", 0x090E)
    ∷ (codes "SRH", 0x090F)
    ∷ (codes "MER", 0x0910)
    ∷ (codes "SCR", 0x0300)
    ∷ (codes "SRL_MASK", 0x0912)
    ∷ (codes "SRH_MASK", 0x0913)
    ∷ (codes "MER_MASK", 0x0914)
    ∷ (codes "MASTERID", 0x0916)
    ∷ (codes "POTM", 0x0240)
    ∷ []

-- `registerDefaults`: the assignments in the order of the source.
unfoldable pub register_defaults : VarMap → VarMap
register_defaults m = merge m defaults

-- The constructor.
unfoldable pub new_map : VarMap
unfolding register_defaults
new_map = register_defaults []
