-- ===== src/Api/Variables.antt =====
-- TML variables by name.
pub mod Order
use technosoft_tml_motor.Prelude.{ℕ, Option, none, some}
use technosoft_tml_motor.Prelude.Int.{ℤ, to_word16, to_word32, signed16, signed32}
use technosoft_tml_motor.VarMap.{Name, get_address}
use technosoft_tml_motor.Link.{Link}
use technosoft_tml_motor.Drive.{Chan, Ident, write_data16, write_data32, read_data16, read_data32}
use technosoft_tml_motor.Api.Act.{
  Act, Outcome, Fn, unknown_variable, must, need, return, refuse, ident, ◌>>=◌, ◌>>◌,
}
use technosoft_tml_motor.Api.Real.{Real, to_fixed, of_fixed}

module _ (L : Link) where
  unfoldable pub known : Fn → Name → Option ℕ → Act L ℕ
  known fn name none = refuse L (unknown_variable fn name)
  known fn name (some addr) = return L addr

  -- The look-up with which all six functions begin.
  unfoldable pub address_of : Fn → Name → Act L ℕ
  unfolding known
  address_of fn name = do i ← ident L; known fn name (get_address name i.var_map)

  unfoldable pub get_long_variable : Name → Act L ℤ
  unfolding address_of
  get_long_variable name = do
    addr ← address_of Fn.get_long name
    v ← need L (read_data32 L addr)
    return L (signed32 v)

  unfoldable pub set_long_variable : Name → ℤ → Act L (Unit {0})
  unfolding address_of
  set_long_variable name z = do
    addr ← address_of Fn.set_long name
    must L (write_data32 L addr (to_word32 z))

  unfoldable pub get_int_variable : Name → Act L ℤ
  unfolding address_of
  get_int_variable name = do
    addr ← address_of Fn.get_int name
    v ← need L (read_data16 L addr)
    return L (signed16 v)

  unfoldable pub set_int_variable : Name → ℤ → Act L (Unit {0})
  unfolding address_of
  set_int_variable name z = do
    addr ← address_of Fn.set_int name
    must L (write_data16 L addr (to_word16 z))

  module _ (F : Real) where
    unfoldable pub get_fixed_variable : Name → Act L F.R
    unfolding address_of
    get_fixed_variable name = do
      addr ← address_of Fn.get_fixed name
      v ← need L (read_data32 L addr)
      return L (of_fixed F v)

    unfoldable pub set_fixed_variable : Name → F.R → Act L (Unit {0})
    unfolding address_of
    set_fixed_variable name x = do
      addr ← address_of Fn.set_fixed name
      must L (write_data32 L addr (to_fixed F x))
