-- ===== src/Api/Commands.antt =====
-- The commands of the TS_* interface, each from behind its test for an active channel.
pub mod Order
use technosoft_tml_motor.Prelude.{
  ℕ, zero, suc, ◌+◌, Bool, true, false, Option, none, some, if◌then◌else◌, codes, ltb,
}
use technosoft_tml_motor.Prelude.Int.{ℤ, pos, negsuc}
use technosoft_tml_motor.Prelude.State.{State}
use technosoft_tml_motor.VarMap.{Name, get_address}
use technosoft_tml_motor.Link.{Link}
use technosoft_tml_motor.Drive.{Chan, Ident, send_command, send_sap, write_data16, read_data16}
use technosoft_tml_motor.Drive.Opcodes.{
  op_endinit, op_axison, op_axisoff, op_stop, op_stop_imm, op_upd_imm, op_reset,
}
use technosoft_tml_motor.Api.Act.{
  Act, Outcome, done, failed, refused, ApiError, not_in_map, invalid_index, must, may, need, sleep,
  return, refuse, ident, ◌>>=◌, ◌>>◌, resolve_addr,
}

abbrev pub max_retries : ℕ
max_retries = 3

module _ (L : Link) where
  -- The `for` of TS_DriveInitialisation, over the attempts left; the pause stands between attempts.
  unfoldable pub initialisation_loop : ℕ → Act L (Unit {0})
  initialisation_loop zero c = (failed, c)
  initialisation_loop (suc left) c =
      let (ok, c₁) = send_command L op_endinit c in
      let paused : Chan L =
        if ltb 0 left then record c₁ { link = L.pause 500000 c₁.link } else c₁ in
      let again = initialisation_loop left paused in
      if ok then (done tt, record c₁ { link = L.pause 100000 c₁.link }) else again

  unfoldable pub drive_initialisation : Act L (Unit {0})
  unfolding initialisation_loop
  drive_initialisation = initialisation_loop max_retries

  unfoldable pub power : Bool → Act L (Unit {0})
  power enable = must L (send_command L (if enable then op_axison else op_axisoff))

  -- `SelIndex` of TS_ReadStatus to the register's name.
  unfoldable pub register_name : ℤ → Option Name
  register_name (pos zero) = some (codes "MCR")
  register_name (pos (suc zero)) = some (codes "MSR")
  register_name (pos (suc (suc zero))) = some (codes "ISR")
  register_name (pos (suc (suc (suc zero)))) = some (codes "SRL")
  register_name (pos (suc (suc (suc (suc zero))))) = some (codes "SRH")
  register_name (pos (suc (suc (suc (suc (suc zero)))))) = some (codes "MER")
  register_name (pos (suc (suc (suc (suc (suc (suc n))))))) = none
  register_name (negsuc n) = none

  unfoldable pub read_register : Name → Option ℕ → Act L ℕ
  read_register name none = refuse L (not_in_map name)
  read_register name (some addr) = need L (read_data16 L addr)

  unfoldable pub read_named : ℤ → Option Name → Act L ℕ
  unfolding read_register
  read_named index none = refuse L (invalid_index index)
  read_named index (some name) = do i ← ident L; read_register name (get_address name i.var_map)

  unfoldable pub read_status : ℤ → Act L ℕ
  unfolding read_named register_name
  read_status index = read_named index (register_name index)

  unfoldable pub set_position : ℤ → Act L (Unit {0})
  set_position z = must L (send_sap L z)

  unfoldable pub stop : Act L (Unit {0})
  stop = must L (send_command L op_stop)

  unfoldable pub abort : Act L (Unit {0})
  abort = must L (send_command L op_stop_imm)

  -- MER is read for the log only; then 0 is written to it.
  unfoldable pub reset_fault : Act L (Unit {0})
  reset_fault = do
    i ← ident L
    let mer_addr = resolve_addr (codes "MER") 0x0910 i
    may L (read_data16 L mer_addr)
    must L (write_data16 L mer_addr 0)

  unfoldable pub update_immediate : Act L (Unit {0})
  update_immediate = must L (send_command L op_upd_imm)

  -- TS_Save only logs that nothing is saved.
  unfoldable pub save : Act L (Unit {0})
  save = return L tt

  unfoldable pub reset : Act L (Unit {0})
  reset = must L (send_command L op_reset)
