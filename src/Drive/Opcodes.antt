-- ===== src/Drive/Opcodes.antt =====
-- The opcodes and MCR masks of technosoftSup/src/tmlSerial.h.
use technosoft_tml_motor.Prelude.{ℕ}

abbrev pub op_give_me_data_16 : ℕ
op_give_me_data_16 = 0xB004

abbrev pub op_give_me_data_32 : ℕ
op_give_me_data_32 = 0xB005

abbrev pub op_take_data_16 : ℕ
op_take_data_16 = 0xB404

abbrev pub op_take_data_32 : ℕ
op_take_data_32 = 0xB405

abbrev pub op_write_data_16 : ℕ
op_write_data_16 = 0x9004

abbrev pub op_write_data_32 : ℕ
op_write_data_32 = 0x9005

abbrev pub op_endinit : ℕ
op_endinit = 0x0020

abbrev pub op_axison : ℕ
op_axison = 0x0102

abbrev pub op_axisoff : ℕ
op_axisoff = 0x0002

abbrev pub op_stop : ℕ
op_stop = 0x01C4

abbrev pub op_stop_imm : ℕ
op_stop_imm = 0x0104

abbrev pub op_upd : ℕ
op_upd = 0x0008

abbrev pub op_upd_imm : ℕ
op_upd_imm = 0x0108

abbrev pub op_reset : ℕ
op_reset = 0x0402

abbrev pub op_sap : ℕ
op_sap = 0x8400

abbrev pub op_mcr_config : ℕ
op_mcr_config = 0x5909

-- An AND mask and an OR value: the drive sets MCR to `(MCR & mask) | value`.
pub record McrChange : Type 0 where
  pub mask : ℕ
  pub value : ℕ

abbrev pub cpa : McrChange
cpa = record { mask = 0xFFFF; value = 0x2000 }

abbrev pub cpr : McrChange
cpr = record { mask = 0xDFFF; value = 0x0000 }

abbrev pub mode_pp3 : McrChange
mode_pp3 = record { mask = 0xBFC1; value = 0x8701 }

abbrev pub mode_sp1 : McrChange
mode_sp1 = record { mask = 0xBBC1; value = 0x8301 }

abbrev pub tum1 : McrChange
tum1 = record { mask = 0xFFFF; value = 0x4000 }
