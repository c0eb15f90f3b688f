-- ===== src/Drive.antt =====
-- The drive operations of TmlChannel over a transport: sendCommand, sendMcrConfig, sendSAP,
-- writeData16/32 and readData16/32 of technosoftSup/src/tmlSerial.cpp.
pub mod Opcodes
mod Defs
pub mod Read
unfoldable pub use Defs.*
