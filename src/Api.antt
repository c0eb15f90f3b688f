-- ===== src/Api.antt =====
-- The TS_* interface of technosoftSup/src/tmlSerial.cpp: commands, variables, motion and events on
-- the active channel, and the table of channels and setups.
pub mod Act
pub mod Plan
pub mod Real
pub mod Commands
pub mod Variables
pub mod Motion
pub mod Events
pub mod Table
