-- ===== src/Motor.antt =====
-- The EPICS motor driver, TmlController and TmlAxis of technosoftSup/src/drvTmlMotor.cpp, over the
-- TS_* calls as an interface.
pub mod Calls
pub mod Axis
pub mod Status
pub mod Select
pub mod Power
pub mod Decode
pub mod Poll
pub mod Commands
pub mod Homing
pub mod Parameters
pub mod Lifecycle
pub mod Runs
pub mod Recovery
pub mod Ownership
pub mod Library
