-- ===== src/SetupFile.antt =====
-- The reader of setup files of technosoftSup/src/tmlSerial.cpp: `zipExtractFile`, the lines of
-- variables.cfg, and `TmlVariableMap::loadFromZip`.
pub mod Zip
pub mod Config
pub mod Load
pub mod Stored
