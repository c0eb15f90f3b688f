-- ===== src/Channel.antt =====
-- One serial or TCP channel, TmlChannel of technosoftSup/src/tmlSerial.cpp: byte input and output
-- with deadlines, the acknowledge byte, and sending and receiving a frame.
pub mod System
pub mod Time
mod Defs
pub mod Evolves
pub mod Reads
pub mod Writes
pub mod Waits
pub mod Send
pub mod Receive
pub mod Address
pub mod Network
pub mod Connect
pub mod Open
pub use System.{Posix, Quiet}
unfoldable pub use Defs.*
