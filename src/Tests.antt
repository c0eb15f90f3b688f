-- ===== src/Tests.antt =====
-- Concrete instances of the parameters, and one run of every property with hypotheses.
pub mod Sim
mod Frames
mod Channels
mod Calls
mod Events
mod Motors
mod Tables
mod Setups
mod Sockets
mod Views
