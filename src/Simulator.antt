-- ===== src/Simulator.antt =====
-- simulator/simulator.py: the client that posts plausible and faulty readings. Its HTTP client stands
-- for the backend itself, whose answers are those of Api.serve.
pub mod Values
pub mod Ticks
pub mod History
pub mod Loop
pub mod Coverage
pub use Values.*
pub use Ticks.*
