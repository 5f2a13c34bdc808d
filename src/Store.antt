-- ===== src/Store.antt =====
-- The state of the backend and the calls that act on it: a computation with exceptions (Run), the
-- collections and the rest of the state (Db), the driver calls (Driver), and the rules for
-- properties that a computation keeps (Keeps).
pub mod Run
pub mod Db
pub mod Driver
pub mod Keeps
pub mod Ensures
pub mod Succeeds
pub mod SameResult
pub mod Quiet
pub mod Frame
