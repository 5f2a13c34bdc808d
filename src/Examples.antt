-- ===== src/Examples.antt =====
-- Concrete inputs, runs of the model on them, and the theorems applied to them.
pub mod Database
pub mod Pipeline
pub mod Scores
pub mod Control
pub mod Services
pub mod Queues
pub mod Histories
pub mod Accounts
pub mod Simulation
pub mod Training
pub mod Importing
