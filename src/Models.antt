-- ===== src/Models.antt =====
-- The documents of the collections (models/*.py), one module to an entity. Every field is there
-- in every document: a stored document has gone through its schema. Enumerations stand for the
-- strings that are stored, ids of documents and points in time (microseconds) are numbers.
pub mod Sensors
pub mod Readings
pub mod Actuators
pub mod Rules
pub mod Nodes
pub mod Settings
pub mod Users
pub use Sensors.*
pub use Readings.*
pub use Actuators.*
pub use Rules.*
pub use Nodes.*
pub use Users.*
pub use Settings.*
