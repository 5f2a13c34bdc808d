-- ===== src/Mongo.antt =====
-- The document store: the driver calls and what MongoDB documents of them (Spec), and a store of
-- plain lists that meets them (Listed).
pub mod Spec
pub mod Listed
pub mod Contents
pub use Spec.*
