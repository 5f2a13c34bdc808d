-- ===== src/Security.antt =====
-- What authentication takes from outside (bcrypt, python-jose, google-auth, bson), the text functions
-- it calls, and the configuration of config.py: a parameter of the development, with what the libraries
-- document.
pub mod Spec
pub mod Plain
pub use Spec.*
