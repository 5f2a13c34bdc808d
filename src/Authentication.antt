-- ===== src/Authentication.antt =====
-- services/auth_service.py, utils/security.py and the dependency of routes/auth.py that reads the
-- bearer token. The random draws of a call (the salt of bcrypt, the token of `secrets`) are arguments.
pub mod Tokens
pub mod Accounts
pub mod Passwords
pub mod Registration
pub mod Reset
pub mod Google
pub use Tokens.*
pub use Accounts.*
pub use Passwords.*
