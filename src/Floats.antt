-- ===== src/Floats.antt =====
-- Python's `float`: the interface and its laws (Spec), facts on the order (Order), and a number type
-- that meets the laws (Fixed).
pub mod Spec
pub mod Order
pub mod Fixed
pub use Spec.*
