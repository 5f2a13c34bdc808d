-- ===== src/Api.antt =====
-- routes/*.py and main.py: one request, from the check of its body to its response.
pub mod Schemas
pub mod Requests
pub mod Bodies
pub mod Handlers
pub mod Serving
pub mod Frame
pub mod SensorUpdates
pub use Schemas.*
pub use Requests.{Request, is_valid}
pub use Bodies.{Body, is_presentable}
pub use Handlers.{handle}
pub use Serving.{Response, serve}
