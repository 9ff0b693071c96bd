-- ===== src/Model.antt =====
-- internal/app/model.go: the records of the application, a database's schedule and its validation.
mod Defs
pub mod TimeOfDay
mod Check
pub mod Plans
pub mod Validation
unfoldable pub use Defs.*
unfoldable pub use Check.*
