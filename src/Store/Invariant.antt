-- ===== src/Store/Invariant.antt =====
-- What the tables are to satisfy between any two statements.
mod Ids
mod OneActive
mod Statements
pub use Ids.{Rising, Rising-le}
pub use OneActive.{Exclusive}
pub use Statements.*
