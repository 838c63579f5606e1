-- ===== src/Exec.antt =====
-- Calls of Go code as values: results, effects on a state, and rules to reason about them.
mod Defs
pub mod Keeps
pub mod Invert
pub mod Results
unfoldable pub use Defs.*
