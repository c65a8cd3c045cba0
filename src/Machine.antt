-- ===== src/Machine.antt =====
-- Steps over a state: how the functions of C that use static and shared variables are written.
mod Defs
mod Outcome
pub use Defs.*
pub use Outcome.*
