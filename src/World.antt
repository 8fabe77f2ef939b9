-- ===== src/World.antt =====
-- The database as the services see it: its rows, the calls that read and write them, and the
-- errors that a call can throw.
mod Errors
mod Rows
mod Monad
mod Inversion
pub use Errors.*
pub use Rows.*
pub use Monad.*
pub use Inversion.*
