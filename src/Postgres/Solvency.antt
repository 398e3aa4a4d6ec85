-- ===== src/Postgres/Solvency.antt =====
-- No wallet is overdrawn.
pub mod Arithmetic
pub mod Deltas
pub mod Frames
pub mod Locks
pub mod Invariant
pub mod Writes
pub mod Posts
