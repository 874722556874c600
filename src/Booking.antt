-- ===== src/Booking.antt =====
-- The safety of lib/booking: the invariant of the store and that a whole create keeps it.
pub mod Invariant
pub mod Writes
pub mod Transactions
pub mod Keeps
pub mod Safety
pub mod Idempotency
pub mod Reconcile
pub mod Finalize
pub mod Replay
pub mod Owned
pub mod Cancelled
pub mod Completes
pub mod Reserved
pub mod Moved
pub mod Fenced
pub mod Carried
pub mod Begun
pub mod Refusals
pub mod Interleaving
