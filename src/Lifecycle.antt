-- ===== src/Lifecycle.antt =====
-- lib/booking: the lifecycle of a durable booking.
pub mod Errors
pub mod World
pub mod Ops
pub mod Identity
pub mod Envelope
pub mod Settle
pub mod Superseded
pub mod Reap
pub mod Busy
pub mod Create
pub mod Observed
pub mod Cancel
pub mod Reschedule
pub mod Repair
