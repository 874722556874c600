-- ===== src/Booking/Keeps.antt =====
-- Which steps of a worker keep the invariant of the store, and how the steps of ops.ts, reap.ts,
-- superseded.ts and settle.ts of lib/booking do. The other workers' turns keep it by hypothesis.
pub mod Steps
pub mod Cleanup
pub mod Completion
pub mod Insert
pub mod Create
