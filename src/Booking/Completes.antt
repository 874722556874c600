-- ===== src/Booking/Completes.antt =====
-- lib/booking/cancel.ts: a cancel runs to its end while no other worker commits.
pub mod Quiet
pub mod Finish
pub mod Held
pub mod Delete
pub mod Start
