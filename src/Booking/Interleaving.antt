-- ===== src/Booking/Interleaving.antt =====
-- The lifecycle of lib/booking as interleaved transactions.
pub mod Sound
pub mod Base
pub mod Creating
pub mod Cancelling
pub mod Rescheduling
pub mod Steps
