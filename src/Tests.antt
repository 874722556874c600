-- ===== src/Tests.antt =====
-- Concrete runs of the model: each theorem of the development at an input where it says something.
mod Data
mod Rows
mod Store
mod Booking
mod Slots
mod Links
mod Lifecycle
mod Calendar
mod Cancels
