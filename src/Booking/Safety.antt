-- ===== src/Booking/Safety.antt =====
-- lib/booking/create.ts: a create never books a host twice.
use marlo_scheduling.Prelude.{Option, All}
use marlo_scheduling.Rows.{BookingRow, RejectionReason}
use marlo_scheduling.Lifecycle.World.{World}
use marlo_scheduling.Lifecycle.Create.{CreateBookingRequest, CreateDeps, create_durable_booking}
use marlo_scheduling.Booking.Invariant.{Inv}
use marlo_scheduling.Booking.Keeps.Steps.{Keeps, KeepingTurn}
use marlo_scheduling.Booking.Keeps.Create.{create_durable_booking-Keeps}

-- A run of createDurableBooking leaves the rows of the store apart (no two rows with different
-- intervals of one host overlap), and each row satisfies CF-1 to CF-3. This holds for every answer
-- of the calendar, every fate of each commit and every interleaving with other workers, provided
-- that the store is so at the start, that each turn of the others keeps it so, and that the
-- notification and the gate do.
pub create_durable_booking-Inv :
    {C : Type 0} (deps : CreateDeps C) (request : CreateBookingRequest) (w : World C)
    → ((row : BookingRow) → Keeps C (Unit {0}) (deps.notify row))
    → Keeps C (Option RejectionReason) deps.gate
    → All KeepingTurn w.turns
    → Inv w.store
    → Inv (create_durable_booking deps request w).1.store
create_durable_booking-Inv deps request w notify gate turns inv =
    ((create_durable_booking-Keeps deps notify gate request).good w
      (record { inv = inv; turns = turns })).inv
