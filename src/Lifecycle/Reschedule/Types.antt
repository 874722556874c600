-- ===== src/Lifecycle/Reschedule/Types.antt =====
-- lib/booking/reschedule.ts: the request, the collaborators and the outcome of a reschedule.
use marlo_scheduling.Prelude.{ℕ, ◌+◌, ◌*◌, Bool, Option, none, some}
use marlo_scheduling.Rows.{Key, Instant, BookingRow, PendingOp, Interval}
use marlo_scheduling.Lifecycle.World.{Step, Context}
use marlo_scheduling.Lifecycle.Envelope.{BookingEnvelope, EnvelopeMeta}
use marlo_scheduling.Lifecycle.Superseded.{OwnInsertRef}

-- The time zone only reaches the client's listing of events, and is left out. The fixed text of the
-- request's start is its instant.
pub record RescheduleRequest : Type 0 where
  pub booking_id : Key
  pub start : Instant
  pub expected_revision : ℕ
  pub duration_minutes : ℕ
  pub event_name : Key
  pub invitee_name : Key
  pub invitee_email : Key

-- `notify` is given the row and its previous start.
pub record RescheduleDeps (C : Type 0) : Type 0 where
  pub ctx : Context C
  pub meta : EnvelopeMeta
  pub notify : BookingRow → Instant → Step C (Unit {0})
  pub complete_inherited : BookingRow → PendingOp → Step C (Unit {0})

pub record RescheduleOutcome : Type 0 where
  pub envelope : BookingEnvelope
  pub row : BookingRow
  pub recovered : Bool

-- An insert of this worker that is known to have applied.
pub record OwnInsert : Type 0 where
  pub event_id : Key
  pub attempt_id : Key
  pub etag : Key

abbrev pub own_ref : Option OwnInsert → Option OwnInsertRef
own_ref none = none
own_ref (some own) = some (record { attempt_id = own.attempt_id; event_id = own.event_id })

unfoldable pub interval_for : RescheduleRequest → Interval
interval_for request = record {
  start = request.start;
  end = request.start + request.duration_minutes * 60_000;
}
