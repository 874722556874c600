-- ===== src/Lifecycle/Envelope.antt =====
-- lib/booking/envelope.ts: the response envelope of a booking. The error texts that an envelope may
-- carry are left out.
use marlo_scheduling.Prelude.{Bool, true, false, not, ◌&&◌, if◌then◌else◌}
use marlo_scheduling.Rows.{Key, BookingRow, CalendarState, is_pending}
use marlo_scheduling.Notify.{DeliverySummary, delivery_summary_for}
use marlo_scheduling.Lifecycle.Errors.{PublicBookingBody, broken}
use marlo_scheduling.Lifecycle.World.{Step, pure, throw, ◌>>=◌, on_store}

pub record EnvelopeMeta : Type 0 where
  pub owner_slug : Key
  pub event_slug : Key
  pub host_first_name : Key

pub record BookingEnvelope : Type 0 where
  pub booking : PublicBookingBody
  pub email : DeliverySummary
  pub calendar : CalendarState

pub data Surface : Type 0 where
  on_read on_create on_lifecycle : Surface

abbrev is_read : Surface → Bool
is_read on_read = true
is_read _ = false

unfoldable pub booking_body : BookingRow → EnvelopeMeta → PublicBookingBody
booking_body row meta = record {
  id = row.id;
  token = row.token;
  owner_slug = meta.owner_slug;
  event_slug = meta.event_slug;
  event_type_id = row.event_type_id;
  start = row.start;
  end = row.end;
  status = row.status;
  revision = row.revision;
  host_first_name = meta.host_first_name;
  invitee_name = row.invitee_name;
  invitee_email = row.invitee_email;
  rescheduled_from = row.rescheduled_from;
  notes = row.notes;
}

module _ {C : Type 0} where
  -- The summary is read first; `pending` is then an error on every surface but a read.
  unfoldable pub build_envelope : BookingRow → EnvelopeMeta → Surface → Step C BookingEnvelope
  unfolding booking_body
  build_envelope row meta surface = do
    email ←
        on_store
          (λ store. (delivery_summary_for store row.id row.revision row.latest_action, store))
    if is_pending row.calendar_state && not (is_read surface)
        then throw broken
        else pure (record {
          booking = booking_body row meta;
          email = email;
          calendar = row.calendar_state;
        })
