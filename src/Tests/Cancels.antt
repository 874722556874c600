-- ===== src/Tests/Cancels.antt =====
-- Whole runs of lib/booking/cancel.ts on the calendar of lib/google/mock-calendar.ts.
use marlo_scheduling.Prelude.{◌+◌, ◌≡◌, refl, Bool, true, [], ◌∷◌, some, none}
use marlo_scheduling.Rows.{
  Key, BookingRow, BookingRowStatus, CalendarState, eligible_reap_ids, retry_after_seconds,
  is_stale_op,
}
use marlo_scheduling.Store.{ok, err, get_by_id}
use marlo_scheduling.Notify.{delivery_summary_for}
use marlo_scheduling.Google.{all_guests, InsertEventInput, event_deleted}
use marlo_scheduling.Google.Mock.{
  MockCalendar, create_mock_calendar, duplicate, mock_client, mock_get, mock_remove, inserted_event,
}
use marlo_scheduling.Lifecycle.Errors.{lifecycle, in_progress}
use marlo_scheduling.Lifecycle.World.{World, Context, pure}
use marlo_scheduling.Lifecycle.Envelope.{booking_body}
use marlo_scheduling.Lifecycle.Cancel.{
  CancelDeps, CancelRequest, CancelOutcome, cancel_durable_booking,
}
use marlo_scheduling.Booking.Refusals.{
  refusal_of, cancel_durable_booking-repeats, cancel_durable_booking-refused,
}
use marlo_scheduling.Booking.Completes.Delete.{live_event_input, live_delete_input}
use marlo_scheduling.Booking.Completes.Start.{cancel_durable_booking-completes}
use marlo_scheduling.Tests.Data.{deps_a, op_a, row_a, row_done, store_with}

abbrev any_id : Key → Bool
any_id id = true

abbrev context_m : Context MockCalendar
context_m = record {
  client = mock_client any_id;
  calendar_id = 6;
  send_updates = all_guests;
  uuid = λ n. n + 1;
}

abbrev cancel_m : CancelDeps MockCalendar
cancel_m = record {
  ctx = context_m;
  meta = deps_a.meta;
  notify = λ row. pure tt;
  complete_inherited = λ row op. pure tt;
}

-- A cancelled booking with nothing left to reap.
abbrev row_gone : BookingRow
row_gone = record row_done {
  status = BookingRowStatus.cancelled;
  unresolved_inserts = [];
  calendar_state = CalendarState.deleted;
}

abbrev gone_world : World MockCalendar
gone_world = record {
  store = store_with row_gone;
  calendar = create_mock_calendar duplicate;
  now = 5_000;
  drawn = 0;
  turns = [];
}

abbrev cancel_again : CancelRequest
cancel_again = record { booking_id = 7; expected_revision = 1 }

cancel_durable_booking-repeats_example : cancel_durable_booking cancel_m cancel_again gone_world ≡ (
  ok (record {
    envelope = record {
      booking = booking_body row_gone deps_a.meta;
      email = delivery_summary_for (store_with row_gone) 7 row_gone.revision row_gone.latest_action;
      calendar = row_gone.calendar_state;
    };
    row = row_gone;
  }),
  gone_world,
)
unfolding eligible_reap_ids
cancel_durable_booking-repeats_example =
    cancel_durable_booking-repeats cancel_m cancel_again gone_world row_gone
      (unfold get_by_id in refl) refl refl refl

-- A booking whose create is open and not stale.
abbrev busy_world : World MockCalendar
busy_world = record gone_world { store = store_with row_a }

cancel_durable_booking-refused_example : cancel_durable_booking cancel_m cancel_again busy_world ≡ (
  err (lifecycle (in_progress (retry_after_seconds op_a 5_000))),
  record busy_world { drawn = 1 },
)
cancel_durable_booking-refused_example =
    cancel_durable_booking-refused cancel_m cancel_again busy_world row_a
      (in_progress (retry_after_seconds op_a 5_000)) (unfold get_by_id in refl) refl
      (unfold refusal_of is_stale_op in refl)

-- A standing booking without late inserts, and its event on the calendar under the etag 2.
abbrev row_standing : BookingRow
row_standing = record row_done { google_event_id = some 50; unresolved_inserts = [] }

abbrev insert_a : InsertEventInput
insert_a = record {
  calendar_id = 6;
  id = 50;
  start = 10_000_000;
  end = 11_800_000;
  summary = 4;
  booking_id = 7;
  attempt_id = 40;
  attendees = [];
  send_updates = all_guests;
}

abbrev with_event : MockCalendar
with_event = record (create_mock_calendar duplicate) {
  events = inserted_event insert_a 2 ∷ [];
  etag_seq = 1;
}

abbrev standing_world : World MockCalendar
standing_world = record gone_world { store = store_with row_standing; calendar = with_event }

abbrev observed : MockCalendar
observed = (mock_get (live_event_input context_m 50) with_event).1

abbrev deleted : MockCalendar
deleted = (mock_remove (live_delete_input context_m 50 2) observed).1

cancel_durable_booking-completes_example :
    (out : CancelOutcome) × (after : World MockCalendar) × (cancel_durable_booking cancel_m
        cancel_again standing_world
      ≡ (ok out, after))
    × (get_by_id after.store 7 ≡ some out.row)
    × (out.row.status ≡ BookingRowStatus.cancelled)
    × (out.row.revision ≡ 2)
    × (out.row.pending_op ≡ none)
    × (out.row.calendar_state ≡ CalendarState.deleted)
    × (after.calendar ≡ deleted)
unfolding eligible_reap_ids mock_get mock_remove create_mock_calendar inserted_event mock_client
cancel_durable_booking-completes_example =
    cancel_durable_booking-completes cancel_m cancel_again standing_world row_standing 50
      (inserted_event insert_a 2).event observed event_deleted deleted (unfold get_by_id in refl)
      refl refl refl refl refl refl refl refl (λ r v. refl)
