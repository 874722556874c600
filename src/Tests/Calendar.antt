-- ===== src/Tests/Calendar.antt =====
-- Runs of lib/google/mock-calendar.ts.
use marlo_scheduling.Prelude.{◌≡◌, ◌≢◌, refl, Bool, true, false, none, some, [], ◌∷◌, arith}
use marlo_scheduling.Rows.{Key}
use marlo_scheduling.Store.{ok}
use marlo_scheduling.Google.{
  CalendarEvent, InsertEventInput, GetEventInput, PatchEventInput, DeleteEventInput, all_guests,
  no_guests, event_deleted,
}
use marlo_scheduling.Google.Mock.{
  MockCalendar, create_mock_calendar, duplicate, inserted_event, patched_event, mock_insert,
  mock_get, mock_patch, mock_remove, is_applied,
}
use marlo_scheduling.Google.Etags.{call_get, call_remove, perform_all}
use marlo_scheduling.Google.Fencing.{mock_patch-fences}
use marlo_scheduling.Google.RoundTrip.{mock_insert-get}

abbrev insert_a : InsertEventInput
insert_a = record {
  calendar_id = 6;
  id = 50;
  start = 10_000_000;
  end = 11_800_000;
  summary = 4;
  booking_id = 7;
  attempt_id = 40;
  attendees = [];
  send_updates = all_guests;
}

abbrev any_id : Key → Bool
any_id id = true

abbrev fresh : MockCalendar
fresh = create_mock_calendar duplicate

abbrev get_a : GetEventInput
get_a = record { calendar_id = 6; event_id = 50 }

abbrev remove_a : DeleteEventInput
remove_a = record { calendar_id = 6; event_id = 50; if_match = 2; send_updates = no_guests }

abbrev stored_a : CalendarEvent
stored_a = (inserted_event insert_a 2).event

mock_insert-get_example :
    let after = (mock_insert any_id insert_a fresh).1 in
    ((mock_get get_a after).0 ≡ ok (some stored_a))
    × (stored_a.start ≡ 10_000_000)
    × (stored_a.end ≡ 11_800_000)
    × (stored_a.marlo_booking_id ≡ some 7)
    × (stored_a.marlo_attempt_id ≡ some 40)
    × ((mock_remove remove_a after).0 ≡ ok event_deleted)
unfolding create_mock_calendar inserted_event
mock_insert-get_example =
    mock_insert-get any_id insert_a get_a remove_a fresh stored_a refl refl
      (unfold mock_insert in refl) refl refl refl

-- The calendar with one event, under the etag 2.
abbrev with_event : MockCalendar
with_event = record (create_mock_calendar duplicate) {
  events = inserted_event insert_a 2 ∷ [];
  etag_seq = 1;
}

abbrev bump_a : PatchEventInput
bump_a = record {
  calendar_id = 6;
  event_id = 50;
  start = none;
  end = none;
  summary = none;
  attendees = [];
  send_updates = no_guests;
  if_match = 2;
  op_gen = some (30, 2);
}

abbrev late_patch : PatchEventInput
late_patch = record bump_a { start = some 20_000_000; op_gen = none }

mock_patch-fences_example :
    let after =
      perform_all any_id
        (call_get get_a ∷ call_remove remove_a ∷ [])
        (mock_patch bump_a with_event).1 in
    ((mock_remove remove_a after).0 ≢ ok event_deleted)
    × ((mock_remove remove_a after).1.events ≡ after.events)
    × (is_applied (mock_patch late_patch after).0 ≡ false)
    × ((mock_patch late_patch after).1.events ≡ after.events)
unfolding create_mock_calendar inserted_event
mock_patch-fences_example =
    mock_patch-fences any_id (call_get get_a ∷ call_remove remove_a ∷ []) bump_a late_patch remove_a
      with_event (patched_event bump_a (inserted_event insert_a 2) 4).event
      (record { drawn = (omega arith, tt) }) (unfold mock_patch patched_event in refl) refl refl
      refl refl
