-- ===== src/Google/Control.antt =====
-- lib/google/mock-calendar.ts: the controls of the memory calendar, which its tests call.
use marlo_scheduling.Prelude.{
  Bool, not, Option, none, some, List, [], ◌∷◌, ◌++◌, if◌then◌else◌, find, filter, adjust,
}
use marlo_scheduling.Rows.{Key, Instant}
use marlo_scheduling.Google.{CalendarEvent, EventStatus, Transparency}
use marlo_scheduling.Google.Mock.{
  MockCalendar, StoredEvent, CollisionMode, CallKind, ScriptedOutcome, HeldInsert, has_event_id,
  is_cancelled, event_of, has_attempt, store_event, next_etag, execute_insert, create_mock_calendar,
}

unfoldable pub live_events : MockCalendar → List StoredEvent
live_events c = filter (λ (s : StoredEvent). not (is_cancelled s)) c.events

unfoldable pub event_by_id : MockCalendar → Key → Option CalendarEvent
event_by_id c id = event_of (find (has_event_id id) c.events)

unfoldable pub set_collision_mode : CollisionMode → MockCalendar → MockCalendar
set_collision_mode mode c = record c { collision = mode }

pub record SeededEvent : Type 0 where
  pub id : Key
  pub start : Instant
  pub end : Instant
  pub calendar_id : Key
  pub transparency : Option Transparency
  pub status : EventStatus
  pub booking_id : Option Key
  pub attempt_id : Option Key
  pub summary : Key

-- `seedExternal` and `seedManaged`, with the defaults filled in by the caller.
unfoldable pub seed_event : SeededEvent → MockCalendar → MockCalendar
unfolding store_event
seed_event seeded c =
    store_event
      (record {
        calendar_id = seeded.calendar_id;
        event = record {
          id = seeded.id;
          status = seeded.status;
          start = seeded.start;
          end = seeded.end;
          etag = next_etag c;
          summary = some seeded.summary;
          transparency = seeded.transparency;
          attendees = [];
          marlo_booking_id = seeded.booking_id;
          marlo_attempt_id = seeded.attempt_id;
          marlo_op_gen = none;
        };
      })
      c

unfoldable pub fail_next : CallKind → ScriptedOutcome → MockCalendar → MockCalendar
fail_next kind outcome c = record c {
  scripted = c.scripted ++ record { kind = kind; outcome = outcome } ∷ [];
}

unfoldable pub fail_list_with : Option ScriptedOutcome → MockCalendar → MockCalendar
fail_list_with outcome c = record c { list_failure = outcome }

unfoldable pub hold_next_insert : Bool → MockCalendar → MockCalendar
hold_next_insert execute c = record c { hold_next = some execute }

abbrev pub mark_executed : Key → Bool → MockCalendar → MockCalendar
mark_executed attempt_id done c = record c {
  held = adjust (has_attempt attempt_id) (λ (h : HeldInsert). record h { executed = done }) c.held;
}

-- `executeHeld`; `releaseHeld` does the same and then settles a caller, which has none here.
unfoldable pub execute_held : Key → MockCalendar → MockCalendar
unfolding execute_insert
execute_held attempt_id c = elim (find (has_attempt attempt_id) c.held) [
  | none ↦ c
  | some held ↦
      if held.executed
      then c
      else let (done, c') = execute_insert held.input c in mark_executed attempt_id done c'
]

unfoldable pub reset : MockCalendar → MockCalendar
unfolding create_mock_calendar
reset c = create_mock_calendar c.initial_collision
