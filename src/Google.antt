-- ===== src/Google.antt =====
-- lib/google/calendar.ts and lib/google/errors.ts: the port to Google Calendar and the one
-- classification of its answers. The client itself is not under the model: it is a record of
-- functions over a state of its own, and it may answer anything.
mod Errors
pub mod Outcomes
pub mod Mock
pub mod Control
pub mod Etags
pub mod Fencing
pub mod RoundTrip
unfoldable pub use Errors.*
use marlo_scheduling.Prelude.{ℕ, Bool, true, false, not, ◌&&◌, Option, none, some, List, ◌==◌}
use marlo_scheduling.Rows.{Key, Instant}
use marlo_scheduling.Store.{Result}

pub data SendUpdates : Type 0 where
  all_guests no_guests : SendUpdates

pub record CalendarAttendee : Type 0 where
  pub email : Key
  pub display_name : Option Key

pub data EventStatus : Type 0 where
  event_confirmed event_cancelled : EventStatus

pub data Transparency : Type 0 where
  opaque_event transparent_event : Transparency

pub record CalendarEvent : Type 0 where
  pub id : Key
  pub status : EventStatus
  pub start : Instant
  pub end : Instant
  pub etag : Key
  pub summary : Option Key
  pub transparency : Option Transparency
  pub attendees : List CalendarAttendee
  pub marlo_booking_id : Option Key
  pub marlo_attempt_id : Option Key
  pub marlo_op_gen : Option (Key × ℕ)

pub record InsertEventInput : Type 0 where
  pub calendar_id : Key
  pub id : Key
  pub start : Instant
  pub end : Instant
  pub summary : Key
  pub booking_id : Key
  pub attempt_id : Key
  pub attendees : List CalendarAttendee
  pub send_updates : SendUpdates

pub record PatchEventInput : Type 0 where
  pub calendar_id : Key
  pub event_id : Key
  pub start : Option Instant
  pub end : Option Instant
  pub summary : Option Key
  pub attendees : List CalendarAttendee
  pub send_updates : SendUpdates
  pub if_match : Key
  pub op_gen : Option (Key × ℕ)

pub record DeleteEventInput : Type 0 where
  pub calendar_id : Key
  pub event_id : Key
  pub if_match : Key
  pub send_updates : SendUpdates

pub record GetEventInput : Type 0 where
  pub calendar_id : Key
  pub event_id : Key

pub record ListEventsInput : Type 0 where
  pub calendar_id : Key
  pub time_min : Instant
  pub time_max : Instant

pub data DeleteOutcome : Type 0 where
  event_deleted event_absent : DeleteOutcome

-- Each call takes the calendar's state, and answers or throws.
pub record CalendarClient (C : Type 0) : Type 0 where
  pub insert : InsertEventInput → C → Result Thrown CalendarEvent × C
  pub get : GetEventInput → C → Result Thrown (Option CalendarEvent) × C
  pub patch : PatchEventInput → C → Result Thrown CalendarEvent × C
  pub remove : DeleteEventInput → C → Result Thrown DeleteOutcome × C
  pub list : ListEventsInput → C → Result Thrown (List CalendarEvent) × C

-- An item is managed when it carries a booking id that is not the empty text.
unfoldable pub is_managed : CalendarEvent → Bool
is_managed item = elim item.marlo_booking_id [ none ↦ false | some id ↦ not (id == 0) ]

abbrev is_cancelled_event : EventStatus → Bool
is_cancelled_event event_cancelled = true
is_cancelled_event event_confirmed = false

abbrev is_transparent : Option Transparency → Bool
is_transparent (some transparent_event) = true
is_transparent _ = false

unfoldable pub is_busy_candidate : CalendarEvent → Bool
is_busy_candidate item =
    not (is_cancelled_event item.status) && not (is_transparent item.transparency)
