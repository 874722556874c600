-- ===== src/Google/Mock.antt =====
-- lib/google/mock-calendar.ts: the calendar of the memory mode. An insert that is held with the
-- answer `defer` leaves its caller waiting; that answer, and so the delivery of a held insert, is
-- left out. The texts `etag-N` and `etag-delivered-A` are even and odd keys, only the first occur.
use marlo_scheduling.Prelude.{
  ℕ, ◌+◌, ◌*◌, Bool, true, false, not, ◌&&◌, ◌||◌, Option, none, some, List, [], ◌∷◌, ◌++◌, ltb,
  ◌==◌, if◌then◌else◌, find, filter, put, map, or_else, either_of,
}
use marlo_scheduling.Rows.{Key}
use marlo_scheduling.Store.{Result, ok, err}
use marlo_scheduling.Google.{
  CalendarEvent, event_confirmed, event_cancelled, InsertEventInput, GetEventInput, PatchEventInput,
  DeleteEventInput, ListEventsInput, DeleteOutcome, event_deleted, event_absent, CalendarClient,
  CalendarAttendee, Thrown, thrown_status, thrown_calendar_error, thrown_other, class_definite,
  class_already_exists, class_precondition_failed, class_ambiguous, classify_status,
  is_absence_status,
}

pub data CollisionMode : Type 0 where
  duplicate land : CollisionMode

pub data CallKind : Type 0 where
  insert_call get_call patch_call delete_call list_call : CallKind

abbrev pub same_call : CallKind → CallKind → Bool
same_call insert_call insert_call = true
same_call get_call get_call = true
same_call patch_call patch_call = true
same_call delete_call delete_call = true
same_call list_call list_call = true
same_call _ _ = false

pub record CalendarCall : Type 0 where
  pub kind : CallKind
  pub calendar_id : Key
  pub event_id : Option Key
  pub attempt_id : Option Key
  pub if_match : Option Key

pub record StoredEvent : Type 0 where
  pub calendar_id : Key
  pub event : CalendarEvent

pub data ScriptedOutcome : Type 0 where
  scripted_status : ℕ → ScriptedOutcome
  scripted_throw : Thrown → ScriptedOutcome

pub record Scripted : Type 0 where
  pub kind : CallKind
  pub outcome : ScriptedOutcome

pub record HeldInsert : Type 0 where
  pub input : InsertEventInput
  pub executed : Bool

-- `hold_next` is the `execute` of the hold that waits; `initial_collision` is the option given.
-- `scripted` holds the queues of all kinds, each in its order.
pub record MockCalendar : Type 0 where
  pub events : List StoredEvent
  pub calls : List CalendarCall
  pub held : List HeldInsert
  pub scripted : List Scripted
  pub collision : CollisionMode
  pub initial_collision : CollisionMode
  pub list_failure : Option ScriptedOutcome
  pub hold_next : Option Bool
  pub etag_seq : ℕ

unfoldable pub create_mock_calendar : CollisionMode → MockCalendar
create_mock_calendar mode = record {
  events = [];
  calls = [];
  held = [];
  scripted = [];
  collision = mode;
  initial_collision = mode;
  list_failure = none;
  hold_next = none;
  etag_seq = 0;
}

abbrev pub etag_text : ℕ → Key
etag_text n = 2 * n

abbrev pub has_event_id : Key → StoredEvent → Bool
has_event_id id stored = stored.event.id == id

abbrev pub is_cancelled : StoredEvent → Bool
is_cancelled stored = elim stored.event.status [ event_cancelled ↦ true | event_confirmed ↦ false ]

abbrev pub unless_cancelled : Option StoredEvent → Option StoredEvent
unless_cancelled none = none
unless_cancelled (some stored) = if is_cancelled stored then none else some stored

-- The event that `get` finds: one under the id that is not cancelled.
abbrev pub live_in : List StoredEvent → Key → Option StoredEvent
live_in events id = unless_cancelled (find (has_event_id id) events)

abbrev pub already_exists_error : Thrown
already_exists_error = thrown_calendar_error class_already_exists (some 409)

abbrev pub precondition_error : Thrown
precondition_error = thrown_calendar_error class_precondition_failed (some 412)

abbrev pub raised : ScriptedOutcome → Thrown
raised (scripted_throw thrown) = thrown
raised (scripted_status status) = elim (classify_status status) [
  | class_already_exists ↦ already_exists_error
  | class_precondition_failed ↦ precondition_error
  | other ↦ thrown_calendar_error other (some status)
]

abbrev pub scripted_absence : ScriptedOutcome → Bool
scripted_absence (scripted_status status) = is_absence_status (thrown_status status)
scripted_absence (scripted_throw thrown) = false

-- `queue.shift()` of the queue of a kind.
unfoldable pub take_scripted : CallKind → List Scripted → Option ScriptedOutcome × List Scripted
take_scripted kind [] = (none, [])
take_scripted kind (s ∷ rest) =
    let (outcome, left) = take_scripted kind rest in
    if same_call s.kind kind then (some s.outcome, rest) else (outcome, s ∷ left)

-- A call is recorded, and takes the next scripted outcome of its kind.
unfoldable pub begin_call : CalendarCall → MockCalendar → Option ScriptedOutcome × MockCalendar
unfolding take_scripted
begin_call call c =
    let (outcome, left) = take_scripted call.kind c.scripted in
    (outcome, record c { calls = c.calls ++ call ∷ []; scripted = left })

unfoldable pub inserted_event : InsertEventInput → Key → StoredEvent
inserted_event input etag = record {
  calendar_id = input.calendar_id;
  event = record {
    id = input.id;
    status = event_confirmed;
    start = input.start;
    end = input.end;
    etag = etag;
    summary = some input.summary;
    transparency = none;
    attendees = input.attendees;
    marlo_booking_id = some input.booking_id;
    marlo_attempt_id = some input.attempt_id;
    marlo_op_gen = none;
  };
}

-- `events.set(stored.id, stored)`, with the next etag.
unfoldable pub store_event : StoredEvent → MockCalendar → MockCalendar
store_event stored c = record c {
  events = put (has_event_id stored.event.id) stored c.events;
  etag_seq = c.etag_seq + 1;
}

abbrev pub next_etag : MockCalendar → Key
next_etag c = etag_text (c.etag_seq + 1)

abbrev pub is_duplicate : CollisionMode → Bool
is_duplicate duplicate = true
is_duplicate land = false

-- Whether an insert under an id is refused: a live event has it, or a deleted one that may not be
-- used again.
abbrev pub collides : MockCalendar → Key → Bool
collides c id = elim (find (has_event_id id) c.events) [
  | none ↦ false
  | some existing ↦ if is_cancelled existing then is_duplicate c.collision else true
]

unfoldable pub apply_insert :
    InsertEventInput → MockCalendar → Result Thrown CalendarEvent × MockCalendar
unfolding inserted_event store_event
apply_insert input c =
    if collides c input.id
    then (err already_exists_error, c)
    else let stored = inserted_event input (next_etag c) in (ok stored.event, store_event stored c)

abbrev pub is_applied : {A : Type 0} → Result Thrown A → Bool
is_applied (ok a) = true
is_applied (err e) = false

-- `try { applyInsert(record.input); record.executed = true } catch { record.executed = false }`
unfoldable pub execute_insert : InsertEventInput → MockCalendar → Bool × MockCalendar
unfolding apply_insert
execute_insert input c = let (result, c') = apply_insert input c in (is_applied result, c')

abbrev pub has_attempt : Key → HeldInsert → Bool
has_attempt attempt_id held = held.input.attempt_id == attempt_id

abbrev pub hold_insert : InsertEventInput → Bool → MockCalendar → MockCalendar
hold_insert input executed c = record c {
  held = put (has_attempt input.attempt_id) (record { input = input; executed = executed }) c.held;
  hold_next = none;
}

-- A held insert: its caller sees a timeout, and it is executed now or later.
unfoldable pub capture_insert : InsertEventInput → Bool → MockCalendar → MockCalendar
unfolding execute_insert
capture_insert input execute c =
    if execute
    then (let (done, c') = execute_insert input c in hold_insert input done c')
    else hold_insert input false c

abbrev pub insert_record : InsertEventInput → CalendarCall
insert_record input = record {
  kind = insert_call;
  calendar_id = input.calendar_id;
  event_id = some input.id;
  attempt_id = some input.attempt_id;
  if_match = none;
}

abbrev pub record_call : CalendarCall → MockCalendar → MockCalendar
record_call call c = record c { calls = c.calls ++ call ∷ [] }

abbrev pub bad_request : Thrown
bad_request = thrown_calendar_error class_definite (some 400)

abbrev pub insert_or_hold :
    Option Bool → InsertEventInput → MockCalendar → Result Thrown CalendarEvent × MockCalendar
insert_or_hold none input c = apply_insert input c
insert_or_hold (some execute) input c =
    (err (thrown_calendar_error class_ambiguous none), capture_insert input execute c)

-- `valid` is the test of an id's letters, `isValidCalendarEventId`.
unfoldable pub mock_insert :
    (Key → Bool) → InsertEventInput → MockCalendar → Result Thrown CalendarEvent × MockCalendar
unfolding begin_call apply_insert capture_insert
mock_insert valid input c =
    if not (valid input.id) || (input.attempt_id == 0)
    then (err bad_request, record_call (insert_record input) c)
    else let (failure, c') = begin_call (insert_record input) c in
      elim failure [
        | some outcome ↦ (err (raised outcome), c')
        | none ↦ insert_or_hold c'.hold_next input c'
      ]

abbrev pub id_record : CallKind → Key → Key → Option Key → CalendarCall
id_record kind calendar_id event_id if_match = record {
  kind = kind;
  calendar_id = calendar_id;
  event_id = some event_id;
  attempt_id = none;
  if_match = if_match;
}

abbrev pub event_of : Option StoredEvent → Option CalendarEvent
event_of none = none
event_of (some stored) = some stored.event

unfoldable pub mock_get :
    GetEventInput → MockCalendar → Result Thrown (Option CalendarEvent) × MockCalendar
unfolding begin_call
mock_get input c =
    let (failure, c') = begin_call (id_record get_call input.calendar_id input.event_id none) c in
    elim failure [
      | some outcome ↦
          if scripted_absence outcome then (ok none, c') else (err (raised outcome), c')
      | none ↦ (ok (event_of (live_in c'.events input.event_id)), c')
    ]

abbrev pub patched_attendees : List CalendarAttendee → List CalendarAttendee → List CalendarAttendee
patched_attendees [] found = found
patched_attendees (a ∷ rest) found = a ∷ rest

-- An absent `attendees` is the empty list: no caller patches to an empty one.
unfoldable pub patched_event : PatchEventInput → StoredEvent → Key → StoredEvent
patched_event input found etag = record found {
  event = record found.event {
    start = or_else input.start found.event.start;
    end = or_else input.end found.event.end;
    summary = either_of input.summary found.event.summary;
    attendees = patched_attendees input.attendees found.event.attendees;
    marlo_op_gen = either_of input.op_gen found.event.marlo_op_gen;
    etag = etag;
  };
}

abbrev pub patch_live :
    PatchEventInput → MockCalendar → Option StoredEvent → Result Thrown CalendarEvent × MockCalendar
patch_live input c none = (err (thrown_calendar_error class_definite (some 404)), c)
patch_live input c (some found) =
    if not (found.event.etag == input.if_match)
    then (err precondition_error, c)
    else let updated = patched_event input found (next_etag c) in
      (ok updated.event, store_event updated c)

unfoldable pub mock_patch :
    PatchEventInput → MockCalendar → Result Thrown CalendarEvent × MockCalendar
unfolding begin_call patched_event store_event
mock_patch input c =
    let (failure, c') =
      begin_call (id_record patch_call input.calendar_id input.event_id (some input.if_match)) c in
    elim failure [
      | some outcome ↦ (err (raised outcome), c')
      | none ↦ patch_live input c' (live_in c'.events input.event_id)
    ]

unfoldable pub removed_event : StoredEvent → Key → StoredEvent
removed_event found etag = record found {
  event = record found.event { status = event_cancelled; etag = etag };
}

abbrev pub remove_stored :
    DeleteEventInput
    → MockCalendar
    → Option StoredEvent
    → Result Thrown DeleteOutcome × MockCalendar
remove_stored input c none = (ok event_absent, c)
remove_stored input c (some found) =
    if not (found.event.etag == input.if_match)
    then (err precondition_error, c)
    else (ok event_deleted, store_event (removed_event found (next_etag c)) c)

unfoldable pub mock_remove :
    DeleteEventInput → MockCalendar → Result Thrown DeleteOutcome × MockCalendar
unfolding begin_call removed_event store_event
mock_remove input c =
    let (failure, c') =
      begin_call (id_record delete_call input.calendar_id input.event_id (some input.if_match)) c in
    elim failure [
      | some outcome ↦
          if scripted_absence outcome then (ok event_absent, c') else (err (raised outcome), c')
      | none ↦ remove_stored input c' (live_in c'.events input.event_id)
    ]

abbrev pub listed : ListEventsInput → StoredEvent → Bool
listed input stored =
    (stored.calendar_id == input.calendar_id)
    && not (is_cancelled stored)
    && ltb stored.event.start input.time_max
    && ltb input.time_min stored.event.end

abbrev pub list_record : ListEventsInput → CalendarCall
list_record input = record {
  kind = list_call;
  calendar_id = input.calendar_id;
  event_id = none;
  attempt_id = none;
  if_match = none;
}

-- A failed listing is an unknown availability, never a short list.
unfoldable pub mock_list :
    ListEventsInput → MockCalendar → Result Thrown (List CalendarEvent) × MockCalendar
unfolding begin_call
mock_list input c = elim c.list_failure [
  | some outcome ↦ (err thrown_other, record_call (list_record input) c)
  | none ↦
      let (failure, c') = begin_call (list_record input) c in
      elim failure [
        | some outcome ↦ (err thrown_other, c')
        | none ↦ (ok (map (λ (s : StoredEvent). s.event) (filter (listed input) c'.events)), c')
      ]
]

unfoldable pub mock_client : (Key → Bool) → CalendarClient MockCalendar
unfolding mock_insert mock_get mock_patch mock_remove mock_list
mock_client valid = record {
  insert = mock_insert valid;
  get = mock_get;
  patch = mock_patch;
  remove = mock_remove;
  list = mock_list;
}
