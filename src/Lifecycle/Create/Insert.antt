-- ===== src/Lifecycle/Create/Insert.antt =====
-- lib/booking/create.ts: the insert of the calendar event and the classification of its answer.
use marlo_scheduling.Prelude.{
  Bool, true, false, not, Option, none, some, List, [], ◌∷◌, if◌then◌else◌,
}
use marlo_scheduling.Rows.{Key, BookingRow, PendingOp, CalendarState, insert, applied, rejected}
use marlo_scheduling.Google.{
  CalendarEvent, InsertEventInput, SendUpdates, all_guests, no_guests, CalendarAttendee,
  class_definite, class_already_exists,
}
use marlo_scheduling.Lifecycle.Errors.{Failure, lifecycle, outcome_unknown, booking_outcome_unknown}
use marlo_scheduling.Lifecycle.World.{
  Step, Context, pure, throw, throw_error, catch, ◌>>=◌, ◌>>◌, now, new_uuid, on_calendar,
}
use marlo_scheduling.Lifecycle.Ops.{
  Observation, present, absent, new_attempt, write_attempt, finish_attempt, observe_id,
  verify_insert, classify_failure,
}
use marlo_scheduling.Lifecycle.Create.Types.{CreateBookingRequest}

abbrev pub attendees_of : SendUpdates → CreateBookingRequest → List CalendarAttendee
attendees_of all_guests request =
    record { email = request.invitee_email; display_name = some request.invitee_name } ∷ []
attendees_of no_guests request = []

-- Whether the insert of this worker took effect.
pub data InsertOutcome : Type 0 where
  insert_applied insert_definite insert_ambiguous : InsertOutcome

-- What the calendar step hands to T2.
pub record InsertResult : Type 0 where
  pub outcome : InsertOutcome
  pub etag : Option Key
  pub insert_etag : Option Key

abbrev pub is_applied_outcome : InsertOutcome → Bool
is_applied_outcome insert_applied = true
is_applied_outcome _ = false

abbrev pub state_after : InsertOutcome → CalendarState
state_after insert_applied = CalendarState.created
state_after _ = CalendarState.failed

abbrev pub is_outcome_unknown : Failure → Bool
is_outcome_unknown (lifecycle e) = elim e.code [ booking_outcome_unknown ↦ true | _ ↦ false ]
is_outcome_unknown _ = false

abbrev pub unknown_result : InsertResult
unknown_result = record { outcome = insert_ambiguous; etag = none; insert_etag = none }

abbrev pub retry_observed : Observation → InsertResult
retry_observed (present event) = record {
  outcome = insert_applied;
  etag = some event.etag;
  insert_etag = some event.etag;
}
retry_observed _ = unknown_result

module _ {C : Type 0} where
  unfoldable pub create_insert_body :
      Context C → CreateBookingRequest → BookingRow → Key → Key → InsertEventInput
  create_insert_body ctx request row event_id attempt_id = record {
    calendar_id = ctx.calendar_id;
    id = event_id;
    start = row.start;
    end = row.end;
    summary = request.event_name;
    booking_id = row.id;
    attempt_id = attempt_id;
    attendees = attendees_of ctx.send_updates request;
    send_updates = ctx.send_updates;
  }

  abbrev pub insert_event :
      Context C → CreateBookingRequest → BookingRow → Key → Key → Step C CalendarEvent
  insert_event ctx request row event_id attempt_id =
      on_calendar (ctx.client.insert (create_insert_body ctx request row event_id attempt_id))

  abbrev pub retry_verified : BookingRow → PendingOp → Key → Observation → Step C InsertResult
  retry_verified row op attempt_id (present event) = do
    finish_attempt row op attempt_id applied
    pure
        (record { outcome = insert_applied; etag = some event.etag; insert_etag = some event.etag })
  retry_verified row op attempt_id _ = pure unknown_result

  abbrev pub retry_failure :
      Context C → BookingRow → PendingOp → Key → Key → Failure → Step C InsertResult
  retry_failure ctx row op event_id attempt_id e = elim (classify_failure e) [
    | class_definite ↦ do
      finish_attempt row op attempt_id rejected
      pure (record { outcome = insert_definite; etag = none; insert_etag = none })
    | class_already_exists ↦ do
      finish_attempt row op attempt_id rejected
      observed ← observe_id ctx row.id event_id
      pure (retry_observed observed)
    | _ ↦ pure unknown_result
  ]

  unfoldable pub retry_insert :
      Context C → CreateBookingRequest → BookingRow → PendingOp → Key → Step C InsertResult
  unfolding create_insert_body
  retry_insert ctx request row op event_id = do
    attempt_id ← new_uuid ctx
    time ← now
    written ← write_attempt row op (new_attempt attempt_id insert event_id op.gen time none)
    if not written
        then pure unknown_result
        else catch
            (do
              event ← insert_event ctx request row event_id attempt_id
              verified ← verify_insert ctx row.id event_id event
              retry_verified row op attempt_id verified)
            (retry_failure ctx row op event_id attempt_id)

  abbrev pub unless_ambiguous : InsertResult → Step C InsertResult
  unless_ambiguous result = elim result.outcome [
    | insert_ambiguous ↦ throw_error outcome_unknown
    | _ ↦ pure result
  ]

  abbrev pub insert_verified : BookingRow → PendingOp → Key → Observation → Step C InsertResult
  insert_verified row op attempt_id (present event) = do
    finish_attempt row op attempt_id applied
    pure
        (record { outcome = insert_applied; etag = some event.etag; insert_etag = some event.etag })
  insert_verified row op attempt_id _ = throw_error outcome_unknown

  abbrev pub duplicate_observed :
      Context C
      → CreateBookingRequest
      → BookingRow
      → PendingOp
      → Key
      → Observation
      → Step C InsertResult
  duplicate_observed ctx request row op event_id (present event) =
      pure (record { outcome = insert_applied; etag = some event.etag; insert_etag = none })
  duplicate_observed ctx request row op event_id absent =
      retry_insert ctx request row op event_id >>= unless_ambiguous
  duplicate_observed ctx request row op event_id _ = throw_error outcome_unknown

  abbrev pub insert_classified :
      Context C
      → CreateBookingRequest
      → BookingRow
      → PendingOp
      → Key
      → Key
      → Failure
      → Step C InsertResult
  insert_classified ctx request row op event_id attempt_id e = elim (classify_failure e) [
    | class_already_exists ↦ do
      finish_attempt row op attempt_id rejected
      observed ← observe_id ctx row.id event_id
      duplicate_observed ctx request row op event_id observed
    | class_definite ↦ do
      finish_attempt row op attempt_id rejected
      pure (record { outcome = insert_definite; etag = none; insert_etag = none })
    | _ ↦ throw_error outcome_unknown
  ]

  abbrev pub insert_failure :
      Context C
      → CreateBookingRequest
      → BookingRow
      → PendingOp
      → Key
      → Key
      → Failure
      → Step C InsertResult
  insert_failure ctx request row op event_id attempt_id e =
      if is_outcome_unknown e
      then throw e
      else insert_classified ctx request row op event_id attempt_id e

  -- The `try` of `runCreateCalendarStep` and its handler.
  unfoldable pub insert_step :
      Context C → CreateBookingRequest → BookingRow → PendingOp → Key → Key → Step C InsertResult
  unfolding create_insert_body retry_insert
  insert_step ctx request row op event_id attempt_id =
      catch
        (do
          event ← insert_event ctx request row event_id attempt_id
          verified ← verify_insert ctx row.id event_id event
          insert_verified row op attempt_id verified)
        (insert_failure ctx request row op event_id attempt_id)
