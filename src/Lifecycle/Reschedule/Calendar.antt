-- ===== src/Lifecycle/Reschedule/Calendar.antt =====
-- lib/booking/reschedule.ts: the calendar step of a reschedule: the patch of the live event, its
-- reconciliation after a 412, and the insert under the fallback id.
use marlo_scheduling.Prelude.{
  not, Option, none, some, List, [], ◌∷◌, ◌==◌, if◌then◌else◌, or_else, is_key,
}
use marlo_scheduling.Rows.{Key, BookingRow, PendingOp, patch, insert, applied, rejected}
use marlo_scheduling.Google.{
  CalendarEvent, SendUpdates, all_guests, no_guests, CalendarAttendee, class_definite,
  class_precondition_failed, class_already_exists,
}
use marlo_scheduling.Lifecycle.Errors.{
  Failure, error_of, outcome_unknown, calendar_patch_failed, superseded_worker,
}
use marlo_scheduling.Lifecycle.World.{
  Step, Context, pure, throw, throw_error, catch, ◌>>=◌, ◌>>◌, now, new_uuid, on_calendar,
}
use marlo_scheduling.Lifecycle.Ops.{
  Observation, present, absent, new_attempt, write_attempt, finish_attempt, observe_id,
  verify_insert, classify_failure, is_absence_failure,
}
use marlo_scheduling.Lifecycle.Create.Insert.{is_outcome_unknown}
use marlo_scheduling.Lifecycle.Reschedule.Types.{RescheduleRequest, OwnInsert}
use marlo_scheduling.Lifecycle.Reschedule.T2.{Applied, abandon_reschedule}

-- The insert under the fallback id: inserted, refused, or issued by a worker that lost its op.
pub data Fallback : Type 0 where
  fallback_inserted : OwnInsert → Fallback
  fallback_refused : Fallback
  fallback_superseded : Fallback

-- The calendar step: what it changed, or nothing because the worker lost its op.
pub data CalendarMove : Type 0 where
  event_moved : Applied → CalendarMove
  move_superseded : CalendarMove

abbrev pub own_insert_of : Key → Key → CalendarEvent → OwnInsert
own_insert_of event_id attempt_id event = record {
  event_id = event_id;
  attempt_id = attempt_id;
  etag = event.etag;
}

abbrev pub fallback_attendees : SendUpdates → RescheduleRequest → List CalendarAttendee
fallback_attendees all_guests request =
    record { email = request.invitee_email; display_name = some request.invitee_name } ∷ []
fallback_attendees no_guests request = []

abbrev pub patched_to : Key → Key → CalendarMove
patched_to event_id etag = event_moved (record {
  resulting = record { event_id = some event_id; etag = some etag };
  own_insert = none;
})

abbrev pub moved_by_insert : OwnInsert → CalendarMove
moved_by_insert own = event_moved (record {
  resulting = record { event_id = some own.event_id; etag = some own.etag };
  own_insert = some own;
})

module _ {C : Type 0} where
  unfoldable pub insert_replacement :
      Context C → RescheduleRequest → BookingRow → PendingOp → Key → Key → Step C CalendarEvent
  insert_replacement ctx request row op event_id attempt_id = on_calendar (
      ctx.client.insert (record {
        calendar_id = ctx.calendar_id;
        id = event_id;
        start = or_else op.new_start 0;
        end = or_else op.new_end 0;
        summary = request.event_name;
        booking_id = row.id;
        attempt_id = attempt_id;
        attendees = fallback_attendees ctx.send_updates request;
        send_updates = ctx.send_updates;
      }))

  abbrev pub fallback_verified : BookingRow → PendingOp → Key → Key → Observation → Step C Fallback
  fallback_verified row op event_id attempt_id (present event) = do
    finish_attempt row op attempt_id applied
    pure (fallback_inserted (own_insert_of event_id attempt_id event))
  fallback_verified row op event_id attempt_id _ = throw_error outcome_unknown

  -- A duplicate id is decided by what is observed under it.
  abbrev pub fallback_observed : Key → Key → Observation → Step C Fallback
  fallback_observed event_id attempt_id (present event) =
      pure (fallback_inserted (own_insert_of event_id attempt_id event))
  fallback_observed event_id attempt_id absent = pure fallback_refused
  fallback_observed event_id attempt_id _ = throw_error outcome_unknown

  abbrev pub fallback_classified :
      Context C → BookingRow → PendingOp → Key → Key → Failure → Step C Fallback
  fallback_classified ctx row op event_id attempt_id e = elim (classify_failure e) [
    | class_already_exists ↦ do
      finish_attempt row op attempt_id rejected
      observed ← observe_id ctx row.id event_id
      fallback_observed event_id attempt_id observed
    | class_definite ↦ do finish_attempt row op attempt_id rejected; pure fallback_refused
    | _ ↦ throw_error outcome_unknown
  ]

  abbrev pub fallback_failure :
      Context C → BookingRow → PendingOp → Key → Key → Failure → Step C Fallback
  fallback_failure ctx row op event_id attempt_id e =
      if is_outcome_unknown e then throw e else fallback_classified ctx row op event_id attempt_id e

  -- `op.fallbackEventId as string`: T1 gives every op of a reschedule a fallback id.
  unfoldable pub insert_fallback :
      Context C → RescheduleRequest → BookingRow → PendingOp → Step C Fallback
  unfolding insert_replacement write_attempt finish_attempt observe_id verify_insert
  insert_fallback ctx request row op = do
    let event_id = or_else op.fallback_event_id 0
    attempt_id ← new_uuid ctx
    time ← now
    written ← write_attempt row op (new_attempt attempt_id insert event_id op.gen time none)
    if not written
        then pure fallback_superseded
        else catch
            (do
              event ← insert_replacement ctx request row op event_id attempt_id
              verified ← verify_insert ctx row.id event_id event
              fallback_verified row op event_id attempt_id verified)
            (fallback_failure ctx row op event_id attempt_id)

  -- `failReschedule`, and the answer of a definite refusal.
  abbrev pub refuse_patch : {A : Type 0} → BookingRow → PendingOp → Step C A
  refuse_patch row op = do abandon_reschedule row op; throw_error (error_of calendar_patch_failed)

  abbrev pub moved_or_failed : BookingRow → PendingOp → Fallback → Step C CalendarMove
  moved_or_failed row op (fallback_inserted own) = pure (moved_by_insert own)
  moved_or_failed row op fallback_refused = refuse_patch row op
  moved_or_failed row op fallback_superseded = pure move_superseded

  unfoldable pub move_by_fallback :
      Context C → RescheduleRequest → BookingRow → PendingOp → Step C CalendarMove
  unfolding insert_fallback abandon_reschedule
  move_by_fallback ctx request row op =
      insert_fallback ctx request row op >>= moved_or_failed row op

  unfoldable pub patch_to_target :
      Context C → RescheduleRequest → PendingOp → Key → Key → Step C CalendarEvent
  patch_to_target ctx request op event_id etag = on_calendar (
      ctx.client.patch (record {
        calendar_id = ctx.calendar_id;
        event_id = event_id;
        start = op.new_start;
        end = op.new_end;
        summary = some request.event_name;
        attendees = [];
        send_updates = ctx.send_updates;
        if_match = etag;
        op_gen = none;
      }))

  -- A definite refusal and a second 412 both reject the retry.
  abbrev pub retry_patch_failure : BookingRow → PendingOp → Key → Failure → Step C (Option Key)
  retry_patch_failure row op attempt_id e = elim (classify_failure e) [
    | class_definite ↦ do finish_attempt row op attempt_id rejected; pure none
    | class_precondition_failed ↦ do finish_attempt row op attempt_id rejected; pure none
    | _ ↦ throw_error outcome_unknown
  ]

  unfoldable pub retry_patch :
      Context C
      → RescheduleRequest
      → BookingRow
      → PendingOp
      → Key
      → CalendarEvent
      → Step C (Option Key)
  unfolding write_attempt finish_attempt patch_to_target
  retry_patch ctx request row op event_id event = do
    attempt_id ← new_uuid ctx
    time ← now
    written ←
        write_attempt row op (new_attempt attempt_id patch event_id op.gen time (some event.etag))
    if not written
        then throw superseded_worker
        else catch
            (do
              patched ← patch_to_target ctx request op event_id event.etag
              finish_attempt row op attempt_id applied
              pure (some patched.etag))
            (retry_patch_failure row op attempt_id)

  -- At the target: applied. At the old start: one retry. Elsewhere: a foreign change.
  abbrev pub precondition_observed :
      Context C
      → RescheduleRequest
      → BookingRow
      → PendingOp
      → Key
      → Observation
      → Step C (Option Key)
  precondition_observed ctx request row op event_id (present event) =
      if is_key op.new_start event.start
      then pure (some event.etag)
      else if event.start == row.start
      then retry_patch ctx request row op event_id event
      else pure none
  precondition_observed ctx request row op event_id absent = pure none
  precondition_observed ctx request row op event_id _ = throw_error outcome_unknown

  unfoldable pub reconcile_precondition :
      Context C → RescheduleRequest → BookingRow → PendingOp → Key → Step C (Option Key)
  unfolding observe_id retry_patch
  reconcile_precondition ctx request row op event_id = do
    observed ← observe_id ctx row.id event_id
    precondition_observed ctx request row op event_id observed

  abbrev pub reconciled_or_failed : BookingRow → PendingOp → Key → Option Key → Step C CalendarMove
  reconciled_or_failed row op event_id none = refuse_patch row op
  reconciled_or_failed row op event_id (some etag) = pure (patched_to event_id etag)

  -- Only a proven absence leads to the insert of a replacement.
  abbrev pub patch_failure :
      Context C
      → RescheduleRequest
      → BookingRow
      → PendingOp
      → Key
      → Key
      → Failure
      → Step C CalendarMove
  patch_failure ctx request row op event_id attempt_id e = elim (classify_failure e) [
    | class_precondition_failed ↦ do
      finish_attempt row op attempt_id rejected
      reconciled ← reconcile_precondition ctx request row op event_id
      reconciled_or_failed row op event_id reconciled
    | class_definite ↦ do
      finish_attempt row op attempt_id rejected
      if is_absence_failure e then move_by_fallback ctx request row op else refuse_patch row op
    | _ ↦ throw_error outcome_unknown
  ]

  unfoldable pub move_by_patch :
      Context C → RescheduleRequest → BookingRow → PendingOp → Key → Key → Step C CalendarMove
  unfolding write_attempt finish_attempt patch_to_target reconcile_precondition move_by_fallback
      abandon_reschedule
  move_by_patch ctx request row op event_id etag = do
    attempt_id ← new_uuid ctx
    time ← now
    written ← write_attempt row op (new_attempt attempt_id patch event_id op.gen time (some etag))
    if not written
        then pure move_superseded
        else catch
            (do
              patched ← patch_to_target ctx request op event_id etag
              finish_attempt row op attempt_id applied
              pure (patched_to event_id patched.etag))
            (patch_failure ctx request row op event_id attempt_id)

  -- The etag to patch with: the op's, else that of the event that is observed.
  abbrev pub observed_etag : Observation → Step C (Option Key)
  observed_etag (present event) = pure (some event.etag)
  observed_etag absent = pure none
  observed_etag _ = throw_error outcome_unknown

  unfoldable pub patch_etag : Context C → BookingRow → PendingOp → Key → Step C (Option Key)
  unfolding observe_id
  patch_etag ctx row op event_id = elim op.etag [
    | some etag ↦ pure (some etag)
    | none ↦ observe_id ctx row.id event_id >>= observed_etag
  ]

  unfoldable pub move_event :
      Context C → RescheduleRequest → BookingRow → PendingOp → Step C CalendarMove
  unfolding patch_etag move_by_patch move_by_fallback
  move_event ctx request row op = elim op.old_event_id [
    | none ↦ move_by_fallback ctx request row op
    | some event_id ↦ do
      etag ← patch_etag ctx row op event_id
      elim etag [
        | none ↦ move_by_fallback ctx request row op
        | some known ↦ move_by_patch ctx request row op event_id known
      ]
  ]
