-- ===== src/Lifecycle/Repair.antt =====
-- lib/booking/repair.ts: the repair of a failed calendar event as an owned operation.
pub mod T2
use marlo_scheduling.Prelude.{
  ℕ, Bool, true, false, not, Option, none, some, List, [], ◌∷◌, if◌then◌else◌, or_else, is_none,
  ◌||◌,
}
use marlo_scheduling.Rows.{
  Key, BookingRow, PendingOp, OpKind, insert, applied, rejected, is_confirmed, is_stale_op,
  retry_after_seconds,
}
use marlo_scheduling.Google.{
  CalendarEvent, SendUpdates, all_guests, no_guests, CalendarAttendee, class_definite,
  class_already_exists,
}
use marlo_scheduling.Lifecycle.Errors.{
  Failure, error_of, in_progress, outcome_unknown, repair_failed,
}
use marlo_scheduling.Lifecycle.World.{
  Step, Context, pure, throw, throw_error, catch, ◌>>=◌, ◌>>◌, now, new_uuid, with_host_lock,
  on_calendar,
}
use marlo_scheduling.Lifecycle.Ops.{
  Observation, present, absent, refused_read, ambiguous_read, AcquiredOp, taken, busy, gone,
  acquire_stale_op, new_attempt, write_attempt, finish_attempt, observe_id, verify_insert,
  classify_failure, returning,
}
use marlo_scheduling.Lifecycle.Settle.{settled_ok, settled_reconciled, settled_failed, Settled}
use marlo_scheduling.Lifecycle.Superseded.{
  SupersededDecision, from_repair, respond_success, respond_in_progress, respond_superseded,
  reconcile_superseded,
}
use marlo_scheduling.Lifecycle.Reap.{read_row}
use marlo_scheduling.Lifecycle.Create.Insert.{is_outcome_unknown}
use marlo_scheduling.Lifecycle.Reschedule.{OwnInsert, own_ref}
use marlo_scheduling.Lifecycle.Reschedule.Calendar.{own_insert_of}
use marlo_scheduling.Lifecycle.Reschedule.Answer.{cleanup_insert}
use T2.{
  RepairT2, repair_ok, repair_not_written, repair_superseded, begin_repair_tx, repair_t2,
  clear_repair, is_failed,
}

pub record RepairRequest : Type 0 where
  pub event_name : Key
  pub invitee_name : Key
  pub invitee_email : Key

-- The calendar state that the repair left behind: created, or failed.
pub record RepairOutcome : Type 0 where
  pub created : Bool
  pub row : BookingRow

-- The calendar step: the etag of the event, with this worker's own insert; or the op was cleared.
pub data Repaired : Type 0 where
  repaired : Option Key → Option OwnInsert → Repaired
  repair_cleared : Repaired

abbrev pub repair_attendees : SendUpdates → RepairRequest → List CalendarAttendee
repair_attendees all_guests request =
    record { email = request.invitee_email; display_name = some request.invitee_name } ∷ []
repair_attendees no_guests request = []

module _ {C : Type 0} where
  unfoldable pub insert_repaired :
      Context C → RepairRequest → BookingRow → Key → Key → Step C CalendarEvent
  insert_repaired ctx request row event_id attempt_id = on_calendar (
      ctx.client.insert (record {
        calendar_id = ctx.calendar_id;
        id = event_id;
        start = row.start;
        end = row.end;
        summary = request.event_name;
        booking_id = row.id;
        attempt_id = attempt_id;
        attendees = repair_attendees ctx.send_updates request;
        send_updates = ctx.send_updates;
      }))

  abbrev pub repair_verified : BookingRow → PendingOp → Key → Key → Observation → Step C Repaired
  repair_verified row op event_id attempt_id (present event) = do
    finish_attempt row op attempt_id applied
    pure (repaired (some event.etag) (some (own_insert_of event_id attempt_id event)))
  repair_verified row op event_id attempt_id _ = throw_error outcome_unknown

  abbrev pub repair_observed_again : BookingRow → PendingOp → Observation → Step C Repaired
  repair_observed_again row op (present event) = pure (repaired (some event.etag) none)
  repair_observed_again row op absent = do clear_repair row op; pure repair_cleared
  repair_observed_again row op _ = throw_error outcome_unknown

  abbrev pub repair_classified :
      Context C → BookingRow → PendingOp → Key → Key → Failure → Step C Repaired
  repair_classified ctx row op event_id attempt_id e = elim (classify_failure e) [
    | class_already_exists ↦ do
      finish_attempt row op attempt_id rejected
      again ← observe_id ctx row.id event_id
      repair_observed_again row op again
    | class_definite ↦ do
      finish_attempt row op attempt_id rejected
      clear_repair row op
      pure repair_cleared
    | _ ↦ throw_error outcome_unknown
  ]

  abbrev pub repair_failure :
      Context C → BookingRow → PendingOp → Key → Key → Failure → Step C Repaired
  repair_failure ctx row op event_id attempt_id e =
      if is_outcome_unknown e then throw e else repair_classified ctx row op event_id attempt_id e

  unfoldable pub repair_insert :
      Context C → RepairRequest → BookingRow → PendingOp → Key → Step C Repaired
  unfolding insert_repaired write_attempt finish_attempt observe_id verify_insert clear_repair
  repair_insert ctx request row op event_id = do
    attempt_id ← new_uuid ctx
    time ← now
    written ← write_attempt row op (new_attempt attempt_id insert event_id op.gen time none)
    if not written
        then throw_error (in_progress 1)
        else catch
            (do
              event ← insert_repaired ctx request row event_id attempt_id
              verified ← verify_insert ctx row.id event_id event
              repair_verified row op event_id attempt_id verified)
            (repair_failure ctx row op event_id attempt_id)

  -- An event that is there is adopted without an insert.
  abbrev pub repair_observed :
      Context C → RepairRequest → BookingRow → PendingOp → Key → Observation → Step C Repaired
  repair_observed ctx request row op event_id (present event) =
      pure (repaired (some event.etag) none)
  repair_observed ctx request row op event_id absent = repair_insert ctx request row op event_id
  repair_observed ctx request row op event_id _ = throw_error outcome_unknown

  unfoldable pub reload_outcome : BookingRow → Bool → Step C RepairOutcome
  unfolding read_row
  reload_outcome row created = do
    found ← read_row row.id
    pure (record { created = created; row = or_else found row })

  abbrev pub superseded_repair_answer : SupersededDecision → Step C RepairOutcome
  superseded_repair_answer decision = elim decision.response [
    | respond_in_progress ↦ throw_error (in_progress (or_else decision.retry_after 1))
    | respond_superseded ↦ throw_error (error_of repair_failed)
    | respond_success ↦ elim decision.row [
      | none ↦ throw_error (error_of repair_failed)
      | some row ↦ pure (record { created = true; row = row })
    ]
  ]

  unfoldable pub superseded_repair :
      Context C → BookingRow → PendingOp → Option OwnInsert → Step C RepairOutcome
  unfolding reconcile_superseded
  superseded_repair ctx row op own_insert = do
    decision ←
        reconcile_superseded
          (record {
            kind = from_repair;
            op = op;
            booking_id = row.id;
            own_insert = own_ref own_insert;
          })
          row.host_id
    cleanup_insert ctx row own_insert decision.eligible
    superseded_repair_answer decision

  unfoldable pub after_repair_t2 :
      Context C
      → BookingRow
      → PendingOp
      → Option OwnInsert
      → Settled RepairT2
      → Step C RepairOutcome
  unfolding superseded_repair reload_outcome
  after_repair_t2 ctx row op own_insert (settled_reconciled fresh) =
      pure (record { created = true; row = fresh })
  after_repair_t2 ctx row op own_insert (settled_failed e) = throw_error (error_of repair_failed)
  after_repair_t2 ctx row op own_insert (settled_ok result) = elim result [
    | repair_superseded ↦ superseded_repair ctx row op own_insert
    | repair_not_written ↦ throw_error (error_of repair_failed)
    | repair_ok ↦ reload_outcome row true
  ]

  abbrev pub complete_repair : Context C → BookingRow → PendingOp → Repaired → Step C RepairOutcome
  complete_repair ctx row op repair_cleared = reload_outcome row false
  complete_repair ctx row op (repaired etag own_insert) =
      repair_t2 row op etag >>= after_repair_t2 ctx row op own_insert

  -- `op.eventId as string`: an op of a repair has its event id.
  unfoldable pub run_repair :
      Context C → BookingRow → PendingOp → RepairRequest → Step C RepairOutcome
  unfolding observe_id repair_insert repair_t2 after_repair_t2 reload_outcome
  run_repair ctx row op request = do
    let event_id = or_else op.event_id 0
    observed ← observe_id ctx row.id event_id
    result ← repair_observed ctx request row op event_id observed
    complete_repair ctx row op result

  abbrev pub repair_if : Step C RepairOutcome → Step C (Option RepairOutcome)
  repair_if m = do outcome ← m; pure (some outcome)

  unfoldable pub resume_repair :
      Context C → BookingRow → PendingOp → RepairRequest → Step C (Option RepairOutcome)
  unfolding is_stale_op retry_after_seconds acquire_stale_op run_repair
  resume_repair ctx row op request = do
    time ← now
    if not (is_stale_op op time)
        then throw_error (in_progress (retry_after_seconds op time))
        else (do
          acquired ← acquire_stale_op row (OpKind.calendar_repair ∷ [])
          elim acquired [
            | busy seconds ↦ throw_error (in_progress seconds)
            | gone ↦ throw_error (in_progress 1)
            | taken op' row' ↦ repair_if (run_repair ctx row' op' request)
          ])

  unfoldable pub begin_repair :
      Context C → BookingRow → Key → RepairRequest → Step C (Option RepairOutcome)
  unfolding begin_repair_tx read_row run_repair
  begin_repair ctx row event_id request = do
    op_id ← new_uuid ctx
    started ←
        with_host_lock row.host_id λ time. returning (begin_repair_tx row.id op_id event_id time)
    elim started [
      | none ↦ pure none
      | some op ↦ do
        found ← read_row row.id
        repair_if (run_repair ctx (or_else found row) op request)
    ]

  -- A row without an open repair: it is begun on a failed event of a confirmed row without an op.
  abbrev pub repair_fresh : Context C → BookingRow → RepairRequest → Step C (Option RepairOutcome)
  repair_fresh ctx row request =
      if not (is_failed row.calendar_state) || not (is_none row.pending_op)
      then pure none
      else elim row.google_event_id [
        | none ↦ pure none
        | some event_id ↦ begin_repair ctx row event_id request
      ]

  -- `none` when the row needs no repair.
  unfoldable pub repair_calendar :
      Context C → BookingRow → RepairRequest → Step C (Option RepairOutcome)
  unfolding resume_repair begin_repair
  repair_calendar ctx row request =
      if not (is_confirmed row.status) then pure none else elim row.pending_op [
        | none ↦ repair_fresh ctx row request
        | some op ↦ elim op.kind [
          | OpKind.calendar_repair ↦ resume_repair ctx row op request
          | _ ↦ repair_fresh ctx row request
        ]
      ]
