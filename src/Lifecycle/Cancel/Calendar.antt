-- ===== src/Lifecycle/Cancel/Calendar.antt =====
-- lib/booking/cancel.ts: the calendar step of a cancel, and the answer of a superseded one.
use marlo_scheduling.Prelude.{
  Bool, true, false, not, none, some, List, [], ◌∷◌, if◌then◌else◌, or_else,
}
use marlo_scheduling.Rows.{
  Key, BookingRow, PendingOp, delete, applied, rejected, has_eligible_reap, reap_max_per_request,
}
use marlo_scheduling.Google.{
  CalendarEvent, DeleteOutcome, class_definite, class_precondition_failed,
}
use marlo_scheduling.Lifecycle.Errors.{
  Failure, error_of, in_progress, outcome_unknown, superseded_by, calendar_delete_failed,
}
use marlo_scheduling.Lifecycle.World.{
  Step, Context, pure, throw_error, catch, ◌>>=◌, ◌>>◌, now, new_uuid, on_calendar,
}
use marlo_scheduling.Lifecycle.Ops.{
  Observation, present, absent, new_attempt, write_attempt, finish_attempt, observe_id,
  classify_failure, is_absence_failure,
}
use marlo_scheduling.Lifecycle.Envelope.{build_envelope, booking_body, on_lifecycle}
use marlo_scheduling.Lifecycle.Superseded.{
  SupersededDecision, from_cancel, respond_success, respond_in_progress, respond_superseded,
  reconcile_superseded, retire_step,
}
use marlo_scheduling.Lifecycle.Reap.{read_row, reap_retired_ids, remove_event}
use marlo_scheduling.Lifecycle.Create.T2.{Completed}
use marlo_scheduling.Lifecycle.Cancel.Types.{CancelDeps, CancelOutcome, inherited_intended_ids}
use marlo_scheduling.Lifecycle.Cancel.T2.{cancel_t2, cancel_t2_prime}

module _ {C : Type 0} where
  unfoldable pub cancelled_outcome : CancelDeps C → BookingRow → Step C CancelOutcome
  unfolding build_envelope
  cancelled_outcome deps row = do
    envelope ← build_envelope row deps.meta on_lifecycle
    pure (record { envelope = envelope; row = row })

  abbrev pub superseded_cancel_answer : CancelDeps C → SupersededDecision → Step C CancelOutcome
  superseded_cancel_answer deps decision = elim decision.response [
    | respond_in_progress ↦ throw_error (in_progress (or_else decision.retry_after 1))
    | respond_superseded ↦ elim decision.row [
      | none ↦ throw_error (superseded_by none)
      | some row ↦ throw_error (superseded_by (some (booking_body row deps.meta)))
    ]
    | respond_success ↦ elim decision.row [
      | none ↦ throw_error (superseded_by none)
      | some row ↦ cancelled_outcome deps row
    ]
  ]

  unfoldable pub superseded_cancel : CancelDeps C → BookingRow → PendingOp → Step C CancelOutcome
  unfolding reconcile_superseded cancelled_outcome
  superseded_cancel deps row op = do
    decision ←
        reconcile_superseded
          (record { kind = from_cancel; op = op; booking_id = row.id; own_insert = none })
          row.host_id
    superseded_cancel_answer deps decision

  -- `if (observed.event.marloAttemptId !== undefined) await store.retireAttempt(...)`
  unfoldable pub retire_attributed : Key → CalendarEvent → Step C (Unit {0})
  unfolding retire_step
  retire_attributed booking_id event = elim event.marlo_attempt_id [
    | none ↦ pure tt
    | some attempt_id ↦ retire_step booking_id attempt_id
  ]

  -- T2', and the answer of a definite refusal of a delete.
  abbrev pub refuse_delete : {A : Type 0} → BookingRow → PendingOp → Step C A
  refuse_delete row op = do cancel_t2_prime row op; throw_error (error_of calendar_delete_failed)

  abbrev pub inherited_failure : BookingRow → PendingOp → Failure → Step C (Unit {0})
  inherited_failure row op e = if is_absence_failure e then pure tt else elim (classify_failure e) [
    | class_definite ↦ refuse_delete row op
    | _ ↦ throw_error outcome_unknown
  ]

  abbrev pub remove_observed :
      CancelDeps C → BookingRow → PendingOp → Key → Observation → Step C (Unit {0})
  remove_observed deps row op event_id (present event) =
      catch (do remove_event deps.ctx event_id event.etag; retire_attributed row.id event)
        (inherited_failure row op)
  remove_observed deps row op event_id absent = pure tt
  remove_observed deps row op event_id _ = throw_error outcome_unknown

  -- The loop over the inherited intended ids.
  unfoldable pub remove_inherited :
      CancelDeps C → BookingRow → PendingOp → List Key → Step C (Unit {0})
  unfolding observe_id remove_event retire_attributed cancel_t2_prime
  remove_inherited deps row op [] = pure tt
  remove_inherited deps row op (event_id ∷ rest) = do
    observed ← observe_id deps.ctx row.id event_id
    remove_observed deps row op event_id observed
    remove_inherited deps row op rest

  unfoldable pub remove_live : Context C → Key → Key → Step C DeleteOutcome
  remove_live ctx event_id etag = on_calendar (
      ctx.client.remove (record {
        calendar_id = ctx.calendar_id;
        event_id = event_id;
        if_match = etag;
        send_updates = ctx.send_updates;
      }))

  -- A 412 and a definite refusal both reject the attempt.
  abbrev pub live_failure : BookingRow → PendingOp → Key → Failure → Step C Bool
  live_failure row op attempt_id e = elim (classify_failure e) [
    | class_precondition_failed ↦ do finish_attempt row op attempt_id rejected; refuse_delete row op
    | class_definite ↦ do finish_attempt row op attempt_id rejected; refuse_delete row op
    | _ ↦ throw_error outcome_unknown
  ]

  -- The delete of the booking's own event; the answer is whether the worker still owned its op.
  unfoldable pub delete_live_event :
      CancelDeps C → BookingRow → PendingOp → Key → CalendarEvent → Step C Bool
  unfolding remove_live retire_attributed cancel_t2_prime
  delete_live_event deps row op event_id event = do
    attempt_id ← new_uuid deps.ctx
    time ← now
    written ←
        write_attempt row op (new_attempt attempt_id delete event_id op.gen time (some event.etag))
    if not written
        then pure false
        else catch
            (do
              remove_live deps.ctx event_id event.etag
              finish_attempt row op attempt_id applied
              retire_attributed row.id event
              pure true)
            (live_failure row op attempt_id)

  abbrev pub delete_observed :
      CancelDeps C → BookingRow → PendingOp → Key → Observation → Step C Bool
  delete_observed deps row op event_id (present event) =
      delete_live_event deps row op event_id event
  delete_observed deps row op event_id absent = pure true
  delete_observed deps row op event_id _ = throw_error outcome_unknown

  unfoldable pub delete_live : CancelDeps C → BookingRow → PendingOp → Step C Bool
  unfolding observe_id delete_live_event
  delete_live deps row op = elim op.old_event_id [
    | none ↦ pure true
    | some event_id ↦ do
      observed ← observe_id deps.ctx row.id event_id
      delete_observed deps row op event_id observed
  ]

  unfoldable pub answer_cancelled :
      CancelDeps C → BookingRow → PendingOp → Completed → Step C CancelOutcome
  unfolding superseded_cancel read_row cancelled_outcome
  answer_cancelled deps row op completed =
      if completed.superseded then superseded_cancel deps row op else (do
        deps.notify completed.row
        found ← read_row row.id
        cancelled_outcome deps (or_else found completed.row))

  unfoldable pub finish_cancel : CancelDeps C → BookingRow → PendingOp → Bool → Step C CancelOutcome
  unfolding superseded_cancel cancel_t2 answer_cancelled
  finish_cancel deps row op owned =
      if not owned
      then superseded_cancel deps row op
      else cancel_t2 row op >>= answer_cancelled deps row op

  abbrev pub reap_if_eligible : Context C → BookingRow → Step C (Unit {0})
  reap_if_eligible ctx row =
      if has_eligible_reap row
      then (do reap_retired_ids ctx row.id reap_max_per_request; pure tt)
      else pure tt

  unfoldable pub run_cancel_calendar_step :
      CancelDeps C → BookingRow → PendingOp → Step C CancelOutcome
  unfolding remove_inherited delete_live finish_cancel reap_retired_ids
  run_cancel_calendar_step deps row op = do
    reap_if_eligible deps.ctx row
    remove_inherited deps row op (inherited_intended_ids op row)
    owned ← delete_live deps row op
    finish_cancel deps row op owned
