-- ===== src/Lifecycle/Reschedule/Answer.antt =====
-- lib/booking/reschedule.ts: the answers of a reschedule, also of one whose operation was taken
-- over.
use marlo_scheduling.Prelude.{Bool, true, false, Option, none, some, if◌then◌else◌, or_else}
use marlo_scheduling.Rows.{BookingRow, PendingOp}
use marlo_scheduling.Lifecycle.Errors.{in_progress, superseded_by}
use marlo_scheduling.Lifecycle.World.{Step, Context, pure, throw_error, ◌>>=◌, ◌>>◌}
use marlo_scheduling.Lifecycle.Envelope.{build_envelope, booking_body, on_lifecycle}
use marlo_scheduling.Lifecycle.Superseded.{
  SupersededDecision, from_reschedule, respond_success, respond_in_progress, respond_superseded,
  reconcile_superseded, cleanup_own_event,
}
use marlo_scheduling.Lifecycle.Reap.{read_row}
use marlo_scheduling.Lifecycle.Create.T2.{Completed}
use marlo_scheduling.Lifecycle.Reschedule.Types.{
  RescheduleDeps, RescheduleOutcome, OwnInsert, own_ref,
}
use marlo_scheduling.Lifecycle.Reschedule.T2.{Applied}

module _ {C : Type 0} where
  unfoldable pub rescheduled_outcome :
      RescheduleDeps C → BookingRow → Bool → Step C RescheduleOutcome
  unfolding build_envelope
  rescheduled_outcome deps row recovered = do
    envelope ← build_envelope row deps.meta on_lifecycle
    pure (record { envelope = envelope; row = row; recovered = recovered })

  abbrev pub superseded_reschedule_answer :
      RescheduleDeps C → SupersededDecision → Step C RescheduleOutcome
  superseded_reschedule_answer deps decision = elim decision.response [
    | respond_in_progress ↦ throw_error (in_progress (or_else decision.retry_after 1))
    | respond_superseded ↦ elim decision.row [
      | none ↦ throw_error (superseded_by none)
      | some row ↦ throw_error (superseded_by (some (booking_body row deps.meta)))
    ]
    | respond_success ↦ elim decision.row [
      | none ↦ throw_error (superseded_by none)
      | some row ↦ rescheduled_outcome deps row true
    ]
  ]

  -- The superseded worker deletes its own insert if the decision makes it eligible.
  abbrev pub cleanup_insert : Context C → BookingRow → Option OwnInsert → Bool → Step C (Unit {0})
  cleanup_insert ctx row none eligible = pure tt
  cleanup_insert ctx row (some own) eligible =
      if eligible
      then (do cleanup_own_event ctx row.id own.event_id own.attempt_id own.etag; pure tt)
      else pure tt

  unfoldable pub superseded_reschedule :
      RescheduleDeps C → BookingRow → PendingOp → Option OwnInsert → Step C RescheduleOutcome
  unfolding reconcile_superseded cleanup_own_event rescheduled_outcome
  superseded_reschedule deps row op own_insert = do
    decision ←
        reconcile_superseded
          (record {
            kind = from_reschedule (or_else op.new_start 0);
            op = op;
            booking_id = row.id;
            own_insert = own_ref own_insert;
          })
          row.host_id
    cleanup_insert deps.ctx row own_insert decision.eligible
    superseded_reschedule_answer deps decision

  -- What follows T2 of a worker's own reschedule.
  unfoldable pub after_move :
      RescheduleDeps C → BookingRow → PendingOp → Applied → Completed → Step C RescheduleOutcome
  unfolding superseded_reschedule read_row rescheduled_outcome
  after_move deps row op change completed =
      if completed.superseded then superseded_reschedule deps row op change.own_insert else (do
        deps.notify completed.row row.start
        found ← read_row row.id
        rescheduled_outcome deps (or_else found completed.row) false)
