-- ===== src/Lifecycle/Reschedule.antt =====
-- lib/booking/reschedule.ts: the reschedule of a booking. The test hooks are left out.
mod Types
pub mod T1
pub mod T2
pub mod Calendar
pub mod Answer
pub mod Stale
unfoldable pub use Types.*
use marlo_scheduling.Prelude.{
  ℕ, zero, suc, Bool, true, false, Option, none, some, List, if◌then◌else◌,
}
use marlo_scheduling.Rows.{Key, BookingRow, PendingOp, Interval, retry_after_seconds}
use marlo_scheduling.Lifecycle.Errors.{
  Failure, no_availability, error_of, in_progress, booking_changed, slot_unavailable,
  availability_unknown,
}
use marlo_scheduling.Lifecycle.World.{
  Step, Context, pure, throw, throw_error, catch, ◌>>=◌, ◌>>◌, now, new_uuid, with_host_lock,
}
use marlo_scheduling.Lifecycle.Ops.{returning}
use marlo_scheduling.Lifecycle.Envelope.{booking_body}
use marlo_scheduling.Lifecycle.Busy.{external_busy, busy_overlaps}
use marlo_scheduling.Lifecycle.Reap.{read_row}
use marlo_scheduling.Lifecycle.Cancel.Calendar.{reap_if_eligible}
use T1.{
  Unready, row_gone, row_changed, op_busy, op_raced, op_taken, Inspected, inspected_clear,
  inspected_unready, RescheduleT1, t1_unready, t1_unavailable, t1_started, RescheduleIds,
  inspect_tx, reschedule_t1_tx,
}
use T2.{complete_reschedule}
use Calendar.{CalendarMove, event_moved, move_superseded, move_event}
use Answer.{superseded_reschedule, after_move}
use Stale.{reconcile_stale}

module _ {C : Type 0} where
  abbrev pub complete_move :
      RescheduleDeps C → BookingRow → PendingOp → CalendarMove → Step C RescheduleOutcome
  complete_move deps row op move_superseded = superseded_reschedule deps row op none
  complete_move deps row op (event_moved applied) = do
    completed ← complete_reschedule deps.ctx row op applied.resulting (some applied)
    after_move deps row op applied completed

  unfoldable pub run_reschedule_calendar_step :
      RescheduleDeps C → RescheduleRequest → BookingRow → PendingOp → Step C RescheduleOutcome
  unfolding move_event superseded_reschedule complete_reschedule after_move
  run_reschedule_calendar_step deps request row op =
      move_event deps.ctx request row op >>= complete_move deps row op

  abbrev pub recovered_or_again :
      Step C RescheduleOutcome → Option RescheduleOutcome → Step C RescheduleOutcome
  recovered_or_again again none = again
  recovered_or_again again (some outcome) = pure outcome

  -- The answers of a row that is not ready; `again` is the one re-entry.
  unfoldable pub answer_unready :
      RescheduleDeps C
      → RescheduleRequest
      → Step C RescheduleOutcome
      → Unready
      → Step C RescheduleOutcome
  unfolding reconcile_stale retry_after_seconds
  answer_unready deps request again row_gone = throw_error (error_of booking_changed)
  answer_unready deps request again (row_changed row) =
      throw_error
        (record (error_of booking_changed) { booking = some (booking_body row deps.meta) })
  answer_unready deps request again op_raced = throw_error (in_progress 1)
  answer_unready deps request again (op_busy op) = do
    time ← now
    throw_error (in_progress (retry_after_seconds op time))
  answer_unready deps request again (op_taken row op) =
      reconcile_stale deps request row op >>= recovered_or_again again

  unfoldable pub after_reschedule_t1 :
      RescheduleDeps C
      → RescheduleRequest
      → Step C RescheduleOutcome
      → RescheduleT1
      → Step C RescheduleOutcome
  unfolding answer_unready run_reschedule_calendar_step
  after_reschedule_t1 deps request again (t1_unready unready) =
      answer_unready deps request again unready
  after_reschedule_t1 deps request again t1_unavailable = throw_error (error_of slot_unavailable)
  after_reschedule_t1 deps request again (t1_started row op) =
      run_reschedule_calendar_step deps request row op

  -- R0: an unknown availability is answered as such, any other failure is handed on.
  abbrev pub unknown_destination : Failure → Step C (List Interval)
  unknown_destination no_availability = throw_error (error_of availability_unknown)
  unknown_destination e = throw e

  -- A clear row: R0, and T1 under freshly drawn ids.
  unfoldable pub start_move :
      RescheduleDeps C
      → RescheduleRequest
      → Step C RescheduleOutcome
      → BookingRow
      → Step C RescheduleOutcome
  unfolding external_busy busy_overlaps reschedule_t1_tx after_reschedule_t1 interval_for
  start_move deps request again existing = do
    external ←
        catch (external_busy deps.ctx (interval_for request) (some existing.id)) unknown_destination
    if busy_overlaps (interval_for request) external
        then throw_error (error_of slot_unavailable)
        else (do
          op_id ← new_uuid deps.ctx
          fallback ← new_uuid deps.ctx
          let ids : RescheduleIds = record { op_id = op_id; fallback_event_id = fallback }
          t1 ← with_host_lock existing.host_id λ time. returning (reschedule_t1_tx request ids time)
          after_reschedule_t1 deps request again t1)

  unfoldable pub after_inspection :
      RescheduleDeps C
      → RescheduleRequest
      → Step C RescheduleOutcome
      → BookingRow
      → Inspected
      → Step C RescheduleOutcome
  unfolding answer_unready start_move
  after_inspection deps request again existing (inspected_unready unready) =
      answer_unready deps request again unready
  after_inspection deps request again existing inspected_clear =
      start_move deps request again existing

  unfoldable pub reschedule_once :
      RescheduleDeps C → RescheduleRequest → Step C RescheduleOutcome → Step C RescheduleOutcome
  unfolding read_row inspect_tx after_inspection
  reschedule_once deps request again = do
    found ← read_row request.booking_id
    elim found [
      | none ↦ throw_error (error_of booking_changed)
      | some existing ↦ do
        reap_if_eligible deps.ctx existing
        inspected ← with_host_lock existing.host_id λ time. returning (inspect_tx request time)
        after_inspection deps request again existing inspected
    ]

  -- The passes that are left: pass 0 has two, pass 2 has none.
  unfoldable pub reschedule_pass :
      ℕ → RescheduleDeps C → RescheduleRequest → Step C RescheduleOutcome
  unfolding reschedule_once
  reschedule_pass zero deps request = throw_error (in_progress 1)
  reschedule_pass (suc left) deps request =
      reschedule_once deps request (reschedule_pass left deps request)

  unfoldable pub reschedule_durable_booking :
      RescheduleDeps C → RescheduleRequest → Step C RescheduleOutcome
  unfolding reschedule_pass
  reschedule_durable_booking deps request = reschedule_pass 2 deps request
