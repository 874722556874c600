-- ===== src/Booking/Completes/Finish.antt =====
-- lib/booking/cancel.ts: T2 of a cancel in a quiet world, and the answer after it.
use marlo_scheduling.Prelude.{◌+◌, ◌≡◌, ◌∙◌, refl, ap, true, false, some}
use marlo_scheduling.Rows.{BookingRow, is_confirmed, PendingOp, CalendarState, LatestAction}
use marlo_scheduling.Store.{MemoryBookingStore, ok, get_by_id, owns, on_row, apply_patch}
use marlo_scheduling.Lifecycle.World.{World, on_store, take_turn, ◌>>=◌}
use marlo_scheduling.Lifecycle.Settle.{settle_completion}
use marlo_scheduling.Notify.{delivery_summary_for}
use marlo_scheduling.Lifecycle.Envelope.{booking_body, build_envelope}
use marlo_scheduling.Lifecycle.Cancel.{CancelDeps, CancelOutcome}
use marlo_scheduling.Lifecycle.Cancel.Calendar.{finish_cancel, answer_cancelled, cancelled_outcome}
use marlo_scheduling.Lifecycle.Cancel.T2.{
  cancel_t2, run_cancel_t2, cancel_patch, retained_of, completed_as, reloaded,
}
use marlo_scheduling.Booking.Owned.{on_row-stored}
use marlo_scheduling.Booking.Cancelled.{cancelled_row, cancelled_after, apply_patch-cancelled_row}
use marlo_scheduling.Booking.Replay.{bind-ok}
use marlo_scheduling.Booking.Completes.Quiet.{quiet_with, locked_once, read_once, catch_ok, then_ok}

module _ {C : Type 0} (row : BookingRow) (op : PendingOp) (w : World C) (fresh : BookingRow)
    (current : PendingOp) (h : get_by_id w.store row.id ≡ some fresh)
    (e : fresh.pending_op ≡ some current) (c : is_confirmed fresh.status ≡ true)
    (o : owns fresh op.op_id (some op.gen) ≡ true) where
  abbrev pub cancelled_store : MemoryBookingStore
  cancelled_store = on_row row.id (apply_patch (cancel_patch (retained_of fresh current))) w.store

  pub cancelled_kept : get_by_id cancelled_store row.id ≡ some (cancelled_row fresh current)
  cancelled_kept =
      on_row-stored row.id (cancel_patch (retained_of fresh current)) w.store fresh h
      ∙ ap some (apply_patch-cancelled_row fresh current)

  run_cancel_t2_once :
      run_cancel_t2 row op (quiet_with w w.store)
      ≡ (ok (completed_as false (cancelled_row fresh current)), quiet_with w cancelled_store)
  unfolding run_cancel_t2
  run_cancel_t2_once =
      bind-ok _ (reloaded row) _ _ (completed_as false fresh)
        (locked_once row.host_id _ w _ _ (cancelled_after row op w.store fresh h current e c o))
      ∙ bind-ok _ _ _ _ _ (read_once w cancelled_store row.id _ cancelled_kept)

  cancel_t2_once :
      cancel_t2 row op (quiet_with w w.store)
      ≡ (ok (completed_as false (cancelled_row fresh current)), quiet_with w cancelled_store)
  unfolding cancel_t2 settle_completion
  cancel_t2_once = bind-ok _ _ _ _ _ (catch_ok _ _ _ _ _ (bind-ok _ _ _ _ _ run_cancel_t2_once))

  -- The answer of a cancel that completed: the cancelled booking with the summary of its deliveries.
  abbrev pub completed_cancel : CancelDeps C → CancelOutcome
  completed_cancel deps = record {
    envelope = record {
      booking = booking_body (cancelled_row fresh current) deps.meta;
      email =
          delivery_summary_for cancelled_store fresh.id (fresh.revision + 1)
            (some LatestAction.cancel);
      calendar = CalendarState.deleted;
    };
    row = cancelled_row fresh current;
  }

  cancelled_outcome_once :
      (deps : CancelDeps C)
      → cancelled_outcome deps (cancelled_row fresh current) (quiet_with w cancelled_store)
        ≡ (ok (completed_cancel deps), quiet_with w cancelled_store)
  unfolding cancelled_outcome build_envelope on_store take_turn ◌>>=◌
  cancelled_outcome_once deps = refl

  answer_cancelled_once :
      (deps : CancelDeps C)
      → ((r : BookingRow) (v : World C) → deps.notify r v ≡ (ok tt, v))
      → answer_cancelled deps row op
          (completed_as false (cancelled_row fresh current))
          (quiet_with w cancelled_store)
        ≡ (ok (completed_cancel deps), quiet_with w cancelled_store)
  unfolding answer_cancelled
  answer_cancelled_once deps quiet =
      then_ok _ _ _ _ _ (quiet (cancelled_row fresh current) (quiet_with w cancelled_store))
      ∙ bind-ok _ _ _ _ _ (read_once w cancelled_store row.id _ cancelled_kept)
      ∙ cancelled_outcome_once deps

  pub finish_cancel_once :
      (deps : CancelDeps C)
      → ((r : BookingRow) (v : World C) → deps.notify r v ≡ (ok tt, v))
      → finish_cancel deps row op true (quiet_with w w.store)
        ≡ (ok (completed_cancel deps), quiet_with w cancelled_store)
  unfolding finish_cancel
  finish_cancel_once deps quiet =
      bind-ok _ (answer_cancelled deps row op) _ _ _ cancel_t2_once
      ∙ answer_cancelled_once deps quiet
