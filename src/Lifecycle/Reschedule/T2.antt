-- ===== src/Lifecycle/Reschedule/T2.antt =====
-- lib/booking/reschedule.ts: the completing transaction of a reschedule, T2, its compensation after
-- a definite failure, and the abandoning transaction T2'.
use marlo_scheduling.Prelude.{
  ◌+◌, Bool, true, false, not, ◌&&◌, Option, none, some, List, [], if◌then◌else◌, ltb, or_else,
  either_of, is_key,
}
use marlo_scheduling.Rows.{
  Key, BookingRow, PendingOp, UnresolvedInsert, CalendarState, LatestAction, patch, delete, applied,
}
use marlo_scheduling.Store.{MemoryTx, RowPatch, select_for_update, update}
use marlo_scheduling.Google.{CalendarEvent, no_guests}
use marlo_scheduling.Lifecycle.Errors.{error_of, reschedule_failed}
use marlo_scheduling.Lifecycle.World.{
  Step, Context, pure, throw_error, catch, ◌>>=◌, ◌>>◌, now, new_uuid, with_host_lock, on_calendar,
}
use marlo_scheduling.Lifecycle.Ops.{
  returning, new_attempt, write_attempt, finish_attempt, fail_attempt,
}
use marlo_scheduling.Lifecycle.Settle.{
  settle_completion, settled_ok, settled_reconciled, settled_failed,
}
use marlo_scheduling.Lifecycle.Reap.{remove_event}
use marlo_scheduling.Lifecycle.Create.T2.{Completed, empty_patch}
use marlo_scheduling.Lifecycle.Cancel.T2.{owned, retained_of, completed_as, released_patch}
use marlo_scheduling.Lifecycle.Reschedule.Types.{OwnInsert}

-- The event that the reschedule left the booking with, and its etag.
pub record Resulting : Type 0 where
  pub event_id : Option Key
  pub etag : Option Key

unfoldable pub move_patch : PendingOp → BookingRow → Resulting → List UnresolvedInsert → RowPatch
move_patch op fresh resulting retained = record empty_patch {
  start = op.new_start;
  end = op.new_end;
  rescheduled_from = some (some fresh.start);
  google_event_id = resulting.event_id;
  google_event_etag = some resulting.etag;
  calendar_state = some CalendarState.created;
  bump_revision = true;
  latest_action = some LatestAction.reschedule;
  pending_op = some none;
  reserved_start = some none;
  reserved_end = some none;
  unresolved_inserts = some retained;
}

-- The snapshot that T2 returns. An op of a reschedule has its new start and its new end.
unfoldable pub moved_row : PendingOp → BookingRow → Resulting → List UnresolvedInsert → BookingRow
moved_row op fresh resulting retained = record fresh {
  start = or_else op.new_start fresh.start;
  end = or_else op.new_end fresh.end;
  rescheduled_from = some fresh.start;
  google_event_id = either_of resulting.event_id fresh.google_event_id;
  google_event_etag = resulting.etag;
  calendar_state = CalendarState.created;
  revision = fresh.revision + 1;
  latest_action = some LatestAction.reschedule;
  pending_op = none;
  reserved_start = none;
  reserved_end = none;
  unresolved_inserts = retained;
}

unfoldable pub complete_reschedule_tx :
    BookingRow → PendingOp → Resulting → MemoryTx → Completed × MemoryTx
unfolding move_patch moved_row update
complete_reschedule_tx row op resulting tx = elim (select_for_update tx row.id) [
  | none ↦ (completed_as true row, tx)
  | some fresh ↦ elim fresh.pending_op [
    | none ↦ (completed_as true fresh, tx)
    | some current ↦
        let retained = retained_of fresh current in
        let (done, tx') = update (owned row fresh op (move_patch op fresh resulting retained)) tx in
        (
          if done
              then completed_as false (moved_row op fresh resulting retained)
              else completed_as true fresh,
          tx',
        )
  ]
]

-- Whether a row read after a lost COMMIT shows that the move was committed.
unfoldable pub did_move : BookingRow → PendingOp → Option BookingRow → Bool
did_move row op none = false
did_move row op (some fresh) = is_key op.new_start fresh.start && ltb row.revision fresh.revision

unfoldable pub abandon_reschedule_tx : BookingRow → PendingOp → MemoryTx → Bool × MemoryTx
unfolding released_patch update
abandon_reschedule_tx row op tx = elim (select_for_update tx row.id) [
  | none ↦ (false, tx)
  | some fresh ↦ elim fresh.pending_op [
    | none ↦ (false, tx)
    | some current ↦ update (owned row fresh op (released_patch (retained_of fresh current))) tx
  ]
]

-- What this worker changed at Google.
pub record Applied : Type 0 where
  pub resulting : Resulting
  pub own_insert : Option OwnInsert

module _ {C : Type 0} where
  -- `failReschedule` calls nothing else.
  unfoldable pub abandon_reschedule : BookingRow → PendingOp → Step C Bool
  unfolding abandon_reschedule_tx
  abandon_reschedule row op =
      with_host_lock row.host_id λ time. returning (abandon_reschedule_tx row op)

  -- The delete of the fallback event that this worker inserted.
  unfoldable pub compensate_insert :
      Context C → BookingRow → PendingOp → OwnInsert → Step C (Unit {0})
  unfolding write_attempt finish_attempt fail_attempt remove_event
  compensate_insert ctx row op own = do
    attempt_id ← new_uuid ctx
    time ← now
    written ←
        write_attempt row op
          (new_attempt attempt_id delete own.event_id op.gen time (some own.etag))
    if not written
        then pure tt
        else catch
            (do
              remove_event ctx own.event_id own.etag
              finish_attempt row op attempt_id applied
              pure tt)
            (λ e. do fail_attempt row op attempt_id e; pure tt)

  abbrev pub patch_back : Context C → BookingRow → Key → Key → Step C CalendarEvent
  patch_back ctx row event_id etag = on_calendar (
      ctx.client.patch (record {
        calendar_id = ctx.calendar_id;
        event_id = event_id;
        start = some row.start;
        end = some row.end;
        summary = none;
        attendees = [];
        send_updates = no_guests;
        if_match = etag;
        op_gen = none;
      }))

  -- The patch of the event back to the booking's old time.
  unfoldable pub compensate_patch :
      Context C → BookingRow → PendingOp → Key → Key → Step C (Unit {0})
  unfolding write_attempt finish_attempt fail_attempt
  compensate_patch ctx row op event_id etag = do
    attempt_id ← new_uuid ctx
    time ← now
    written ← write_attempt row op (new_attempt attempt_id patch event_id op.gen time (some etag))
    if not written
        then pure tt
        else catch
            (do patch_back ctx row event_id etag; finish_attempt row op attempt_id applied; pure tt)
            (λ e. do fail_attempt row op attempt_id e; pure tt)

  abbrev pub compensate_resulting :
      Context C → BookingRow → PendingOp → Option Key → Option Key → Step C (Unit {0})
  compensate_resulting ctx row op (some event_id) (some etag) =
      if is_key op.old_event_id event_id then compensate_patch ctx row op event_id etag else pure tt
  compensate_resulting ctx row op _ _ = pure tt

  unfoldable pub compensate_reschedule :
      Context C → BookingRow → PendingOp → Applied → Step C (Unit {0})
  unfolding compensate_insert compensate_patch
  compensate_reschedule ctx row op change = elim change.own_insert [
    | some own ↦ compensate_insert ctx row op own
    | none ↦ compensate_resulting ctx row op change.resulting.event_id change.resulting.etag
  ]

  abbrev pub compensate_if : Context C → BookingRow → PendingOp → Option Applied → Step C (Unit {0})
  compensate_if ctx row op none = pure tt
  compensate_if ctx row op (some change) = compensate_reschedule ctx row op change

  unfoldable pub complete_reschedule :
      Context C → BookingRow → PendingOp → Resulting → Option Applied → Step C Completed
  unfolding complete_reschedule_tx did_move compensate_reschedule
  complete_reschedule ctx row op resulting change = do
    settled ←
        settle_completion row
          (with_host_lock row.host_id λ time. returning (complete_reschedule_tx row op resulting))
          (did_move row op)
    elim settled [
      | settled_ok completed ↦ pure completed
      | settled_reconciled fresh ↦ pure (completed_as false fresh)
      | settled_failed e ↦ do
        compensate_if ctx row op change
        throw_error (error_of reschedule_failed)
    ]
