-- ===== src/Lifecycle/Reschedule/T1.antt =====
-- lib/booking/reschedule.ts: the inspection of the open operation, and the transaction T1 that
-- reserves the destination.
use marlo_scheduling.Prelude.{ℕ, Bool, true, not, ◌||◌, Option, none, some, if◌then◌else◌}
use marlo_scheduling.Rows.{Key, BookingRow, PendingOp, Interval, OpKind, is_stale_op}
use marlo_scheduling.Store.{
  MemoryTx, RowPatch, OwnedUpdate, select_for_update, update, occupancy_sync,
}
use marlo_scheduling.Lifecycle.Ops.{begin_op, no_fields, take_over_op}
use marlo_scheduling.Lifecycle.Busy.{busy_overlaps}
use marlo_scheduling.Lifecycle.Create.T2.{empty_patch}
use marlo_scheduling.Lifecycle.Cancel.T1.{is_cancel, is_other_state}
use marlo_scheduling.Lifecycle.Reschedule.Types.{RescheduleRequest, interval_for}

-- Why a row is not ready for a new op: it is gone or was changed, its op is held by another worker
-- or was lost to one, or its stale op was taken over and has to be reconciled.
pub data Unready : Type 0 where
  row_gone : Unready
  row_changed : BookingRow → Unready
  op_busy : PendingOp → Unready
  op_raced : Unready
  op_taken : BookingRow → PendingOp → Unready

pub data Inspected : Type 0 where
  inspected_clear : Inspected
  inspected_unready : Unready → Inspected

pub data RescheduleT1 : Type 0 where
  t1_unready : Unready → RescheduleT1
  t1_unavailable : RescheduleT1
  t1_started : BookingRow → PendingOp → RescheduleT1

abbrev pub taken_or_raced : BookingRow → Option PendingOp → Unready
taken_or_raced row none = op_raced
taken_or_raced row (some op) = op_taken row op

-- An open op is taken over if it is stale, unless it is a cancel: only a cancel resumes a cancel.
unfoldable pub inspect_open : BookingRow → PendingOp → ℕ → MemoryTx → Unready × MemoryTx
unfolding take_over_op is_stale_op
inspect_open row op time tx =
    if is_cancel op.kind || not (is_stale_op op time)
    then (op_busy op, tx)
    else let (taken, tx') = take_over_op row op time tx in (taken_or_raced row taken, tx')

unfoldable pub inspect_tx : RescheduleRequest → ℕ → MemoryTx → Inspected × MemoryTx
unfolding inspect_open
inspect_tx request time tx = elim (select_for_update tx request.booking_id) [
  | none ↦ (inspected_unready row_gone, tx)
  | some row ↦
      if is_other_state row request.expected_revision
      then (inspected_unready (row_changed row), tx)
      else elim row.pending_op [
        | none ↦ (inspected_clear, tx)
        | some op ↦
            let (unready, tx') = inspect_open row op time tx in (inspected_unready unready, tx')
      ]
]

-- The ids drawn for T1.
pub record RescheduleIds : Type 0 where
  pub op_id : Key
  pub fallback_event_id : Key

unfoldable pub reschedule_op : BookingRow → Interval → RescheduleIds → ℕ → PendingOp
unfolding begin_op
reschedule_op row window ids time = begin_op OpKind.reschedule time ids.op_id (record no_fields {
  new_start = some window.start;
  new_end = some window.end;
  old_event_id = row.google_event_id;
  fallback_event_id = some ids.fallback_event_id;
  etag = row.google_event_etag;
})

unfoldable pub reserve_patch : PendingOp → Interval → RowPatch
reserve_patch op window = record empty_patch {
  pending_op = some (some op);
  reserved_start = some (some window.start);
  reserved_end = some (some window.end);
}

abbrev pub reserve_update : BookingRow → PendingOp → Interval → OwnedUpdate
reserve_update row op window = record {
  id = row.id;
  expected_revision = row.revision;
  require_confirmed = true;
  op_id = none;
  gen = none;
  patch = reserve_patch op window;
}

-- The locked re-check of the occupancy, without this booking's own.
unfoldable pub is_destination_busy : BookingRow → Interval → MemoryTx → Bool
unfolding busy_overlaps occupancy_sync
is_destination_busy row window tx = busy_overlaps window (
    occupancy_sync tx.store
      (record { host_id = row.host_id; window = window; exclude_booking_id = some row.id }))

unfoldable pub reserve_tx :
    BookingRow → Interval → RescheduleIds → ℕ → MemoryTx → RescheduleT1 × MemoryTx
unfolding is_destination_busy reschedule_op reserve_patch update
reserve_tx row window ids time tx =
    if is_destination_busy row window tx
    then (t1_unavailable, tx)
    else let op = reschedule_op row window ids time in
      let (done, tx') = update (reserve_update row op window) tx in
      (if done then t1_started row op else t1_unready (row_changed row), tx')

unfoldable pub reschedule_t1_tx :
    RescheduleRequest → RescheduleIds → ℕ → MemoryTx → RescheduleT1 × MemoryTx
unfolding inspect_open reserve_tx interval_for
reschedule_t1_tx request ids time tx = elim (select_for_update tx request.booking_id) [
  | none ↦ (t1_unready row_gone, tx)
  | some row ↦
      if is_other_state row request.expected_revision
      then (t1_unready (row_changed row), tx)
      else elim row.pending_op [
        | none ↦ reserve_tx row (interval_for request) ids time tx
        | some op ↦ let (unready, tx') = inspect_open row op time tx in (t1_unready unready, tx')
      ]
]
