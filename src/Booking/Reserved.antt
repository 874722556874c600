-- ===== src/Booking/Reserved.antt =====
-- lib/booking/reschedule.ts: the reservation of the destination in T1.
use marlo_scheduling.Prelude.{
  ℕ, ◌≡◌, ◌≢◌, sym, true, false, not, ◌||◌, some, arith, is_key, any-In, In, Option-cases,
  Bool-cases, inl, inr,
}
use marlo_scheduling.Rows.{BookingRow, PendingOp, Interval, holds_invariants, overlaps, is_stale_op}
use marlo_scheduling.Store.{
  MemoryBookingStore, locked, get_by_id, apply_patch, select_for_update, OccupancyQuery,
}
use marlo_scheduling.Store.Occupancy.{Occupies, occupancy_sync-exact}
use marlo_scheduling.Lifecycle.Errors.{Failure}
use marlo_scheduling.Lifecycle.Ops.{returning}
use marlo_scheduling.Lifecycle.Busy.{busy_overlaps}
use marlo_scheduling.Lifecycle.Cancel.T1.{is_cancel, is_other_state}
use marlo_scheduling.Lifecycle.Reschedule.{RescheduleRequest, interval_for}
use marlo_scheduling.Lifecycle.Reschedule.T1.{
  RescheduleIds, reserve_patch, reserve_update, reschedule_op, is_destination_busy, reserve_tx,
  inspect_open, reschedule_t1_tx,
}
use marlo_scheduling.Booking.Invariant.{Inv, Clear, Apart}
use marlo_scheduling.Booking.Writes.{HoldsCf}
use marlo_scheduling.Booking.Transactions.{opened, TxInv, TxKeeps, untouched, take_over_op-TxKeeps}
use marlo_scheduling.Booking.Owned.{update-TxInv, get_by_id_self}

abbrev destination_query : BookingRow → Interval → OccupancyQuery
destination_query row window = record {
  host_id = row.host_id;
  window = window;
  exclude_booking_id = some row.id;
}

-- No other row of the host occupies an interval that overlaps a destination found free.
destination-Occupies :
    (row : BookingRow) (window : Interval) (s : MemoryBookingStore) (x : BookingRow) (j : Interval)
    → is_destination_busy row window (opened s) ≡ false
    → In x s.rows
    → Apart row x
    → row.host_id ≡ x.host_id
    → Occupies x j
    → overlaps j window ≡ true
    → ⊥
unfolding is_destination_busy busy_overlaps
destination-Occupies row window s x j free m a e o t =
    let differ : x.id ≢ row.id = λ p. a.ids_differ (sym p) in
    let other : is_key (some row.id) x.id ≡ false = ground arith in
    let listed =
      (occupancy_sync-exact s (destination_query row window) j).1 (x, m, sym e, other, o, t) in
    let busy = any-In (λ i. overlaps i window) j _ listed t in cc

reserved-overlaps :
    (window i j : Interval)
    → some window.start ≡ some i.start
    → some window.end ≡ some i.end
    → overlaps i j ≡ true
    → overlaps j window ≡ true
unfolding overlaps
reserved-overlaps window i j p q t = ground arith

pub reserve-Apart :
    (row : BookingRow) (window : Interval) (op : PendingOp) (s : MemoryBookingStore)
    (x : BookingRow)
    → is_destination_busy row window (opened s) ≡ false
    → In x s.rows
    → Apart row x
    → Apart (apply_patch (reserve_patch op window) row) x
unfolding Clear Occupies apply_patch reserve_patch
reserve-Apart row window op s x free m a = record {
  ids_differ = a.ids_differ;
  clear = λ e i j oi oj. elim oi [
    | inl own ↦ a.clear e i j (inl own) oj
    | inr r ↦ elim (Bool-cases (overlaps i j)) [
      | inr t ↦ t
      | inl t ↦
          elim (destination-Occupies row window s x j free m a e oj
            (reserved-overlaps window i j r.0 r.1 t)) [ ]
    ]
  ];
}

reserve-HoldsCf :
    (row : BookingRow) (window : Interval) (op : PendingOp)
    → HoldsCf row
    → HoldsCf (apply_patch (reserve_patch op window) row)
unfolding holds_invariants apply_patch reserve_patch
reserve-HoldsCf row window op h = ground arith

reserve_tx-TxInv :
    (row : BookingRow) (window : Interval) (ids : RescheduleIds) (time : ℕ) (s : MemoryBookingStore)
    → get_by_id s row.id ≡ some row
    → Inv s
    → TxInv (reserve_tx row window ids time (opened s)).1
unfolding reserve_tx
reserve_tx-TxInv row window ids time s h v =
    elim (Bool-cases (is_destination_busy row window (opened s))) [
      | inl b ↦ rw b (untouched s v)
      | inr b ↦
          let op = reschedule_op row window ids time in
          let kept =
            update-TxInv (reserve_update row op window) s row h
              (λ x m. reserve-Apart row window op s x b m) (reserve-HoldsCf row window op) v in
          rw b (simp h kept)
    ]

inspect_open-TxKeeps :
    (row : BookingRow) (op : PendingOp) (time : ℕ) → TxKeeps (inspect_open row op time)
unfolding inspect_open
inspect_open-TxKeeps row op time s v =
    elim (Bool-cases (is_cancel op.kind || not (is_stale_op op time))) [
      | inl b ↦ rw b (untouched s v)
      | inr b ↦ rw b (take_over_op-TxKeeps row op time s v)
    ]

reschedule_t1_tx-TxKeeps :
    (request : RescheduleRequest) (ids : RescheduleIds) (time : ℕ)
    → TxKeeps (reschedule_t1_tx request ids time)
unfolding reschedule_t1_tx select_for_update get_by_id
reschedule_t1_tx-TxKeeps request ids time s v =
    elim (Option-cases (get_by_id s request.booking_id)) [
      | inl h ↦ simp h (untouched s v)
      | inr (row, h) ↦ elim (Bool-cases (is_other_state row request.expected_revision)) [
        | inl b ↦ simp (h, b) (untouched s v)
        | inr b ↦ elim (Option-cases row.pending_op) [
          | inl e ↦
              simp (h, b, e)
                (reserve_tx-TxInv row (interval_for request) ids time s
                  (get_by_id_self s request.booking_id row h) v)
          | inr (op, e) ↦ simp (h, b, e) (inspect_open-TxKeeps row op time s v)
        ]
      ]
    ]

-- T1 of a reschedule keeps the rows of the store apart and CF-1 to CF-3 of each, on every branch:
-- the destination that it reserves overlaps no interval that another row of the host occupies.
pub reschedule_t1_tx-Inv :
    (request : RescheduleRequest) (ids : RescheduleIds) (time : ℕ) (s : MemoryBookingStore)
    → Inv s
    → Inv (locked {E = Failure} (returning (reschedule_t1_tx request ids time)) s).1
unfolding locked
reschedule_t1_tx-Inv request ids time s v =
    (reschedule_t1_tx-TxKeeps request ids time s v).committed
