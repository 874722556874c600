-- ===== src/Booking/Begun.antt =====
-- lib/booking/cancel.ts: what T1 of a cancel decides, from the row that stands under the lock.
mod Runs
use marlo_scheduling.Prelude.{
  ℕ, ◌+◌, ◌≡◌, ◌≢◌, ◌∙◌, ◌⊎◌, inl, inr, refl, ap, Bool, true, false, not, Option, none, some, [],
  ◌==◌, if◌then◌else◌, arith, Bool-cases, Option-cases, ==-refl, ==→≡, find-adjust_self,
}
use marlo_scheduling.Rows.{
  Key, BookingRow, PendingOp, OpKind, is_confirmed, is_stale_op, CalendarState,
}
use marlo_scheduling.Store.{
  MemoryBookingStore, MemoryTx, Result, ok, commit, locked, get_by_id, apply_patch, apply_write,
  may_update, select_for_update, on_row, on_op, patch_row, renew_op, queue, owns, has_id, update,
  take_over,
}
use marlo_scheduling.Lifecycle.Errors.{Failure}
use marlo_scheduling.Lifecycle.Ops.{returning, take_over_op}
use marlo_scheduling.Lifecycle.Cancel.{CancelRequest}
use marlo_scheduling.Lifecycle.Cancel.T1.{
  CancelT1, cancel_gone, cancel_changed, cancel_busy, cancel_resumed, cancel_started,
  cancel_inherits, cancel_t1_tx, cancel_open, cancel_start, cancel_op, inheriting_op, start_patch,
  start_update, is_cancel, is_other_state, resumed_or_raced, inherits_or_raced,
}
use marlo_scheduling.Booking.Transactions.{opened, locked-ok}
use marlo_scheduling.Booking.Owned.{get_by_id_self, on_row-stored}
use Runs.{run, run-gone, run-changed, run-started, run-busy, run-taken, renewed}

-- T1 refuses and changes nothing: no row, a row that is not confirmed or stands at another
-- revision, or one with an open op that is not stale.
abbrev pub Refuses :
    CancelRequest → ℕ → MemoryBookingStore → Result Failure CancelT1 → MemoryBookingStore → Type 0
Refuses request time s answer after =
    (after ≡ s)
    × (((get_by_id s request.booking_id ≡ none) × (answer ≡ ok cancel_gone))
        ⊎ ((row : BookingRow) × (get_by_id s request.booking_id ≡ some row)
            × (((answer ≡ ok (cancel_changed row))
                  × ((is_confirmed row.status ≡ false)
                      ⊎ (row.revision ≢ request.expected_revision)))
                ⊎ ((op : PendingOp) × (row.pending_op ≡ some op)
                    × (is_stale_op op time ≡ false)
                    × (answer ≡ ok (cancel_busy op))))))

-- T1 begins the cancel of a row without an op: exactly the op changes.
abbrev pub Starts : Key → ℕ → BookingRow → Result Failure CancelT1 → MemoryBookingStore → Type 0
Starts op_id time row answer after =
    (op : PendingOp) × (row.pending_op ≡ none)
    × (answer ≡ ok (cancel_started row op))
    × (get_by_id after row.id ≡ some (record row { pending_op = some op }))
    × (op.kind ≡ OpKind.cancel)
    × (op.op_id ≡ op_id)
    × (op.gen ≡ 1)
    × (op.started_at ≡ time)
    × (op.old_event_id ≡ row.google_event_id)
    × (op.attempts ≡ [])

-- T1 takes a stale op over: exactly its generation and its time change. A cancel is gone on with;
-- another op is inherited with its attempts and the events that it intends.
abbrev pub TakesOver : Key → ℕ → BookingRow → Result Failure CancelT1 → MemoryBookingStore → Type 0
TakesOver op_id time row answer after =
    (old op : PendingOp) × (row.pending_op ≡ some old)
    × (is_stale_op old time ≡ true)
    × (op ≡ record old { gen = old.gen + 1; started_at = time })
    × (get_by_id after row.id ≡ some (record row { pending_op = some op }))
    × (((old.kind ≡ OpKind.cancel) × (answer ≡ ok (cancel_resumed row op)))
        ⊎ ((own : PendingOp) × (old.kind ≢ OpKind.cancel)
            × (answer ≡ ok (cancel_inherits row own op old.started_at row.unfinished_create))
            × (own.kind ≡ OpKind.cancel)
            × (own.op_id ≡ op_id)
            × (own.attempts ≡ old.attempts)
            × (own.event_id ≡ old.event_id)
            × (own.fallback_event_id ≡ old.fallback_event_id)
            × (own.old_event_id ≡ row.google_event_id)))

other_state_cases :
    (row : BookingRow) (revision : ℕ)
    → is_other_state row revision ≡ true
    → (is_confirmed row.status ≡ false) ⊎ (row.revision ≢ revision)
other_state_cases row revision h = ground (arith, ==-refl revision)

requested_state :
    (row : BookingRow) (revision : ℕ)
    → is_other_state row revision ≡ false
    → (is_confirmed row.status ≡ true) × (row.revision ≡ revision)
requested_state row revision h = ground (arith, ==→≡ row.revision revision)

cancel_kind : (kind : OpKind) → is_cancel kind ≡ true → kind ≡ OpKind.cancel
cancel_kind kind h = ground arith

other_kind : (kind : OpKind) → is_cancel kind ≡ false → kind ≢ OpKind.cancel
other_kind kind h k = ground arith

module _ (request : CancelRequest) (op_id : Key) (time : ℕ) (s : MemoryBookingStore)
    (row : BookingRow) (h : get_by_id s request.booking_id ≡ some row)
    (b : is_other_state row request.expected_revision ≡ false) where
  starts :
      row.pending_op ≡ none
      → Starts op_id time row (run request op_id time s).0 (run request op_id time s).1
  unfolding cancel_op apply_patch
  starts e = rw (run-started request op_id time s row h b e) (
    cancel_op row op_id time,
    e,
    refl,
    on_row-stored row.id (start_patch (cancel_op row op_id time)) s row
        (get_by_id_self s request.booking_id row h),
    refl,
    refl,
    refl,
    refl,
    refl,
    refl,
  )

  takes_over :
      (op : PendingOp)
      → row.pending_op ≡ some op
      → is_stale_op op time ≡ true
      → TakesOver op_id time row (run request op_id time s).0 (run request op_id time s).1
  unfolding inheriting_op cancel_op
  takes_over op e g = rw (run-taken request op_id time s row h b op e g) (
    op,
    record op { gen = op.gen + 1; started_at = time },
    e,
    g,
    refl,
    renewed request op_id time s row h b op e,
    elim (Bool-cases (is_cancel op.kind)) [
      | inl k ↦ inl (cancel_kind op.kind k, simp k refl)
      | inr k ↦ inr (
        inheriting_op row op_id time (record op { gen = op.gen + 1; started_at = time }),
        other_kind op.kind k,
        simp k refl,
        refl,
        refl,
        refl,
        refl,
        refl,
        refl,
      )
    ],
  )

-- T1 of a cancel, for any store, request and time. It refuses and changes nothing if there is no
-- row, if the row is not confirmed or stands at another revision, or if it has an open op that is
-- not stale. Otherwise it begins the cancel of a row without an op, or takes the row's stale op
-- over under the next generation, and nothing else in the row changes; an op other than a cancel is
-- inherited with its attempts and the events that it intends.
pub cancel_t1_tx-begins :
    (request : CancelRequest) (op_id : Key) (time : ℕ) (s : MemoryBookingStore)
    → let (answer, after) = locked {E = Failure} (returning (cancel_t1_tx request op_id time)) s in
      Refuses request time s answer after
      ⊎ ((row : BookingRow) × (get_by_id s request.booking_id ≡ some row)
          × (is_confirmed row.status ≡ true)
          × (row.revision ≡ request.expected_revision)
          × (Starts op_id time row answer after ⊎ TakesOver op_id time row answer after))
cancel_t1_tx-begins request op_id time s = elim (Option-cases (get_by_id s request.booking_id)) [
  | inl h ↦ rw (run-gone request op_id time s h) (inl (refl, inl (h, refl)))
  | inr (row, h) ↦ elim (Bool-cases (is_other_state row request.expected_revision)) [
    | inl b ↦
        let why = other_state_cases row request.expected_revision b in
        rw (run-changed request op_id time s row h b) (inl (refl, inr (row, h, inl (refl, why))))
    | inr b ↦
        let (c, r) = requested_state row request.expected_revision b in
        elim (Option-cases row.pending_op) [
          | inl e ↦ inr (row, h, c, r, inl (starts request op_id time s row h b e))
          | inr (op, e) ↦ elim (Bool-cases (is_stale_op op time)) [
            | inl g ↦ inr (row, h, c, r, inr (takes_over request op_id time s row h b op e g))
            | inr g ↦
                rw (run-busy request op_id time s row h b op e g)
                  (inl (refl, inr (row, h, inr (op, e, g, refl))))
          ]
        ]
  ]
]
