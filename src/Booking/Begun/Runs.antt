-- ===== src/Booking/Begun/Runs.antt =====
-- lib/booking/cancel.ts: T1 of a cancel on each of its branches.
use marlo_scheduling.Prelude.{
  ℕ, ◌+◌, ◌≡◌, ◌∙◌, refl, ap, true, false, none, some, if◌then◌else◌, arith, ==-refl,
  find-adjust_self,
}
use marlo_scheduling.Rows.{Key, BookingRow, PendingOp, is_confirmed, is_stale_op}
use marlo_scheduling.Store.{
  MemoryBookingStore, MemoryTx, Result, ok, commit, locked, get_by_id, apply_patch, apply_write,
  may_update, select_for_update, on_row, on_op, patch_row, renew_op, queue, owns, has_id, update,
  take_over,
}
use marlo_scheduling.Lifecycle.Errors.{Failure}
use marlo_scheduling.Lifecycle.Ops.{returning, take_over_op}
use marlo_scheduling.Lifecycle.Cancel.{CancelRequest}
use marlo_scheduling.Lifecycle.Cancel.T1.{
  CancelT1, cancel_gone, cancel_changed, cancel_busy, cancel_resumed, cancel_started,
  cancel_inherits, cancel_t1_tx, cancel_open, cancel_start, cancel_op, inheriting_op, start_patch,
  start_update, is_cancel, is_other_state,
}
use marlo_scheduling.Booking.Transactions.{opened, locked-ok}
use marlo_scheduling.Booking.Owned.{get_by_id_self}

answered : CancelT1 × MemoryTx → Result Failure CancelT1 × MemoryTx
answered p = (ok p.0, p.1)

module _ (request : CancelRequest) (op_id : Key) (time : ℕ) (s : MemoryBookingStore) where
  abbrev pub run : Result Failure CancelT1 × MemoryBookingStore
  run = locked {E = Failure} (returning (cancel_t1_tx request op_id time)) s

  run_from :
      (t1 : CancelT1) (tx : MemoryTx)
      → cancel_t1_tx request op_id time (opened s) ≡ (t1, tx)
      → run ≡ (ok t1, commit tx.writes tx.store)
  unfolding answered
  run_from t1 tx e = locked-ok _ s _ _ (ap answered e)

  pub run-gone : get_by_id s request.booking_id ≡ none → run ≡ (ok cancel_gone, s)
  unfolding cancel_t1_tx select_for_update commit
  run-gone h = run_from cancel_gone (opened s) (rw (cancel_t1_tx, h) refl)

  module _ (row : BookingRow) (h : get_by_id s request.booking_id ≡ some row) where
    pub run-changed :
        is_other_state row request.expected_revision ≡ true → run ≡ (ok (cancel_changed row), s)
    unfolding cancel_t1_tx select_for_update commit
    run-changed b = run_from (cancel_changed row) (opened s) (rw (cancel_t1_tx, h, b) refl)

    module _ (b : is_other_state row request.expected_revision ≡ false) where
      confirmed : is_confirmed row.status ≡ true
      confirmed = ground arith

      self : get_by_id s row.id ≡ some row
      self = get_by_id_self s request.booking_id row h

      abbrev pub own : PendingOp
      own = cancel_op row op_id time

      may_start : may_update (start_update row own) row ≡ true
      unfolding may_update
      may_start = simp (==-refl row.revision, confirmed) refl

      start_persists :
          cancel_start row op_id time (opened s)
          ≡ (cancel_started row own, queue (opened s) (patch_row row.id (start_patch own)))
      unfolding cancel_start update
      start_persists = simp (self, may_start) refl

      pub run-started :
          row.pending_op ≡ none
          → run ≡ (ok (cancel_started row own), on_row row.id (apply_patch (start_patch own)) s)
      unfolding cancel_t1_tx select_for_update commit apply_write
      run-started e =
          run_from (cancel_started row own) (queue (opened s) (patch_row row.id (start_patch own)))
            (rw (cancel_t1_tx, h, b) (simp e start_persists))

      module _ (op : PendingOp) (e : row.pending_op ≡ some op) where
        pub run-busy : is_stale_op op time ≡ false → run ≡ (ok (cancel_busy op), s)
        unfolding cancel_t1_tx select_for_update cancel_open commit
        run-busy g =
            run_from (cancel_busy op) (opened s) (rw (cancel_t1_tx, h, b) (simp (e, g) refl))

        abbrev pub taken : PendingOp
        taken = record op { gen = op.gen + 1; started_at = time }

        names : owns row op.op_id (some op.gen) ≡ true
        unfolding owns
        names = ground arith

        abbrev pub renewing : BookingRow → BookingRow
        renewing =
            on_op op.op_id λ (o : PendingOp). record o { gen = op.gen + 1; started_at = time }

        abbrev pub going_on : CancelT1
        going_on =
            if is_cancel op.kind
            then cancel_resumed row taken
            else cancel_inherits row (inheriting_op row op_id time taken) taken op.started_at
                row.unfinished_create

        open_takes :
            is_stale_op op time ≡ true
            → cancel_open row op op_id time (opened s)
              ≡ (going_on, queue (opened s) (renew_op row.id op.op_id (op.gen + 1) time))
        unfolding cancel_open take_over_op take_over
        open_takes g = simp (g, self, names) refl

        pub run-taken : is_stale_op op time ≡ true → run ≡ (ok going_on, on_row row.id renewing s)
        unfolding cancel_t1_tx select_for_update commit apply_write
        run-taken g =
            run_from going_on (queue (opened s) (renew_op row.id op.op_id (op.gen + 1) time))
              (rw (cancel_t1_tx, h, b) (simp e (open_takes g)))

        renewing_row : renewing row ≡ record row { pending_op = some taken }
        renewing_row = rw (e, ==-refl op.op_id) refl

        pub renewed :
            get_by_id (on_row row.id renewing s) row.id
            ≡ some (record row { pending_op = some taken })
        unfolding get_by_id
        renewed =
            find-adjust_self (has_id row.id) renewing row s.rows (λ x k. ground arith) self
            ∙ ap some renewing_row
