-- ===== src/Booking/Finalize.antt =====
-- lib/booking/create.ts: what the completing transaction of a create does for the owner of the op
-- and for a worker that lost it.
use marlo_scheduling.Prelude.{
  ℕ, ◌≡◌, refl, ap, ◌∙◌, true, false, Option, none, some, List, arith, Option-cases, inl, inr,
  find-adjust_self,
}
use marlo_scheduling.Rows.{
  Key, BookingRow, PendingOp, CalendarState, UnresolvedInsert, retained_from, confirmed,
}
use marlo_scheduling.Store.{
  MemoryBookingStore, Result, ok, commit, locked, get_by_id, apply_patch, apply_write, update, owns,
  may_update, has_id, select_for_update, patch_row, OwnedUpdate, queue, on_row,
}
use marlo_scheduling.Lifecycle.Errors.{Failure}
use marlo_scheduling.Lifecycle.Create.T2.{
  complete_create_tx, complete_fresh, completion_update, completion_patch, committed_row,
  did_commit,
}
use marlo_scheduling.Booking.Transactions.{opened, locked-ok}

-- The snapshot that the transaction returns is the row that its patch makes.
apply_patch-committed_row :
    (fresh : BookingRow) (state : CalendarState) (etag : Option Key)
    (retained : List UnresolvedInsert)
    → apply_patch (completion_patch state etag retained) fresh
      ≡ committed_row fresh state etag retained
unfolding apply_patch completion_patch committed_row
apply_patch-committed_row fresh state none retained = refl
apply_patch-committed_row fresh state (some e) retained = refl

module _ (on_finalize : BookingRow → Result Failure (Unit {0})) (row : BookingRow) (op : PendingOp)
    (state : CalendarState) (etag : Option Key) (s : MemoryBookingStore) (fresh : BookingRow) where
  abbrev update_of : PendingOp → OwnedUpdate
  update_of current =
      completion_update row fresh op state etag
        (retained_from fresh.unresolved_inserts current.attempts)

  may_update-lost :
      (current : PendingOp)
      → owns fresh op.op_id (some op.gen) ≡ false
      → may_update (update_of current) fresh ≡ false
  unfolding may_update completion_update
  may_update-lost current o = ground arith

  lost-complete_fresh :
      (current : PendingOp)
      → get_by_id s row.id ≡ some fresh
      → owns fresh op.op_id (some op.gen) ≡ false
      → complete_fresh on_finalize row op state etag fresh current (opened s)
        ≡ (ok (record { superseded = true; row = fresh }), opened s)
  unfolding complete_fresh update
  lost-complete_fresh current h o = rw (h, may_update-lost current o, update, complete_fresh) refl

  complete_create_tx-lost :
      get_by_id s row.id ≡ some fresh
      → owns fresh op.op_id (some op.gen) ≡ false
      → complete_create_tx on_finalize row op state etag (opened s)
        ≡ (ok (record { superseded = true; row = fresh }), opened s)
  unfolding complete_create_tx select_for_update get_by_id
  complete_create_tx-lost h o = elim (Option-cases fresh.pending_op) [
    | inl e ↦ simp (h, e) refl
    | inr (current, e) ↦ simp (h, e) (lost-complete_fresh current h o)
  ]

  module _ (current : PendingOp) (h : get_by_id s row.id ≡ some fresh)
      (e : fresh.pending_op ≡ some current) (o : owns fresh op.op_id (some op.gen) ≡ true)
      (c : fresh.status ≡ confirmed) where
    abbrev snapshot : BookingRow
    snapshot =
        committed_row fresh state etag (retained_from fresh.unresolved_inserts current.attempts)

    may : may_update (update_of current) fresh ≡ true
    unfolding may_update completion_update
    may = ground arith

    owner-complete_fresh :
        on_finalize fresh ≡ ok tt
        → complete_fresh on_finalize row op state etag fresh current (opened s) ≡ (
          ok (record { superseded = false; row = snapshot }),
          queue (opened s) (patch_row row.id (update_of current).patch),
        )
    unfolding complete_fresh update completion_update
    owner-complete_fresh f = rw (h, may, update, complete_fresh) (rw f refl)

    complete_create_tx-owner :
        on_finalize fresh ≡ ok tt
        → complete_create_tx on_finalize row op state etag (opened s) ≡ (
          ok (record { superseded = false; row = snapshot }),
          queue (opened s) (patch_row row.id (update_of current).patch),
        )
    unfolding complete_create_tx select_for_update get_by_id
    complete_create_tx-owner f = simp (h, e) (owner-complete_fresh f)

    finished :
        on_finalize fresh ≡ ok tt
        → locked (complete_create_tx on_finalize row op state etag) s ≡ (
          ok (record { superseded = false; row = snapshot }),
          on_row row.id (apply_patch (update_of current).patch) s,
        )
    unfolding commit apply_write
    finished f = locked-ok _ s _ _ (complete_create_tx-owner f)

    stored :
        get_by_id (on_row row.id (apply_patch (update_of current).patch) s) row.id ≡ some snapshot
    unfolding get_by_id completion_update
    stored =
        find-adjust_self (has_id row.id) (apply_patch (update_of current).patch) fresh s.rows
          (unfold apply_patch in λ x t. t) h
        ∙ ap some (
            apply_patch-committed_row fresh state etag
              (retained_from fresh.unresolved_inserts current.attempts))

committed_row-did_commit :
    (op : PendingOp) (fresh : BookingRow) (state : CalendarState) (etag : Option Key)
    (retained : List UnresolvedInsert)
    → did_commit op (some (committed_row fresh state etag retained)) ≡ true
unfolding did_commit committed_row
committed_row-did_commit op fresh state etag retained = refl

committed_row-owns :
    (fresh : BookingRow) (state : CalendarState) (etag : Option Key)
    (retained : List UnresolvedInsert) (op_id : Key) (gen : Option ℕ)
    → owns (committed_row fresh state etag retained) op_id gen ≡ false
unfolding owns committed_row
committed_row-owns fresh state etag retained op_id gen = refl

-- A worker whose op was taken over or cleared completes nothing: the transaction answers that it is
-- superseded, with the row as it stands, and leaves the store as it is.
pub complete_create_tx-fenced :
    (on_finalize : BookingRow → Result Failure (Unit {0})) (row : BookingRow) (op : PendingOp)
    (state : CalendarState) (etag : Option Key) (s : MemoryBookingStore) (fresh : BookingRow)
    → get_by_id s row.id ≡ some fresh
    → owns fresh op.op_id (some op.gen) ≡ false
    → locked (complete_create_tx on_finalize row op state etag) s
      ≡ (ok (record { superseded = true; row = fresh }), s)
unfolding commit
complete_create_tx-fenced on_finalize row op state etag s fresh h o =
    locked-ok _ s _ _ (complete_create_tx-lost on_finalize row op state etag s fresh h o)

-- The owner of the op of a confirmed row finalizes the creation once: the commit stores exactly the
-- snapshot that the transaction answers, a reader that lost the answer recognizes the commit by it,
-- and a second completion under the same op answers that it is superseded and changes nothing.
-- The finalize hook is assumed not to throw.
pub complete_create_tx-finalizes :
    (on_finalize : BookingRow → Result Failure (Unit {0})) (row : BookingRow) (op : PendingOp)
    (state : CalendarState) (etag : Option Key) (s : MemoryBookingStore) (fresh : BookingRow)
    (current : PendingOp)
    → get_by_id s row.id ≡ some fresh
    → fresh.pending_op ≡ some current
    → owns fresh op.op_id (some op.gen) ≡ true
    → fresh.status ≡ confirmed
    → on_finalize fresh ≡ ok tt
    → let (answer, after) = locked (complete_create_tx on_finalize row op state etag) s in
      let snapshot =
        committed_row fresh state etag (retained_from fresh.unresolved_inserts current.attempts) in
      (answer ≡ ok (record { superseded = false; row = snapshot }))
      × (get_by_id after row.id ≡ some snapshot)
      × (did_commit op (get_by_id after row.id) ≡ true)
      × (locked (complete_create_tx on_finalize row op state etag) after
          ≡ (ok (record { superseded = true; row = snapshot }), after))
complete_create_tx-finalizes on_finalize row op state etag s fresh current h e o c f =
    let retained = retained_from fresh.unresolved_inserts current.attempts in
    let kept = stored on_finalize row op state etag s fresh current h e o c in
    let lost =
      complete_create_tx-fenced on_finalize row op state etag _ _ kept
        (committed_row-owns fresh state etag retained op.op_id (some op.gen)) in
    rw (finished on_finalize row op state etag s fresh current h e o c f)
      (refl, kept, rw kept (committed_row-did_commit op fresh state etag retained), lost)
