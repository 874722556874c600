-- ===== src/Booking/Moved.antt =====
-- lib/booking/reschedule.ts: the move in T2.
use marlo_scheduling.Prelude.{
  ◌&&◌, ℕ, ◌≡◌, refl, ap, ◌∙◌, true, false, List, Option, some, arith, is_none, ◌≤◌, Option-cases,
  inl, inr,
}
use marlo_scheduling.Rows.{
  Key, Instant, BookingRow, PendingOp, Interval, UnresolvedInsert, holds_invariants, is_confirmed,
}
use marlo_scheduling.Store.{
  MemoryBookingStore, MemoryTx, RowPatch, Result, ok, locked, get_by_id, apply_patch, owns,
  select_for_update, patch_row, queue, commit, apply_write, on_row,
}
use marlo_scheduling.Store.Occupancy.{Occupies}
use marlo_scheduling.Lifecycle.Errors.{Failure}
use marlo_scheduling.Lifecycle.Ops.{returning}
use marlo_scheduling.Lifecycle.Create.T2.{Completed}
use marlo_scheduling.Lifecycle.Cancel.T2.{retained_of, completed_as}
use marlo_scheduling.Lifecycle.Reschedule.T2.{
  Resulting, move_patch, moved_row, complete_reschedule_tx, did_move,
}
use marlo_scheduling.Booking.Invariant.{Inv, Shrinks}
use marlo_scheduling.Booking.Writes.{HoldsCf}
use marlo_scheduling.Booking.Transactions.{opened, locked-ok}
use marlo_scheduling.Booking.Owned.{
  may_update-owned, may_update-lost, on_row-stored, Shrinks-Apart, on_row_found-Inv,
}

module _ (op : PendingOp) (fresh : BookingRow) (resulting : Resulting) (window : Interval)
    (from : op.new_start ≡ some window.start) (until : op.new_end ≡ some window.end) where
  apply_patch-moved_row :
      (retained : List UnresolvedInsert)
      → apply_patch (move_patch op fresh resulting retained) fresh
        ≡ moved_row op fresh resulting retained
  unfolding apply_patch move_patch moved_row
  apply_patch-moved_row retained = ground arith

  pub move-Shrinks :
      (retained : List UnresolvedInsert)
      → fresh.reserved_start ≡ some window.start
      → fresh.reserved_end ≡ some window.end
      → Shrinks fresh (apply_patch (move_patch op fresh resulting retained) fresh)
  unfolding Occupies apply_patch move_patch
  move-Shrinks retained p q = record {
    same_id = refl;
    same_host = refl;
    within = λ i. ground arith;
  }

move-HoldsCf :
    (op : PendingOp) (fresh : BookingRow) (resulting : Resulting) (retained : List UnresolvedInsert)
    → is_none fresh.latest_action ≡ false
    → HoldsCf fresh
    → HoldsCf (apply_patch (move_patch op fresh resulting retained) fresh)
unfolding holds_invariants apply_patch move_patch
move-HoldsCf op fresh resulting retained u h = ground arith

moved_row-owns :
    (op : PendingOp) (fresh : BookingRow) (resulting : Resulting) (retained : List UnresolvedInsert)
    (op_id : Key) (gen : Option ℕ)
    → (is_confirmed fresh.status && owns (moved_row op fresh resulting retained) op_id gen) ≡ false
unfolding owns moved_row
moved_row-owns op fresh resulting retained op_id gen = ground arith

moved_row-did_move :
    (row : BookingRow) (op : PendingOp) (fresh : BookingRow) (resulting : Resulting)
    (retained : List UnresolvedInsert) (start : Instant)
    → op.new_start ≡ some start
    → row.revision ≤ fresh.revision
    → did_move row op (some (moved_row op fresh resulting retained)) ≡ true
unfolding did_move moved_row
moved_row-did_move row op fresh resulting retained start e le = ground arith

module _ (row : BookingRow) (op : PendingOp) (resulting : Resulting) (s : MemoryBookingStore)
    (fresh : BookingRow) (h : get_by_id s row.id ≡ some fresh) where
  move_of : PendingOp → RowPatch
  move_of current = move_patch op fresh resulting (retained_of fresh current)

  complete_reschedule_tx-lost :
      (is_confirmed fresh.status && owns fresh op.op_id (some op.gen)) ≡ false
      → complete_reschedule_tx row op resulting (opened s) ≡ (completed_as true fresh, opened s)
  unfolding complete_reschedule_tx select_for_update move_of
  complete_reschedule_tx-lost o = elim (Option-cases fresh.pending_op) [
    | inl e ↦ simp (h, e) refl
    | inr (current, e) ↦
        let lost = may_update-lost row fresh op (move_of current) o in simp (h, e, lost) refl
  ]

  complete_reschedule_tx-owner :
      (current : PendingOp)
      → fresh.pending_op ≡ some current
      → is_confirmed fresh.status ≡ true
      → owns fresh op.op_id (some op.gen) ≡ true
      → complete_reschedule_tx row op resulting (opened s) ≡ (
        completed_as false (moved_row op fresh resulting (retained_of fresh current)),
        queue (opened s) (patch_row row.id (move_of current)),
      )
  unfolding complete_reschedule_tx select_for_update move_of
  complete_reschedule_tx-owner current e c o =
      let own = may_update-owned row fresh op (move_of current) c o in simp (h, e, own) refl

abbrev answered : Completed × MemoryTx → Result Failure Completed × MemoryTx
answered p = (ok p.0, p.1)

pub complete_reschedule_tx-superseded :
    (row : BookingRow) (op : PendingOp) (resulting : Resulting) (s : MemoryBookingStore)
    (fresh : BookingRow)
    → get_by_id s row.id ≡ some fresh
    → (is_confirmed fresh.status && owns fresh op.op_id (some op.gen)) ≡ false
    → locked (returning (complete_reschedule_tx row op resulting)) s
      ≡ (ok (completed_as true fresh), s)
unfolding commit
complete_reschedule_tx-superseded row op resulting s fresh h o =
    locked-ok _ s _ _ (ap answered (complete_reschedule_tx-lost row op resulting s fresh h o))

moved_after :
    (row : BookingRow) (op : PendingOp) (resulting : Resulting) (s : MemoryBookingStore)
    (fresh : BookingRow) (current : PendingOp)
    → get_by_id s row.id ≡ some fresh
    → fresh.pending_op ≡ some current
    → is_confirmed fresh.status ≡ true
    → owns fresh op.op_id (some op.gen) ≡ true
    → locked (returning (complete_reschedule_tx row op resulting)) s ≡ (
      ok (completed_as false (moved_row op fresh resulting (retained_of fresh current))),
      on_row row.id (apply_patch (move_patch op fresh resulting (retained_of fresh current))) s,
    )
unfolding commit apply_write move_of
moved_after row op resulting s fresh current h e c o =
    locked-ok _ s _ _
      (ap answered (complete_reschedule_tx-owner row op resulting s fresh h current e c o))

-- The owner of a reschedule's op completes the move once, provided that the row is confirmed and
-- still holds the op's destination as its reservation, that its creation is finalized and that its
-- revision has not gone back since the worker read it. The commit stores exactly the snapshot that
-- the transaction answers, with the destination as the booking's interval; the rows stay apart and
-- keep CF-1 to CF-3; a reader that lost the answer recognizes the move; and a second completion
-- under the same op answers that it is superseded and changes nothing.
pub complete_reschedule_tx-moves :
    (row : BookingRow) (op : PendingOp) (resulting : Resulting) (s : MemoryBookingStore)
    (fresh : BookingRow) (current : PendingOp) (window : Interval)
    → get_by_id s row.id ≡ some fresh
    → fresh.pending_op ≡ some current
    → is_confirmed fresh.status ≡ true
    → owns fresh op.op_id (some op.gen) ≡ true
    → op.new_start ≡ some window.start
    → op.new_end ≡ some window.end
    → fresh.reserved_start ≡ some window.start
    → fresh.reserved_end ≡ some window.end
    → is_none fresh.latest_action ≡ false
    → row.revision ≤ fresh.revision
    → Inv s
    → let snapshot = moved_row op fresh resulting (retained_of fresh current) in
      let (answer, after) =
        locked {E = Failure} (returning (complete_reschedule_tx row op resulting)) s in
      (answer ≡ ok (completed_as false snapshot))
      × (get_by_id after row.id ≡ some snapshot)
      × (snapshot.start ≡ window.start)
      × (snapshot.end ≡ window.end)
      × Inv after
      × (did_move row op (get_by_id after row.id) ≡ true)
      × (locked {E = Failure} (returning (complete_reschedule_tx row op resulting)) after
          ≡ (ok (completed_as true snapshot), after))
unfolding moved_row
complete_reschedule_tx-moves row op resulting s fresh current window h e c o from until p q u le v =
    let retained = retained_of fresh current in
    let patch = move_patch op fresh resulting retained in
    let kept =
      on_row-stored row.id patch s fresh h
      ∙ ap some (apply_patch-moved_row op fresh resulting window from until retained) in
    let apart =
      on_row_found-Inv row.id (apply_patch patch) s fresh h
        (λ x m.
          Shrinks-Apart fresh _ x (move-Shrinks op fresh resulting window from until retained p q))
        (move-HoldsCf op fresh resulting retained u) v in
    let again =
      complete_reschedule_tx-superseded row op resulting _ _ kept
        (moved_row-owns op fresh resulting retained op.op_id (some op.gen)) in
    rw (moved_after row op resulting s fresh current h e c o) (
      refl,
      kept,
      ground arith,
      ground arith,
      apart,
      rw kept (moved_row-did_move row op fresh resulting retained window.start from le),
      again,
    )
