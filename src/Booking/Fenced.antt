-- ===== src/Booking/Fenced.antt =====
-- lib/booking/cancel.ts, reschedule.ts and repair.ts: the transactions of a worker that lost its
-- op.
use marlo_scheduling.Prelude.{
  ==-refl, ◌&&◌, if◌then◌else◌, Bool-cases, none, ◌≡◌, refl, ap, true, false, not, ◌||◌, ◌==◌,
  Option, some, arith, Option-cases, inl, inr,
}
use marlo_scheduling.Rows.{Key, BookingRow, PendingOp, is_confirmed}
use marlo_scheduling.Store.{
  MemoryBookingStore, MemoryTx, Result, ok, commit, locked, get_by_id, owns, select_for_update,
}
use marlo_scheduling.Lifecycle.Errors.{Failure}
use marlo_scheduling.Lifecycle.Ops.{returning}
use marlo_scheduling.Lifecycle.Cancel.T2.{
  cancel_t2_tx, cancel_t2_prime_tx, t2_prime_patch, released_patch, retained_of, completed_as,
}
use marlo_scheduling.Lifecycle.Reschedule.T2.{
  Resulting, complete_reschedule_tx, abandon_reschedule_tx,
}
use marlo_scheduling.Lifecycle.Repair.T2.{
  RepairT2, repair_superseded, repair_not_written, repair_t2_tx, clear_repair_tx, clear_patch,
}
use marlo_scheduling.Booking.Transactions.{opened, locked-ok}
use marlo_scheduling.Booking.Owned.{may_update-lost}
use marlo_scheduling.Booking.Cancelled.{cancel_t2_tx-superseded}
use marlo_scheduling.Booking.Moved.{complete_reschedule_tx-superseded}

-- A transaction that queues nothing leaves the store as it is.
locked-unchanged :
    {A : Type 0} (call : MemoryTx → A × MemoryTx) (s : MemoryBookingStore) (a : A)
    → call (opened s) ≡ (a, opened s)
    → locked {E = Failure} (returning call) s ≡ (ok a, s)
unfolding commit
locked-unchanged {A} call s a e = locked-ok _ s _ _ (ap answered e)
  where
    answered : A × MemoryTx → Result Failure A × MemoryTx
    answered p = (ok p.0, p.1)

module _ (row : BookingRow) (op : PendingOp) (s : MemoryBookingStore) (fresh : BookingRow)
    (h : get_by_id s row.id ≡ some fresh)
    (o : (is_confirmed fresh.status && owns fresh op.op_id (some op.gen)) ≡ false) where
  cancel_t2_prime_tx-lost : cancel_t2_prime_tx row op (opened s) ≡ (false, opened s)
  unfolding cancel_t2_prime_tx select_for_update
  cancel_t2_prime_tx-lost = elim (Option-cases fresh.pending_op) [
    | inl e ↦ simp (h, e) refl
    | inr (current, e) ↦
        simp (h, e, may_update-lost row fresh op (t2_prime_patch fresh current) o) refl
  ]

  abandon_reschedule_tx-lost : abandon_reschedule_tx row op (opened s) ≡ (false, opened s)
  unfolding abandon_reschedule_tx select_for_update
  abandon_reschedule_tx-lost = elim (Option-cases fresh.pending_op) [
    | inl e ↦ simp (h, e) refl
    | inr (current, e) ↦
        let patch = released_patch (retained_of fresh current) in
        simp (h, e, may_update-lost row fresh op patch o) refl
  ]

  clear_repair_tx-lost : clear_repair_tx row op (opened s) ≡ (false, opened s)
  unfolding clear_repair_tx select_for_update
  clear_repair_tx-lost = elim (Option-cases fresh.pending_op) [
    | inl e ↦ simp (h, e) refl
    | inr (current, e) ↦
        let patch = clear_patch (retained_of fresh current) in
        simp (h, e, may_update-lost row fresh op patch o) refl
  ]

  other_op :
      (current : PendingOp)
      → fresh.pending_op ≡ some current
      → owns fresh op.op_id (some op.gen) ≡ false
      → (not (current.op_id == op.op_id) || not (current.gen == op.gen)) ≡ true
  unfolding owns
  other_op current e u = ground arith

  own_op :
      (current : PendingOp)
      → fresh.pending_op ≡ some current
      → owns fresh op.op_id (some op.gen) ≡ true
      → (not (current.op_id == op.op_id) || not (current.gen == op.gen)) ≡ false
  unfolding owns
  own_op current e u = ground arith

  -- What a repair answers that does not complete.
  abbrev repair_refused : RepairT2
  repair_refused =
      if owns fresh op.op_id (some op.gen) then repair_not_written else repair_superseded

  no_op : fresh.pending_op ≡ none → owns fresh op.op_id (some op.gen) ≡ false
  unfolding owns
  no_op e = ground arith

  repair_t2_tx-lost :
      (etag : Option Key) → repair_t2_tx row op etag (opened s) ≡ (repair_refused, opened s)
  unfolding repair_t2_tx select_for_update
  repair_t2_tx-lost etag = elim (Option-cases fresh.pending_op) [
    | inl e ↦ simp (h, e, no_op e) refl
    | inr (current, e) ↦ elim (Bool-cases (owns fresh op.op_id (some op.gen))) [
      | inl u ↦
          let unconfirmed : is_confirmed fresh.status ≡ false = ground arith in
          simp (h, e, u, own_op current e u, unconfirmed, ==-refl fresh.revision) refl
      | inr u ↦ simp (h, e, u, other_op current e u) refl
    ]
  ]

-- A worker whose op was taken over, replaced or cleared, or whose row is no longer confirmed,
-- changes nothing, in whichever transaction it goes on with. The completions of a cancel and of a
-- reschedule answer that they are superseded; that of a repair answers so too if the op is lost,
-- and that it did not write if it still owns the op; the transactions after a refusal (of a
-- cancel's delete, a reschedule's patch and a repair's insert) write nothing; and each leaves the
-- store as it is.
pub lost_op-changes_nothing :
    (row : BookingRow) (op : PendingOp) (resulting : Resulting) (etag : Option Key)
    (s : MemoryBookingStore) (fresh : BookingRow)
    → get_by_id s row.id ≡ some fresh
    → (is_confirmed fresh.status && owns fresh op.op_id (some op.gen)) ≡ false
    → (locked {E = Failure} (returning (cancel_t2_tx row op)) s ≡ (ok (completed_as true fresh), s))
      × (locked {E = Failure} (returning (complete_reschedule_tx row op resulting)) s
          ≡ (ok (completed_as true fresh), s))
      × (locked {E = Failure} (returning (repair_t2_tx row op etag)) s ≡ (
        ok (if owns fresh op.op_id (some op.gen) then repair_not_written else repair_superseded),
        s,
      ))
      × (locked {E = Failure} (returning (cancel_t2_prime_tx row op)) s ≡ (ok false, s))
      × (locked {E = Failure} (returning (abandon_reschedule_tx row op)) s ≡ (ok false, s))
      × (locked {E = Failure} (returning (clear_repair_tx row op)) s ≡ (ok false, s))
lost_op-changes_nothing row op resulting etag s fresh h o = (
  cancel_t2_tx-superseded row op s fresh h o,
  complete_reschedule_tx-superseded row op resulting s fresh h o,
  locked-unchanged _ s _ (repair_t2_tx-lost row op s fresh h o etag),
  locked-unchanged _ s _ (cancel_t2_prime_tx-lost row op s fresh h o),
  locked-unchanged _ s _ (abandon_reschedule_tx-lost row op s fresh h o),
  locked-unchanged _ s _ (clear_repair_tx-lost row op s fresh h o),
)
