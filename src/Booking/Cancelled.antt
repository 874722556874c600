-- ===== src/Booking/Cancelled.antt =====
-- lib/booking/cancel.ts: what the completing transaction of a cancel does, and the one that follows
-- a refused delete.
use marlo_scheduling.Prelude.{
  ℕ, ◌+◌, ◌<◌, ◌≡◌, refl, ap, ◌∙◌, Bool, true, false, not, ◌&&◌, Option, none, some, arith, ltb,
  is_none, In, In-append_left, In-append_right, ◌⊎◌, filter-In, Option-cases, inl, inr,
}
use marlo_scheduling.Rows.{
  Key, BookingRow, PendingOp, Attempt, Interval, UnfinishedCreate, cancelled, CalendarState,
  LatestAction, holds_invariants, is_stale_op, op_stale_ms, is_unresolved_insert, is_confirmed,
}
use marlo_scheduling.Store.{
  MemoryBookingStore, MemoryTx, ok, commit, locked, get_by_id, apply_patch, apply_write, owns,
  select_for_update, patch_row, queue, on_row,
}
use marlo_scheduling.Store.Occupancy.{Occupies}
use marlo_scheduling.Lifecycle.Errors.{Failure}
use marlo_scheduling.Lifecycle.Ops.{returning}
use marlo_scheduling.Lifecycle.Create.T2.{Completed}
use marlo_scheduling.Lifecycle.Cancel.T2.{
  cancel_t2_tx, cancel_patch, retained_of, completed_as, did_cancel, cancel_t2_prime_tx,
  t2_prime_patch, released_patch, restored_create, restored_patch, owned,
}
use marlo_scheduling.Booking.Invariant.{Inv, Shrinks}
use marlo_scheduling.Booking.Writes.{HoldsCf}
use marlo_scheduling.Booking.Transactions.{opened, locked-ok, TxInv, untouched}
use marlo_scheduling.Booking.Owned.{
  on_row-stored, may_update-owned, may_update-lost, update-TxInv, Shrinks-Apart,
}

-- The row of a completed cancel.
abbrev pub cancelled_row : BookingRow → PendingOp → BookingRow
cancelled_row fresh current = record fresh {
  status = cancelled;
  calendar_state = CalendarState.deleted;
  revision = fresh.revision + 1;
  latest_action = some LatestAction.cancel;
  pending_op = none;
  unfinished_create = none;
  reserved_start = none;
  reserved_end = none;
  unresolved_inserts = retained_of fresh current;
}

pub apply_patch-cancelled_row :
    (fresh : BookingRow) (current : PendingOp)
    → apply_patch (cancel_patch (retained_of fresh current)) fresh ≡ cancelled_row fresh current
unfolding apply_patch cancel_patch
apply_patch-cancelled_row fresh current = refl

cancelled_row-free :
    (fresh : BookingRow) (current : PendingOp)
    → ¬ ((i : Interval) × Occupies (cancelled_row fresh current) i)
unfolding Occupies
cancelled_row-free fresh current t = ground arith

module _ (row : BookingRow) (op : PendingOp) (s : MemoryBookingStore) (fresh : BookingRow)
    (h : get_by_id s row.id ≡ some fresh) where
  cancel_t2_tx-lost :
      (is_confirmed fresh.status && owns fresh op.op_id (some op.gen)) ≡ false
      → cancel_t2_tx row op (opened s) ≡ (completed_as true fresh, opened s)
  unfolding cancel_t2_tx select_for_update
  cancel_t2_tx-lost o = elim (Option-cases fresh.pending_op) [
    | inl e ↦ simp (h, e) refl
    | inr (current, e) ↦
        let lost = may_update-lost row fresh op (cancel_patch (retained_of fresh current)) o in
        simp (h, e, lost) refl
  ]

  module _ (current : PendingOp) (e : fresh.pending_op ≡ some current)
      (c : is_confirmed fresh.status ≡ true) (o : owns fresh op.op_id (some op.gen) ≡ true) where
    cancel_t2_tx-owner : cancel_t2_tx row op (opened s) ≡ (
      completed_as false fresh,
      queue (opened s) (patch_row row.id (cancel_patch (retained_of fresh current))),
    )
    unfolding cancel_t2_tx select_for_update
    cancel_t2_tx-owner =
        let own = may_update-owned row fresh op (cancel_patch (retained_of fresh current)) c o in
        simp (h, e, own) refl

    pub cancelled_after : locked {E = Failure} (returning (cancel_t2_tx row op)) s ≡ (
      ok (completed_as false fresh),
      on_row row.id (apply_patch (cancel_patch (retained_of fresh current))) s,
    )
    unfolding commit apply_write
    cancelled_after =
        locked-ok _ s _ _ (ap (λ (p : Completed × MemoryTx). (ok p.0, p.1)) cancel_t2_tx-owner)

cancelled_row-owns :
    (fresh : BookingRow) (current : PendingOp) (op_id : Key) (gen : Option ℕ)
    → (is_confirmed (cancelled_row fresh current).status
        && owns (cancelled_row fresh current) op_id gen)
      ≡ false
unfolding owns
cancelled_row-owns fresh current op_id gen = refl

cancelled_row-did_cancel :
    (fresh : BookingRow) (current : PendingOp)
    → did_cancel (some (cancelled_row fresh current)) ≡ true
unfolding did_cancel
cancelled_row-did_cancel fresh current = refl

pub cancel_t2_tx-superseded :
    (row : BookingRow) (op : PendingOp) (s : MemoryBookingStore) (fresh : BookingRow)
    → get_by_id s row.id ≡ some fresh
    → (is_confirmed fresh.status && owns fresh op.op_id (some op.gen)) ≡ false
    → locked {E = Failure} (returning (cancel_t2_tx row op)) s ≡ (ok (completed_as true fresh), s)
unfolding commit
cancel_t2_tx-superseded row op s fresh h o =
    locked-ok _ s _ _
      (ap (λ (p : Completed × MemoryTx). (ok p.0, p.1)) (cancel_t2_tx-lost row op s fresh h o))

-- The owner of the op of a confirmed row completes a cancel once. The row is then cancelled under
-- the next revision with its event deleted, its op and its unfinished create cleared and its late
-- inserts retained; it occupies no interval; a reader that lost the answer of the commit recognizes
-- it; and a second completion under the same op answers that it is superseded and changes nothing.
pub cancel_t2_tx-finalizes :
    (row : BookingRow) (op : PendingOp) (s : MemoryBookingStore) (fresh : BookingRow)
    (current : PendingOp)
    → get_by_id s row.id ≡ some fresh
    → fresh.pending_op ≡ some current
    → is_confirmed fresh.status ≡ true
    → owns fresh op.op_id (some op.gen) ≡ true
    → let (answer, after) = locked {E = Failure} (returning (cancel_t2_tx row op)) s in
      (answer ≡ ok (completed_as false fresh))
      × (get_by_id after row.id ≡ some (cancelled_row fresh current))
      × (¬ ((i : Interval) × Occupies (cancelled_row fresh current) i))
      × (did_cancel (get_by_id after row.id) ≡ true)
      × (locked {E = Failure} (returning (cancel_t2_tx row op)) after
          ≡ (ok (completed_as true (cancelled_row fresh current)), after))
cancel_t2_tx-finalizes row op s fresh current h e c o =
    let patch = cancel_patch (retained_of fresh current) in
    let kept =
      on_row-stored row.id patch s fresh h ∙ ap some (apply_patch-cancelled_row fresh current) in
    let again =
      cancel_t2_tx-superseded row op _ _ kept
        (cancelled_row-owns fresh current op.op_id (some op.gen)) in
    rw (cancelled_after row op s fresh h current e c o) (
      refl,
      kept,
      cancelled_row-free fresh current,
      rw kept (cancelled_row-did_cancel fresh current),
      again,
    )

-- T2'.

-- A creation that is not finalized is open or carried by the row.
abbrev pub is_carried : BookingRow → Bool
is_carried row = not (is_none row.latest_action && is_none row.unfinished_create)

pub t2_prime-Shrinks :
    (fresh : BookingRow) (current : PendingOp)
    → Shrinks fresh (apply_patch (t2_prime_patch fresh current) fresh)
unfolding Occupies apply_patch t2_prime_patch released_patch restored_patch
t2_prime-Shrinks fresh current = elim (Option-cases fresh.unfinished_create) [
  | inl e ↦ rw e (record { same_id = refl; same_host = refl; within = λ i. ground arith })
  | inr (carry, e) ↦ rw e (record { same_id = refl; same_host = refl; within = λ i k. k })
]

t2_prime-HoldsCf :
    (fresh : BookingRow) (current : PendingOp)
    → is_carried fresh ≡ true
    → HoldsCf fresh
    → HoldsCf (apply_patch (t2_prime_patch fresh current) fresh)
unfolding holds_invariants apply_patch t2_prime_patch released_patch restored_patch
t2_prime-HoldsCf fresh current c k = elim (Option-cases fresh.unfinished_create) [
  | inl e ↦ rw e (ground arith)
  | inr (carry, e) ↦ rw e (ground arith)
]

cancel_t2_prime_tx-TxInv :
    (row : BookingRow) (op : PendingOp) (s : MemoryBookingStore) (fresh : BookingRow)
    → get_by_id s row.id ≡ some fresh
    → is_carried fresh ≡ true
    → Inv s
    → TxInv (cancel_t2_prime_tx row op (opened s)).1
unfolding cancel_t2_prime_tx select_for_update
cancel_t2_prime_tx-TxInv row op s fresh h c v = elim (Option-cases fresh.pending_op) [
  | inl e ↦ simp (h, e) (untouched s v)
  | inr (current, e) ↦
      let kept =
        update-TxInv (owned row fresh op (t2_prime_patch fresh current)) s fresh h
          (λ x m. Shrinks-Apart fresh _ x (t2_prime-Shrinks fresh current))
          (t2_prime-HoldsCf fresh current c) v in
      simp (h, e) kept
]

-- T2' of a cancel keeps the rows of the store apart and CF-1 to CF-3 of each, provided that the row
-- that it reads has a finalized creation or carries its unfinished one; in particular it never
-- leaves a confirmed row without an op whose creation is neither finalized nor open.
pub cancel_t2_prime_tx-Inv :
    (row : BookingRow) (op : PendingOp) (s : MemoryBookingStore) (fresh : BookingRow)
    → get_by_id s row.id ≡ some fresh
    → is_carried fresh ≡ true
    → Inv s
    → Inv (locked {E = Failure} (returning (cancel_t2_prime_tx row op)) s).1
unfolding locked
cancel_t2_prime_tx-Inv row op s fresh h c v =
    (cancel_t2_prime_tx-TxInv row op s fresh h c v).committed

-- The create that T2' restores has a generation above that of the carried create and that of the
-- cancel, so neither worker owns it; it is stale as soon as the carried create is; and its ledger
-- has every attempt of the carried create and every unresolved insert of the cancel.
pub restored_create-takeable :
    (carry : UnfinishedCreate) (current : PendingOp) (time : ℕ) (a : Attempt)
    → (In a carry.attempts ⊎ (In a current.attempts × (is_unresolved_insert a ≡ true)))
    → let op = restored_create carry current in
      (carry.gen < op.gen)
      × (current.gen < op.gen)
      × (is_stale_op op time ≡ ltb (carry.started_at + op_stale_ms) time)
      × In a op.attempts
unfolding restored_create is_stale_op
restored_create-takeable carry current time a (inl m) =
    (ground arith, ground arith, refl, In-append_left a _ _ m)
restored_create-takeable carry current time a (inr (m, t)) = (
  ground arith,
  ground arith,
  refl,
  In-append_right a carry.attempts _ (filter-In is_unresolved_insert a current.attempts m t),
)
