-- ===== src/Booking/Carried.antt =====
-- lib/booking/cancel.ts: the transactions that begin a cancel.
use marlo_scheduling.Prelude.{
  ◌≡◌, refl, ap, Bool, true, ◌||◌, Option, some, arith, either_of, ==-refl, Bool-cases, inl, inr,
}
use marlo_scheduling.Rows.{
  Key, Instant, BookingRow, PendingOp, UnfinishedCreate, is_create, is_confirmed, holds_invariants,
}
use marlo_scheduling.Store.{
  MemoryBookingStore, MemoryTx, Result, ok, commit, locked, get_by_id, apply_patch, apply_write,
  may_update, select_for_update, on_row, patch_row, queue, owns,
}
use marlo_scheduling.Store.Occupancy.{Occupies}
use marlo_scheduling.Lifecycle.Errors.{Failure}
use marlo_scheduling.Lifecycle.Ops.{returning}
use marlo_scheduling.Lifecycle.Cancel.{carried_create}
use marlo_scheduling.Lifecycle.Cancel.T1.{
  start_patch, replace_inherited_tx, replacing_update, replacing_patch,
}
use marlo_scheduling.Booking.Invariant.{Inv, Shrinks}
use marlo_scheduling.Booking.Writes.{HoldsCf}
use marlo_scheduling.Booking.Transactions.{opened, locked-ok}
use marlo_scheduling.Booking.Owned.{Shrinks-Apart, get_by_id_self, on_row_found-Inv, on_row-stored}
use marlo_scheduling.Booking.Cancelled.{is_carried}

pub start-Shrinks :
    (row : BookingRow) (op : PendingOp) → Shrinks row (apply_patch (start_patch op) row)
unfolding Occupies apply_patch
start-Shrinks row op = record { same_id = refl; same_host = refl; within = λ i h. h }

module _ (row fresh : BookingRow) (inherited op : PendingOp) (event_id : Key) (started_at : Instant)
    (release : Bool) where
  abbrev carry_of : Option UnfinishedCreate
  carry_of = either_of (carried_create row inherited event_id started_at) row.unfinished_create

  abbrev pub replaced_row : BookingRow
  replaced_row = apply_patch (replacing_patch op carry_of release) fresh

  pub replaced-Shrinks : Shrinks fresh replaced_row
  unfolding Occupies apply_patch replacing_patch
  replaced-Shrinks = elim (Bool-cases release) [
    | inl t ↦ rw t (record { same_id = refl; same_host = refl; within = λ i. ground arith })
    | inr t ↦ rw t (record { same_id = refl; same_host = refl; within = λ i h. h })
  ]

  module _ (l : fresh.latest_action ≡ row.latest_action)
      (u : fresh.unfinished_create ≡ row.unfinished_create) where
    replaced-HoldsCf : HoldsCf fresh → HoldsCf replaced_row
    unfolding holds_invariants apply_patch replacing_patch
    replaced-HoldsCf h = ground arith

    replaced-carried :
        (is_create inherited.kind || is_carried row) ≡ true → is_carried replaced_row ≡ true
    unfolding apply_patch replacing_patch
    replaced-carried c = ground arith

module _ (row fresh : BookingRow) (inherited op : PendingOp) (event_id : Key) (started_at : Instant)
    (release : Bool) (s : MemoryBookingStore) (h : get_by_id s row.id ≡ some fresh)
    (o : owns fresh inherited.op_id (some inherited.gen) ≡ true) (r : fresh.revision ≡ row.revision)
    (c : is_confirmed fresh.status ≡ true) where
  abbrev carry : Option UnfinishedCreate
  carry = carry_of row fresh inherited op event_id started_at release

  may_replace : may_update (replacing_update row inherited fresh op carry release) fresh ≡ true
  unfolding may_update replacing_update
  may_replace = simp (o, r, c, ==-refl row.revision) refl

  replace_inherited_tx-owner :
      replace_inherited_tx row inherited op carry release (opened s)
      ≡ (true, queue (opened s) (patch_row fresh.id (replacing_patch op carry release)))
  unfolding replace_inherited_tx select_for_update replacing_update
  replace_inherited_tx-owner = simp (h, get_by_id_self s row.id fresh h, may_replace) refl

  replaced_after :
      locked {E = Failure} (returning (replace_inherited_tx row inherited op carry release)) s
      ≡ (ok true, on_row fresh.id (apply_patch (replacing_patch op carry release)) s)
  unfolding commit apply_write
  replaced_after = locked-ok _ s _ _ (ap answered replace_inherited_tx-owner)
    where
      answered : Bool × MemoryTx → Result Failure Bool × MemoryTx
      answered p = (ok p.0, p.1)

-- A cancel that replaces the op that it took over loses no unfinished creation. If the row is as T1
-- read it (the taken op, revision, confirmed status, latest action and carried create), and the op
-- was a create or the row's creation was finalized or carried, then the row is stored with the
-- cancel's op and its creation is finalized or carried; the rows stay apart and keep CF-1 to CF-3.
pub replace_inherited_tx-carries :
    (row fresh : BookingRow) (inherited op : PendingOp) (event_id : Key) (started_at : Instant)
    (release : Bool) (s : MemoryBookingStore)
    → get_by_id s row.id ≡ some fresh
    → owns fresh inherited.op_id (some inherited.gen) ≡ true
    → fresh.revision ≡ row.revision
    → is_confirmed fresh.status ≡ true
    → fresh.latest_action ≡ row.latest_action
    → fresh.unfinished_create ≡ row.unfinished_create
    → (is_create inherited.kind || is_carried row) ≡ true
    → Inv s
    → let carry =
        either_of (carried_create row inherited event_id started_at) row.unfinished_create in
      let stored = apply_patch (replacing_patch op carry release) fresh in
      let (answer, after) =
        locked {E = Failure} (returning (replace_inherited_tx row inherited op carry release)) s in
      (answer ≡ ok true)
      × (get_by_id after fresh.id ≡ some stored)
      × (stored.pending_op ≡ some op)
      × (is_carried stored ≡ true)
      × Inv after
unfolding apply_patch replacing_patch
replace_inherited_tx-carries row fresh inherited op event_id started_at release s h o r c l u k v =
    let self = get_by_id_self s row.id fresh h in
    let patch =
      replacing_patch op (carry_of row fresh inherited op event_id started_at release) release in
    rw (replaced_after row fresh inherited op event_id started_at release s h o r c) (
      refl,
      on_row-stored fresh.id patch s fresh self,
      refl,
      replaced-carried row fresh inherited op event_id started_at release l u k,
      on_row_found-Inv fresh.id (apply_patch patch) s fresh self
          (λ x m.
            Shrinks-Apart fresh _ x
              (replaced-Shrinks row fresh inherited op event_id started_at release))
          (replaced-HoldsCf row fresh inherited op event_id started_at release l u) v,
    )
