-- ===== src/Booking/Interleaving/Creating.antt =====
-- lib/booking/create.ts: the transactions of a create keep the store safe.
use marlo_scheduling.Prelude.{
  ℕ, ◌≡◌, refl, false, Option, some, All-put, Bool-cases, Option-cases, inl, inr,
}
use marlo_scheduling.Rows.{
  Key, BookingRow, PendingOp, RejectionReason, slot_unavailable, CalendarState, is_pending,
  retained_from, holds_invariants,
}
use marlo_scheduling.Store.{
  Result, ok, err, MemoryBookingStore, MemoryTx, apply_write, get_by_id, lookup_key,
  lookup_rejection, select_for_update, update, may_update, new_row, commit,
}
use marlo_scheduling.Lifecycle.Errors.{Failure}
use marlo_scheduling.Lifecycle.Busy.{busy_overlaps}
use marlo_scheduling.Lifecycle.Create.{CreateBookingRequest, interval_of}
use marlo_scheduling.Lifecycle.Create.T1.{
  T1Input, t1_tx, t1_new, insert_new, reject, new_booking, create_op, is_managed_busy,
}
use marlo_scheduling.Lifecycle.Create.T2.{
  complete_create_tx, complete_fresh, completion_update, finalized,
}
use marlo_scheduling.Booking.Invariant.{AllApart-put}
use marlo_scheduling.Booking.Writes.{new_row-Clear, completion-Shrinks}
use marlo_scheduling.Booking.Transactions.{opened}
use marlo_scheduling.Booking.Owned.{Shrinks-Apart}
use marlo_scheduling.Booking.Interleaving.Sound.{Sound, is_sound, completed-Sound}
use marlo_scheduling.Booking.Interleaving.Base.{TxSafe, KeepsSafe, untouched-Safe, update-TxSafe}

new_row-Sound :
    (request : CreateBookingRequest) (input : T1Input) (t : ℕ)
    → Sound (new_row (new_booking request input t))
unfolding is_sound holds_invariants new_row new_booking create_op
new_row-Sound request input t = refl

insert_new-Safe :
    (request : CreateBookingRequest) (input : T1Input) (t : ℕ) (s : MemoryBookingStore)
    → is_managed_busy request (opened s) ≡ false
    → KeepsSafe (insert_new request input t) s
unfolding insert_new is_managed_busy commit apply_write
insert_new-Safe request input t s free v =
    let row = new_row (new_booking request input t) in
    record {
      dropped = v;
      committed = record {
        apart =
            AllApart-put row s.rows (new_row-Clear s (new_booking request input t) free) v.apart;
        sound = All-put Sound _ row s.rows v.sound (new_row-Sound request input t);
      };
    }

reject-Safe :
    (request : CreateBookingRequest) (fp : Key) (reason : RejectionReason) (s : MemoryBookingStore)
    → KeepsSafe (reject request fp reason) s
unfolding reject commit apply_write
reject-Safe request fp reason s v = record {
  dropped = v;
  committed = record { apart = v.apart; sound = v.sound };
}

t1_new-Safe :
    (request : CreateBookingRequest) (input : T1Input) (t : ℕ) (s : MemoryBookingStore)
    → KeepsSafe (t1_new request input t) s
unfolding t1_new
t1_new-Safe request input t s v = elim (Option-cases input.gated) [
  | inr (reason, e) ↦ rw e (reject-Safe request input.fingerprint reason s v)
  | inl e ↦ elim (Bool-cases (busy_overlaps (interval_of request) input.external)) [
    | inl f ↦ rw (e, f) (reject-Safe request input.fingerprint slot_unavailable s v)
    | inr f ↦ elim (Bool-cases (is_managed_busy request (opened s))) [
      | inl g ↦ rw (e, f, g) (reject-Safe request input.fingerprint slot_unavailable s v)
      | inr g ↦ rw (e, f, g) (insert_new-Safe request input t s g v)
    ]
  ]
]

pub t1_tx-Safe :
    (request : CreateBookingRequest) (input : T1Input) (t : ℕ) (s : MemoryBookingStore)
    → KeepsSafe (t1_tx request input t) s
unfolding t1_tx lookup_rejection lookup_key
t1_tx-Safe request input t s v =
    elim (Option-cases
      (lookup_rejection (opened s) request.owner_id request.idempotency_key input.fingerprint)) [
        | inr (reason, e) ↦ rw e (untouched-Safe s v)
        | inl e ↦
            elim (Option-cases (lookup_key (opened s) request.owner_id request.idempotency_key)) [
              | inr (row, f) ↦ rw (e, f) (untouched-Safe s v)
              | inl f ↦ rw (e, f) (t1_new-Safe request input t s v)
            ]
      ]

finalized-Safe :
    (r : Result Failure (Unit {0})) (row : BookingRow) (tx : MemoryTx)
    → TxSafe tx
    → TxSafe (finalized r row tx).1
finalized-Safe (ok u) row tx h = h
finalized-Safe (err e) row tx h = h

module _ (on_finalize : BookingRow → Result Failure (Unit {0})) (row : BookingRow) (op : PendingOp)
    (state : CalendarState) (etag : Option Key) (settled : is_pending state ≡ false) where
  complete_fresh-Safe :
      (fresh : BookingRow) (current : PendingOp) (s : MemoryBookingStore)
      → get_by_id s row.id ≡ some fresh
      → KeepsSafe (complete_fresh on_finalize row op state etag fresh current) s
  unfolding complete_fresh update completion_update
  complete_fresh-Safe fresh current s h v =
      let retained = retained_from fresh.unresolved_inserts current.attempts in
      let u = completion_update row fresh op state etag retained in
      let kept =
        update-TxSafe u s fresh h
          (λ u x m. Shrinks-Apart fresh _ x (completion-Shrinks state etag retained fresh))
          (λ t k. completed-Sound state etag retained fresh settled) v in
      elim (Bool-cases (may_update u fresh)) [
        | inl e ↦ simp (h, e) (finalized-Safe _ _ _ (rw e at kept))
        | inr e ↦ simp (h, e) (untouched-Safe s v)
      ]

  pub complete_create_tx-Safe :
      (s : MemoryBookingStore) → KeepsSafe (complete_create_tx on_finalize row op state etag) s
  unfolding complete_create_tx select_for_update
  complete_create_tx-Safe s v = elim (Option-cases (get_by_id s row.id)) [
    | inl h ↦ simp h (untouched-Safe s v)
    | inr (fresh, h) ↦ elim (Option-cases fresh.pending_op) [
      | inl e ↦ simp (h, e) (untouched-Safe s v)
      | inr (current, e) ↦ simp (h, e) (complete_fresh-Safe fresh current s h v)
    ]
  ]
