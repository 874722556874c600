-- ===== src/Booking/Reconcile.antt =====
-- lib/booking/create.ts: the reconciliation of a T1 whose answer was lost.
use marlo_scheduling.Prelude.{ℕ, ◌≡◌, refl, none, arith, Bool-cases, Option-cases, inl, inr}
use marlo_scheduling.Rows.{RejectionReason, slot_unavailable}
use marlo_scheduling.Store.{
  MemoryBookingStore, MemoryTx, commit, lookup_key, lookup_rejection, new_row,
}
use marlo_scheduling.Lifecycle.Busy.{busy_overlaps}
use marlo_scheduling.Lifecycle.Create.{CreateBookingRequest, T1Result, fenced, failed, interval_of}
use marlo_scheduling.Lifecycle.Create.T1.{
  T1Input, t1_tx, t1_new, insert_new, reject, is_managed_busy, new_booking, create_op, reconcile_tx,
  reconciled_row,
}
use marlo_scheduling.Booking.Transactions.{opened}
use marlo_scheduling.Booking.Idempotency.{
  committed_after, row_of, reject-lookup, insert_new-lookup, missing,
}

-- What the reconciliation of a committed T1 answers.
unfoldable pub reconciled_answer : T1Result → T1Result
reconciled_answer (T1Result.rejected reason) = fenced reason
reconciled_answer r = r

abbrev Reconciles : CreateBookingRequest → T1Input → T1Result × MemoryTx → Type 0
Reconciles request input first =
    reconcile_tx request input.fingerprint input.op_id (opened (committed_after first))
    ≡ reconciled_answer first.0

module _ (request : CreateBookingRequest) (input : T1Input) (t : ℕ) (s : MemoryBookingStore)
    (absent : row_of request s ≡ none) where
  rejected-Reconciles :
      (reason : RejectionReason)
      → Reconciles request input (reject request input.fingerprint reason (opened s))
  unfolding reconcile_tx reconciled_answer reject commit lookup_key
  rejected-Reconciles reason = rw (absent, reject-lookup request input.fingerprint reason s) refl

  inserted-Reconciles : Reconciles request input (insert_new request input t (opened s))
  unfolding reconcile_tx reconciled_answer insert_new lookup_key commit
  inserted-Reconciles =
      rw (insert_new-lookup request input t s)
        (unfold reconciled_row new_row new_booking create_op in ground arith)

  new-Reconciles : Reconciles request input (t1_new request input t (opened s))
  unfolding t1_new
  new-Reconciles = elim (Option-cases input.gated) [
    | inr (reason, e) ↦ rw (e, t1_new) (rejected-Reconciles reason)
    | inl e ↦ elim (Bool-cases (busy_overlaps (interval_of request) input.external)) [
      | inl f ↦ rw (e, f, t1_new) (rejected-Reconciles slot_unavailable)
      | inr f ↦ elim (Bool-cases (is_managed_busy request (opened s))) [
        | inl g ↦ rw (e, f, g, t1_new) (rejected-Reconciles slot_unavailable)
        | inr g ↦ rw (e, f, g, t1_new) inserted-Reconciles
      ]
    ]
  ]

-- A T1 of a key without a row and without a rejection whose COMMIT answer is lost is reconciled
-- truly: if it was committed, the answer is the one of T1 itself (its own row, op and attempt as
-- inserted, or the reason of its rejection); if it was rolled back, the answer is `failed`.
pub reconcile_tx-truthful :
    (request : CreateBookingRequest) (input : T1Input) (t : ℕ) (s : MemoryBookingStore)
    → lookup_rejection (opened s) request.owner_id request.idempotency_key input.fingerprint ≡ none
    → lookup_key (opened s) request.owner_id request.idempotency_key ≡ none
    → let (first, tx) = t1_tx request input t (opened s) in
      (reconcile_tx request input.fingerprint input.op_id (opened (commit tx.writes tx.store))
        ≡ reconciled_answer first)
      × (reconcile_tx request input.fingerprint input.op_id (opened s) ≡ failed)
unfolding reconciled_answer
reconcile_tx-truthful request input t s e f = (
  rw (missing request input t s e f) (new-Reconciles request input t s f),
  unfold reconcile_tx lookup_key lookup_rejection in rw (f, e) refl,
)
