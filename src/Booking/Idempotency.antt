-- ===== src/Booking/Idempotency.antt =====
-- lib/booking/create.ts: T1 settles an idempotency key for good.
use marlo_scheduling.Prelude.{
  ℕ, ◌≡◌, refl, Option, none, some, arith, Bool-cases, Option-cases, inl, inr, find-put_self,
}
use marlo_scheduling.Rows.{Key, BookingRow, RejectionReason, slot_unavailable}
use marlo_scheduling.Store.{
  MemoryBookingStore, MemoryTx, commit, lookup_key, lookup_rejection, get_by_id, new_row,
  has_fence_key, has_idempotency_key, has_id,
}
use marlo_scheduling.Lifecycle.Busy.{busy_overlaps}
use marlo_scheduling.Lifecycle.Create.{
  CreateBookingRequest, T1Result, inserted, existing, fenced, interval_of,
}
use marlo_scheduling.Lifecycle.Create.T1.{
  T1Input, t1_tx, t1_new, insert_new, reject, is_managed_busy, new_booking,
}
use marlo_scheduling.Booking.Transactions.{opened}

abbrev pub committed_after : T1Result × MemoryTx → MemoryBookingStore
committed_after (r, tx) = commit tx.writes tx.store

-- What a second T1 of the key answers.
unfoldable pub second_answer : T1Result → T1Result
second_answer (inserted row op a) = existing row
second_answer (T1Result.rejected reason) = fenced reason
second_answer r = r

abbrev pub rejection_of : CreateBookingRequest → Key → MemoryBookingStore → Option RejectionReason
rejection_of request fp s = lookup_rejection (opened s) request.owner_id request.idempotency_key fp

abbrev pub row_of : CreateBookingRequest → MemoryBookingStore → Option BookingRow
row_of request s = lookup_key (opened s) request.owner_id request.idempotency_key

pub reject-lookup :
    (request : CreateBookingRequest) (fp : Key) (reason : RejectionReason) (s : MemoryBookingStore)
    → rejection_of request fp (committed_after (reject request fp reason (opened s))) ≡ some reason
unfolding reject commit lookup_rejection
reject-lookup request fp reason s =
    rw
      (
        find-put_self (has_fence_key request.owner_id request.idempotency_key fp)
            (record {
              owner_id = request.owner_id;
              idempotency_key = request.idempotency_key;
              create_fingerprint = fp;
              reason = reason;
            })
            s.rejected_keys (ground arith),
        lookup_rejection,
      )
      refl

insert_new-rejection :
    (request : CreateBookingRequest) (input : T1Input) (t : ℕ) (fp : Key) (s : MemoryBookingStore)
    → rejection_of request fp (committed_after (insert_new request input t (opened s)))
      ≡ rejection_of request fp s
unfolding insert_new commit lookup_rejection
insert_new-rejection request input t fp s = refl

pub insert_new-lookup :
    (request : CreateBookingRequest) (input : T1Input) (t : ℕ) (s : MemoryBookingStore)
    → row_of request (committed_after (insert_new request input t (opened s)))
      ≡ some (new_row (new_booking request input t))
unfolding insert_new new_booking interval_of commit lookup_key get_by_id
insert_new-lookup request input t s =
    let row = new_row (new_booking request input t) in
    let entry =
      find-put_self (has_idempotency_key request.owner_id request.idempotency_key)
        (record {
          owner_id = request.owner_id;
          idempotency_key = request.idempotency_key;
          id = input.booking_id;
        })
        s.by_idempotency_key (ground arith) in
    let stored =
      find-put_self (has_id input.booking_id) row s.rows
        (unfold new_row new_booking in ground arith) in
    rw (entry, stored) refl

fenced-again :
    (request : CreateBookingRequest) (input : T1Input) (t : ℕ) (s : MemoryBookingStore)
    (reason : RejectionReason)
    → rejection_of request input.fingerprint s ≡ some reason
    → t1_tx request input t (opened s) ≡ (fenced reason, opened s)
unfolding t1_tx lookup_rejection lookup_key
fenced-again request input t s reason e = rw e refl

existing-again :
    (request : CreateBookingRequest) (input : T1Input) (t : ℕ) (s : MemoryBookingStore)
    (row : BookingRow)
    → rejection_of request input.fingerprint s ≡ none
    → row_of request s ≡ some row
    → t1_tx request input t (opened s) ≡ (existing row, opened s)
unfolding t1_tx lookup_rejection lookup_key
existing-again request input t s row e f = rw (e, f) refl

pub missing :
    (request : CreateBookingRequest) (input : T1Input) (t : ℕ) (s : MemoryBookingStore)
    → rejection_of request input.fingerprint s ≡ none
    → row_of request s ≡ none
    → t1_tx request input t (opened s) ≡ t1_new request input t (opened s)
unfolding t1_tx lookup_rejection lookup_key
missing request input t s e f = rw (e, f) refl

-- The answer and the store of a second T1, after the commit of one that ended as `first`.
abbrev Settles :
    CreateBookingRequest → T1Input → ℕ → MemoryBookingStore → T1Result × MemoryTx → Type 0
Settles request again later s first =
    t1_tx request again later (opened (committed_after first))
    ≡ (second_answer first.0, opened (committed_after first))

module _ (request : CreateBookingRequest) (again : T1Input) (later : ℕ)
    (s : MemoryBookingStore) where
  rejected-Settles :
      (fp : Key) (reason : RejectionReason)
      → again.fingerprint ≡ fp
      → Settles request again later s (reject request fp reason (opened s))
  unfolding second_answer reject
  rejected-Settles fp reason same =
      fenced-again request again later _ reason (rw same (reject-lookup request fp reason s))

  inserted-Settles :
      (input : T1Input) (t : ℕ)
      → rejection_of request again.fingerprint s ≡ none
      → Settles request again later s (insert_new request input t (opened s))
  unfolding second_answer insert_new
  inserted-Settles input t free =
      existing-again request again later _ _
        (rw (insert_new-rejection request input t again.fingerprint s) free)
        (insert_new-lookup request input t s)

  new-Settles :
      (input : T1Input) (t : ℕ)
      → again.fingerprint ≡ input.fingerprint
      → rejection_of request again.fingerprint s ≡ none
      → Settles request again later s (t1_new request input t (opened s))
  unfolding t1_new
  new-Settles input t same free = elim (Option-cases input.gated) [
    | inr (reason, e) ↦ rw (e, t1_new) (rejected-Settles input.fingerprint reason same)
    | inl e ↦ elim (Bool-cases (busy_overlaps (interval_of request) input.external)) [
      | inl f ↦ rw (e, f, t1_new) (rejected-Settles input.fingerprint slot_unavailable same)
      | inr f ↦ elim (Bool-cases (is_managed_busy request (opened s))) [
        | inl g ↦ rw (e, f, g, t1_new) (rejected-Settles input.fingerprint slot_unavailable same)
        | inr g ↦ rw (e, f, g, t1_new) (inserted-Settles input t free)
      ]
    ]
  ]

-- T1 settles its key. Once a T1 is committed, a later T1 of the same request and fingerprint, with
-- other ids and at any time, writes nothing and answers what the first settled: the row that the
-- first inserted or found, or the reason of its rejection.
pub t1_tx-settles :
    (request : CreateBookingRequest) (input again : T1Input) (t later : ℕ) (s : MemoryBookingStore)
    → again.fingerprint ≡ input.fingerprint
    → let (first, tx) = t1_tx request input t (opened s) in
      let after = commit tx.writes tx.store in
      t1_tx request again later (opened after) ≡ (second_answer first, opened after)
unfolding second_answer commit
t1_tx-settles request input again t later s same =
    elim (Option-cases (rejection_of request input.fingerprint s)) [
      | inr (reason, e) ↦
          rw (fenced-again request input t s reason e)
            (fenced-again request again later s reason (rw same e))
      | inl e ↦ elim (Option-cases (row_of request s)) [
        | inr (row, f) ↦
            rw (existing-again request input t s row e f)
              (existing-again request again later s row (rw same e) f)
        | inl f ↦
            rw (missing request input t s e f)
              (new-Settles request again later s input t same (rw same e))
      ]
    ]
