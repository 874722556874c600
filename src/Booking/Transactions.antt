-- ===== src/Booking/Transactions.antt =====
-- The locked transactions of lib/booking/ops.ts and lib/booking/create.ts keep the invariant of the
-- store, whether they commit or throw.
use marlo_scheduling.Prelude.{
  ℕ, ◌+◌, ◌≡◌, ap, Bool, true, false, Option, none, some, List, [], ◌∷◌, Bool-cases, Option-cases,
  inl, inr, any,
}
use marlo_scheduling.Rows.{
  Key, BookingRow, PendingOp, OpKind, Attempt, AttemptOutcome, CalendarState, is_pending,
  retained_from, is_stale_op, RejectionReason, slot_unavailable,
}
use marlo_scheduling.Store.{
  Result-cases, MemoryBookingStore, MemoryTx, Write, Result, ok, err, locked, commit, queue,
  queue_if, when_row, append_attempt, resolve_attempt, take_over, update, get_by_id, lookup_key,
  lookup_rejection, select_for_update, may_update,
}
use marlo_scheduling.Lifecycle.Errors.{Failure}
use marlo_scheduling.Lifecycle.Ops.{take_over_op, acquire_tx, acquire_from, same_kind}
use marlo_scheduling.Lifecycle.Busy.{busy_overlaps}
use marlo_scheduling.Lifecycle.Create.{CreateBookingRequest, interval_of}
use marlo_scheduling.Lifecycle.Create.T1.{
  T1Input, t1_tx, t1_new, insert_new, reject, new_booking, is_managed_busy,
}
use marlo_scheduling.Lifecycle.Create.T2.{
  complete_create_tx, complete_fresh, completion_update, finalized,
}
use marlo_scheduling.Lifecycle.Reap.{stamp_tx, stamp_batch, select_batch_tx, select_listed_tx}
use marlo_scheduling.Booking.Invariant.{Inv}
use marlo_scheduling.Booking.Writes.{
  KeepingWrite, keeps_rejection, keeps_renewal, keeps_attempt, keeps_settled, keeps_completion,
  keeps_booking, apply_write-Inv, new_row-Clear, new_row-HoldsCf, stamp_reap_batch-Inv,
}

abbrev pub Transaction : Type 0 → Type 0
Transaction A = MemoryTx → A × MemoryTx

abbrev pub opened : MemoryBookingStore → MemoryTx
opened s = record { store = s; writes = [] }

-- The store keeps the invariant if the transaction is dropped, and if it is committed.
pub record TxInv (tx : MemoryTx) : Type 0 where
  pub dropped : Inv tx.store
  pub committed : Inv (commit tx.writes tx.store)

abbrev pub TxKeeps : {A : Type 0} → Transaction A → Type 0
TxKeeps fn = (s : MemoryBookingStore) → Inv s → TxInv (fn (opened s)).1

pub locked-Inv :
    {E A : Type 0} (fn : MemoryTx → Result E A × MemoryTx) (s : MemoryBookingStore)
    → TxKeeps fn
    → Inv s
    → Inv (locked fn s).1
unfolding locked
locked-Inv fn s k v = elim (Result-cases (fn (opened s)).0) [
  | inl (a, e) ↦ rw (e, locked) (k s v).committed
  | inr (x, e) ↦ rw (e, locked) (k s v).dropped
]

pub untouched : (s : MemoryBookingStore) → Inv s → TxInv (opened s)
unfolding commit
untouched s v = record { dropped = v; committed = v }

queued :
    (s : MemoryBookingStore) (write : Write)
    → KeepingWrite s write
    → Inv s
    → TxInv (queue (opened s) write)
unfolding commit
queued s write k v = record { dropped = v; committed = apply_write-Inv k v }

queue_if-TxInv :
    (b : Bool) (write : Write) (s : MemoryBookingStore)
    → KeepingWrite s write
    → Inv s
    → TxInv (queue_if b write (opened s)).1
queue_if-TxInv true write s k v = queued s write k v
queue_if-TxInv false write s k v = untouched s v

pub append_attempt-TxKeeps :
    (id op_id : Key) (gen : ℕ) (a : Attempt) → TxKeeps (append_attempt id op_id gen a)
unfolding append_attempt
append_attempt-TxKeeps id op_id gen a s v = queue_if-TxInv _ _ s (keeps_attempt id op_id a) v

pub resolve_attempt-TxKeeps :
    (id op_id : Key) (gen : ℕ) (a : Key) (outcome : AttemptOutcome) (t : ℕ)
    → TxKeeps (resolve_attempt id op_id gen a outcome t)
unfolding resolve_attempt
resolve_attempt-TxKeeps id op_id gen a outcome t s v =
    queue_if-TxInv _ _ s (keeps_settled id a outcome t) v

pub take_over_op-TxKeeps :
    (row : BookingRow) (op : PendingOp) (t : ℕ) → TxKeeps (take_over_op row op t)
unfolding take_over_op take_over
take_over_op-TxKeeps row op t s v =
    queue_if-TxInv _ _ s (keeps_renewal row.id op.op_id (op.gen + 1) t) v

pub acquire_from-TxKeeps :
    (kinds : List OpKind) (t : ℕ) (row : Option BookingRow) → TxKeeps (acquire_from kinds t row)
unfolding acquire_from
acquire_from-TxKeeps kinds t none s v = untouched s v
acquire_from-TxKeeps kinds t (some row) s v = elim (Option-cases row.pending_op) [
  | inl e ↦ rw e (untouched s v)
  | inr (op, e) ↦ elim (Bool-cases (any (same_kind op.kind) kinds)) [
    | inr f ↦ rw (e, f) (untouched s v)
    | inl f ↦ elim (Bool-cases (is_stale_op op t)) [
      | inr g ↦ rw (e, f, g) (untouched s v)
      | inl g ↦ rw (e, f, g) (take_over_op-TxKeeps row op t s v)
    ]
  ]
]

pub acquire_tx-TxKeeps : (id : Key) (kinds : List OpKind) (t : ℕ) → TxKeeps (acquire_tx id kinds t)
unfolding acquire_tx
acquire_tx-TxKeeps id kinds t s v = acquire_from-TxKeeps kinds t _ s v

reject-TxKeeps :
    (request : CreateBookingRequest) (fp : Key) (reason : RejectionReason)
    → TxKeeps (reject request fp reason)
unfolding reject
reject-TxKeeps request fp reason s v = queued s _ (keeps_rejection _) v

-- T1 inserts a row only over an interval that the host's occupancy leaves free.
insert_new-TxInv :
    (request : CreateBookingRequest) (input : T1Input) (t : ℕ) (s : MemoryBookingStore)
    → is_managed_busy request (opened s) ≡ false
    → Inv s
    → TxInv (insert_new request input t (opened s)).1
unfolding insert_new is_managed_busy
insert_new-TxInv request input t s free v =
    queued s _
      (keeps_booking _ (new_row-Clear s (new_booking request input t) free)
        (new_row-HoldsCf (new_booking request input t)))
      v

t1_new-TxKeeps :
    (request : CreateBookingRequest) (input : T1Input) (t : ℕ) → TxKeeps (t1_new request input t)
unfolding t1_new
t1_new-TxKeeps request input t s v = elim (Option-cases input.gated) [
  | inr (reason, e) ↦ rw e (reject-TxKeeps request input.fingerprint reason s v)
  | inl e ↦ elim (Bool-cases (busy_overlaps (interval_of request) input.external)) [
    | inl f ↦ rw (e, f) (reject-TxKeeps request input.fingerprint slot_unavailable s v)
    | inr f ↦ elim (Bool-cases (is_managed_busy request (opened s))) [
      | inl g ↦ rw (e, f, g) (reject-TxKeeps request input.fingerprint slot_unavailable s v)
      | inr g ↦ rw (e, f, g) (insert_new-TxInv request input t s g v)
    ]
  ]
]

pub t1_tx-TxKeeps :
    (request : CreateBookingRequest) (input : T1Input) (t : ℕ) → TxKeeps (t1_tx request input t)
unfolding t1_tx lookup_rejection lookup_key
t1_tx-TxKeeps request input t s v =
    elim (Option-cases
      (lookup_rejection (opened s) request.owner_id request.idempotency_key input.fingerprint)) [
        | inr (reason, e) ↦ rw e (untouched s v)
        | inl e ↦
            elim (Option-cases (lookup_key (opened s) request.owner_id request.idempotency_key)) [
              | inr (row, f) ↦ rw (e, f) (untouched s v)
              | inl f ↦ rw (e, f) (t1_new-TxKeeps request input t s v)
            ]
      ]

stamp_batch-TxKeeps :
    (fresh : BookingRow) (ids : List Key) (max t : ℕ) → TxKeeps (stamp_batch fresh ids max t)
unfolding stamp_batch stamp_tx commit
stamp_batch-TxKeeps fresh [] max t s v = untouched s v
stamp_batch-TxKeeps fresh (id ∷ ids) max t s v =
    let kept = stamp_reap_batch-Inv s fresh.id _ t v in record { dropped = kept; committed = kept }

pub select_batch_tx-TxKeeps : (id : Key) (max t : ℕ) → TxKeeps (select_batch_tx id max t)
unfolding select_batch_tx select_for_update
select_batch_tx-TxKeeps id max t s v = elim (Option-cases (select_for_update (opened s) id)) [
  | inl e ↦ rw e (untouched s v)
  | inr (row, e) ↦ rw e (stamp_batch-TxKeeps row _ max t s v)
]

pub select_listed_tx-TxKeeps :
    (id : Key) (listed : List Key) (max t : ℕ) → TxKeeps (select_listed_tx id listed max t)
unfolding select_listed_tx select_for_update
select_listed_tx-TxKeeps id listed max t s v =
    elim (Option-cases (select_for_update (opened s) id)) [
      | inl e ↦ rw e (untouched s v)
      | inr (row, e) ↦ rw e (stamp_batch-TxKeeps row _ max t s v)
    ]

finalized-TxInv :
    (r : Result Failure (Unit {0})) (row : BookingRow) (tx : MemoryTx)
    → TxInv tx
    → TxInv (finalized r row tx).1
finalized-TxInv (ok u) row tx h = h
finalized-TxInv (err e) row tx h = h

complete_fresh-TxKeeps :
    (on_finalize : BookingRow → Result Failure (Unit {0})) (row : BookingRow) (op : PendingOp)
    (state : CalendarState) (etag : Option Key) (fresh : BookingRow) (current : PendingOp)
    → is_pending state ≡ false
    → TxKeeps (complete_fresh on_finalize row op state etag fresh current)
unfolding complete_fresh update completion_update
complete_fresh-TxKeeps on_finalize row op state etag fresh current settled s v =
    let retained = retained_from fresh.unresolved_inserts current.attempts in
    let u = completion_update row fresh op state etag retained in
    elim (Bool-cases (when_row (may_update u) (get_by_id s row.id))) [
      | inl e ↦ rw e (finalized-TxInv _ _ _ (queued s _ (keeps_completion _ _ _ _ settled) v))
      | inr e ↦ rw e (untouched s v)
    ]

pub complete_create_tx-TxKeeps :
    (on_finalize : BookingRow → Result Failure (Unit {0})) (row : BookingRow) (op : PendingOp)
    (state : CalendarState) (etag : Option Key)
    → is_pending state ≡ false
    → TxKeeps (complete_create_tx on_finalize row op state etag)
unfolding complete_create_tx select_for_update
complete_create_tx-TxKeeps on_finalize row op state etag settled s v =
    elim (Option-cases (select_for_update (opened s) row.id)) [
      | inl e ↦ rw e (untouched s v)
      | inr (fresh, e) ↦ elim (Option-cases fresh.pending_op) [
        | inl f ↦ rw (e, f) (untouched s v)
        | inr (current, f) ↦
            rw (e, f)
              (complete_fresh-TxKeeps on_finalize row op state etag fresh current settled s v)
      ]
    ]

-- A transaction that only reads.
pub reads-TxKeeps : {A : Type 0} (read : MemoryTx → A) → TxKeeps (λ tx. (read tx, tx))
reads-TxKeeps read s v = untouched s v

pub locked-ok :
    {E A : Type 0} (fn : MemoryTx → Result E A × MemoryTx) (s : MemoryBookingStore) (a : A)
    (tx : MemoryTx)
    → fn (opened s) ≡ (ok a, tx)
    → locked fn s ≡ (ok a, commit tx.writes tx.store)
unfolding locked
locked-ok {E} {A} fn s a tx e = ap finish e
  where
    finish : Result E A × MemoryTx → Result E A × MemoryBookingStore
    finish (r, tx') = elim r [
      | ok x ↦ (ok x, commit tx'.writes tx'.store)
      | err x ↦ (err x, tx'.store)
    ]
