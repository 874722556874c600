-- ===== src/Lifecycle/Create/T1.antt =====
-- lib/booking/create.ts: the transactions L0 and T1 of a create, and the reconciliation of a T1
-- whose answer was lost.
use marlo_scheduling.Prelude.{
  ℕ, Bool, ◌&&◌, Option, none, some, List, [], ◌∷◌, ◌==◌, if◌then◌else◌, find,
}
use marlo_scheduling.Rows.{
  Key, BookingRow, PendingOp, Attempt, Interval, RejectionReason, OpKind, is_create, is_insert,
  insert, slot_unavailable,
}
use marlo_scheduling.Store.{
  ok, MemoryTx, NewBookingRow, lookup_key, lookup_rejection, insert_rejection, insert_booking,
  occupancy_sync,
}
use marlo_scheduling.Lifecycle.Errors.{
  Failure, outcome_unknown, outcome_unresolved, error_of, lifecycle, unknown_commit,
}
use marlo_scheduling.Lifecycle.Errors
use marlo_scheduling.Lifecycle.World.{
  Step, throw, throw_error, catch, with_host_lock, with_finished_transaction,
}
use marlo_scheduling.Lifecycle.Ops.{begin_op, no_fields, new_attempt, returning}
use marlo_scheduling.Lifecycle.Busy.{busy_overlaps}
use marlo_scheduling.Lifecycle.Create.Types.{
  CreateBookingRequest, T1Result, inserted, existing, rejected, fenced, failed, interval_of,
}

pub data L0Result : Type 0 where
  l0_fenced : RejectionReason → L0Result
  l0_existing : BookingRow → L0Result
  l0_missing : L0Result

unfoldable pub l0_tx : CreateBookingRequest → Key → MemoryTx → L0Result
l0_tx request fingerprint tx =
    elim (lookup_rejection tx request.owner_id request.idempotency_key fingerprint) [
      | some reason ↦ l0_fenced reason
      | none ↦ elim (lookup_key tx request.owner_id request.idempotency_key) [
        | some row ↦ l0_existing row
        | none ↦ l0_missing
      ]
    ]

-- What T1 is given: the ids drawn for it, the gate's decision and the external busy times.
pub record T1Input : Type 0 where
  pub fingerprint : Key
  pub gated : Option RejectionReason
  pub external : List Interval
  pub intended_id : Key
  pub op_id : Key
  pub booking_id : Key
  pub token : Key
  pub attempt_id : Key

unfoldable pub fence_rejection : CreateBookingRequest → Key → RejectionReason → MemoryTx → MemoryTx
unfolding insert_rejection
fence_rejection request fingerprint reason tx =
    insert_rejection
      (record {
        owner_id = request.owner_id;
        idempotency_key = request.idempotency_key;
        create_fingerprint = fingerprint;
        reason = reason;
      })
      tx

unfoldable pub reject :
    CreateBookingRequest → Key → RejectionReason → MemoryTx → T1Result × MemoryTx
unfolding fence_rejection
reject request fingerprint reason tx =
    (rejected reason, fence_rejection request fingerprint reason tx)

-- The op of a create, its first insert attempt included.
unfoldable pub create_op : T1Input → ℕ → PendingOp
unfolding begin_op new_attempt
create_op input time =
    record (begin_op OpKind.create time input.op_id
      (record no_fields { event_id = some input.intended_id })) {
        attempts = new_attempt input.attempt_id insert input.intended_id 1 time none ∷ [];
      }

unfoldable pub new_booking : CreateBookingRequest → T1Input → ℕ → NewBookingRow
unfolding create_op interval_of
new_booking request input time = record {
  id = input.booking_id;
  token = input.token;
  idempotency_key = request.idempotency_key;
  create_fingerprint = input.fingerprint;
  owner_id = request.owner_id;
  event_type_id = request.event_type_id;
  host_id = request.host_id;
  start = (interval_of request).start;
  end = (interval_of request).end;
  google_event_id = input.intended_id;
  pending_op = create_op input time;
  invitee_name = request.invitee_name;
  invitee_email = request.invitee_email;
  notes = request.notes;
  metadata = request.metadata;
  created_at = time;
}

unfoldable pub insert_new : CreateBookingRequest → T1Input → ℕ → MemoryTx → T1Result × MemoryTx
unfolding new_booking insert_booking
insert_new request input time tx =
    let (row, tx') = insert_booking (new_booking request input time) tx in
    (inserted row (create_op input time) input.attempt_id, tx')

-- The locked re-check of the managed occupancy.
unfoldable pub is_managed_busy : CreateBookingRequest → MemoryTx → Bool
unfolding busy_overlaps interval_of
is_managed_busy request tx = busy_overlaps (interval_of request) (
    occupancy_sync tx.store (record {
      host_id = request.host_id;
      window = interval_of request;
      exclude_booking_id = none;
    }))

-- T1 of a key that has neither a fence nor a row.
unfoldable pub t1_new : CreateBookingRequest → T1Input → ℕ → MemoryTx → T1Result × MemoryTx
unfolding reject insert_new is_managed_busy busy_overlaps
t1_new request input time tx = elim input.gated [
  | some reason ↦ reject request input.fingerprint reason tx
  | none ↦
      if busy_overlaps (interval_of request) input.external
      then reject request input.fingerprint slot_unavailable tx
      else if is_managed_busy request tx
      then reject request input.fingerprint slot_unavailable tx
      else insert_new request input time tx
]

unfoldable pub t1_tx : CreateBookingRequest → T1Input → ℕ → MemoryTx → T1Result × MemoryTx
unfolding t1_new
t1_tx request input time tx =
    elim (lookup_rejection tx request.owner_id request.idempotency_key input.fingerprint) [
      | some reason ↦ (fenced reason, tx)
      | none ↦ elim (lookup_key tx request.owner_id request.idempotency_key) [
        | some row ↦ (existing row, tx)
        | none ↦ t1_new request input time tx
      ]
    ]

-- The row that a reconciliation finds is this worker's own if it carries its op.
unfoldable pub reconciled_row : Key → BookingRow → T1Result
reconciled_row op_id row = elim row.pending_op [
  | none ↦ existing row
  | some op ↦
      if is_create op.kind && (op.op_id == op_id)
      then elim (find (λ (a : Attempt). is_insert a.kind) op.attempts) [
        | none ↦ existing row
        | some a ↦ inserted row op a.attempt_id
      ]
      else existing row
]

unfoldable pub reconcile_tx : CreateBookingRequest → Key → Key → MemoryTx → T1Result
unfolding reconciled_row
reconcile_tx request fingerprint op_id tx =
    elim (lookup_key tx request.owner_id request.idempotency_key) [
      | some row ↦ reconciled_row op_id row
      | none ↦ elim (lookup_rejection tx request.owner_id request.idempotency_key fingerprint) [
        | some reason ↦ fenced reason
        | none ↦ failed
      ]
    ]

module _ {C : Type 0} where
  abbrev pub unresolved_t1 : Failure → Step C T1Result
  unresolved_t1 outcome_unresolved = throw_error outcome_unknown
  unresolved_t1 e = throw e

  unfoldable pub reconcile_t1 : CreateBookingRequest → Key → Key → Step C T1Result
  unfolding reconcile_tx
  reconcile_t1 request fingerprint op_id =
      catch
        (with_finished_transaction request.host_id
          λ time tx. (ok (reconcile_tx request fingerprint op_id tx), tx))
        unresolved_t1

  abbrev pub after_failed_t1 : CreateBookingRequest → T1Input → Failure → Step C T1Result
  after_failed_t1 request input unknown_commit = reconcile_t1 request input.fingerprint input.op_id
  after_failed_t1 request input (lifecycle e) = throw_error e
  after_failed_t1 request input e = throw_error (error_of Errors.booking_failed)

  unfoldable pub run_t1 : CreateBookingRequest → T1Input → Step C T1Result
  unfolding t1_tx reconcile_t1
  run_t1 request input =
      catch (with_host_lock request.host_id λ time. returning (t1_tx request input time))
        (after_failed_t1 request input)
