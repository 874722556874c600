-- ===== src/Lifecycle/Cancel/T2.antt =====
-- lib/booking/cancel.ts: the completing transaction of a cancel, T2, and the one after a definite
-- refusal of the delete, T2'.
use marlo_scheduling.Prelude.{
  ℕ, ◌+◌, Bool, true, false, not, Option, none, some, List, ◌++◌, if◌then◌else◌, filter, ltb,
  or_else,
}
use marlo_scheduling.Rows.{
  BookingRow, PendingOp, UnresolvedInsert, UnfinishedCreate, OpKind, CalendarState, LatestAction,
  retained_from, is_unresolved_insert, is_confirmed,
}
use marlo_scheduling.Store.{MemoryTx, RowPatch, OwnedUpdate, select_for_update, update}
use marlo_scheduling.Lifecycle.Errors.{error_of, booking_failed}
use marlo_scheduling.Lifecycle.World.{Step, pure, throw_error, ◌>>=◌, with_host_lock}
use marlo_scheduling.Lifecycle.Ops.{returning}
use marlo_scheduling.Lifecycle.Settle.{
  settle_completion, settled_ok, settled_reconciled, settled_failed,
}
use marlo_scheduling.Lifecycle.Reap.{read_row}
use marlo_scheduling.Lifecycle.Create.T2.{Completed, empty_patch}

unfoldable pub cancel_patch : List UnresolvedInsert → RowPatch
cancel_patch retained = record empty_patch {
  cancels = true;
  calendar_state = some CalendarState.deleted;
  bump_revision = true;
  latest_action = some LatestAction.cancel;
  pending_op = some none;
  unfinished_create = some none;
  reserved_start = some none;
  reserved_end = some none;
  unresolved_inserts = some retained;
}

-- An update that the op owns, at the revision that the transaction read. `requireConfirmed` is left
-- out in the source, so the row has to be confirmed.
abbrev pub owned : BookingRow → BookingRow → PendingOp → RowPatch → OwnedUpdate
owned row fresh op patch = record {
  id = row.id;
  expected_revision = fresh.revision;
  require_confirmed = true;
  op_id = some op.op_id;
  gen = some op.gen;
  patch = patch;
}

abbrev pub retained_of : BookingRow → PendingOp → List UnresolvedInsert
retained_of fresh current = retained_from fresh.unresolved_inserts current.attempts

abbrev pub completed_as : Bool → BookingRow → Completed
completed_as superseded row = record { superseded = superseded; row = row }

unfoldable pub cancel_t2_tx : BookingRow → PendingOp → MemoryTx → Completed × MemoryTx
unfolding cancel_patch update
cancel_t2_tx row op tx = elim (select_for_update tx row.id) [
  | none ↦ (completed_as true row, tx)
  | some fresh ↦ elim fresh.pending_op [
    | none ↦ (completed_as true fresh, tx)
    | some current ↦
        let (done, tx') =
          update (owned row fresh op (cancel_patch (retained_of fresh current))) tx in
        (completed_as (not done) fresh, tx')
  ]
]

-- The patch of T2' on a row that carries no unfinished create: the op and its reservation go.
unfoldable pub released_patch : List UnresolvedInsert → RowPatch
released_patch retained = record empty_patch {
  pending_op = some none;
  reserved_start = some none;
  reserved_end = some none;
  unresolved_inserts = some retained;
}

abbrev pub max : ℕ → ℕ → ℕ
max a b = if ltb a b then b else a

-- The carried create as an op that can be taken over at once.
unfoldable pub restored_create : UnfinishedCreate → PendingOp → PendingOp
restored_create carry current = record {
  kind = OpKind.create;
  op_id = carry.op_id;
  gen = max carry.gen current.gen + 1;
  started_at = carry.started_at;
  event_id = some carry.event_id;
  new_start = none;
  new_end = none;
  old_event_id = none;
  fallback_event_id = none;
  etag = none;
  attempts = carry.attempts ++ filter is_unresolved_insert current.attempts;
}

unfoldable pub restored_patch : PendingOp → List UnresolvedInsert → RowPatch
restored_patch op retained = record empty_patch {
  pending_op = some (some op);
  unresolved_inserts = some retained;
}

unfoldable pub t2_prime_patch : BookingRow → PendingOp → RowPatch
unfolding released_patch restored_create restored_patch
t2_prime_patch fresh current = elim fresh.unfinished_create [
  | none ↦ released_patch (retained_of fresh current)
  | some carry ↦ restored_patch (restored_create carry current) (retained_of fresh current)
]

-- Whether T2' wrote; the source does not read the answer.
unfoldable pub cancel_t2_prime_tx : BookingRow → PendingOp → MemoryTx → Bool × MemoryTx
unfolding t2_prime_patch update
cancel_t2_prime_tx row op tx = elim (select_for_update tx row.id) [
  | none ↦ (false, tx)
  | some fresh ↦ elim fresh.pending_op [
    | none ↦ (false, tx)
    | some current ↦ update (owned row fresh op (t2_prime_patch fresh current)) tx
  ]
]

-- Whether a row read after a lost COMMIT shows that the cancel was completed.
unfoldable pub did_cancel : Option BookingRow → Bool
did_cancel none = false
did_cancel (some fresh) = not (is_confirmed fresh.status)

module _ {C : Type 0} where
  abbrev pub reloaded : BookingRow → Completed → Step C Completed
  reloaded row result =
      if result.superseded
      then pure result
      else (do found ← read_row row.id; pure (completed_as false (or_else found result.row)))

  unfoldable pub run_cancel_t2 : BookingRow → PendingOp → Step C Completed
  unfolding cancel_t2_tx read_row
  run_cancel_t2 row op = do
    result ← with_host_lock row.host_id (λ time. returning (cancel_t2_tx row op))
    reloaded row result

  unfoldable pub cancel_t2 : BookingRow → PendingOp → Step C Completed
  unfolding run_cancel_t2 did_cancel
  cancel_t2 row op = do
    settled ← settle_completion row (run_cancel_t2 row op) did_cancel
    elim settled [
      | settled_ok completed ↦ pure completed
      | settled_reconciled fresh ↦ pure (completed_as false fresh)
      | settled_failed e ↦ throw_error (error_of booking_failed)
    ]

  unfoldable pub cancel_t2_prime : BookingRow → PendingOp → Step C Bool
  unfolding cancel_t2_prime_tx
  cancel_t2_prime row op = with_host_lock row.host_id λ time. returning (cancel_t2_prime_tx row op)
