-- ===== src/Lifecycle/Cancel/T1.antt =====
-- lib/booking/cancel.ts: the transaction T1 of a cancel, and the transaction that replaces an
-- operation that it took over.
use marlo_scheduling.Prelude.{
  ℕ, Bool, true, false, not, ◌||◌, Option, none, some, ◌==◌, if◌then◌else◌,
}
use marlo_scheduling.Rows.{
  Key, Instant, BookingRow, PendingOp, UnfinishedCreate, OpKind, is_confirmed, is_stale_op,
}
use marlo_scheduling.Store.{MemoryTx, RowPatch, OwnedUpdate, select_for_update, update}
use marlo_scheduling.Lifecycle.Ops.{begin_op, no_fields, take_over_op}
use marlo_scheduling.Lifecycle.Create.T2.{empty_patch}
use marlo_scheduling.Lifecycle.Cancel.Types.{CancelRequest}

-- What T1 answers. A started op is persisted, unless it inherits from one that was taken over; then
-- the inherited op, its timestamp before the takeover and the create to carry come with it.
pub data CancelT1 : Type 0 where
  cancel_gone : CancelT1
  cancel_changed : BookingRow → CancelT1
  cancel_busy : PendingOp → CancelT1
  cancel_raced : CancelT1
  cancel_resumed : BookingRow → PendingOp → CancelT1
  cancel_started : BookingRow → PendingOp → CancelT1
  cancel_inherits :
      BookingRow → PendingOp → PendingOp → Instant → Option UnfinishedCreate → CancelT1

abbrev pub is_cancel : OpKind → Bool
is_cancel OpKind.cancel = true
is_cancel _ = false

unfoldable pub cancel_op : BookingRow → Key → ℕ → PendingOp
unfolding begin_op
cancel_op row op_id time =
    begin_op OpKind.cancel time op_id
      (record no_fields { old_event_id = row.google_event_id; etag = row.google_event_etag })

-- The cancel's own op, with the intended ids and the ledger of the op that it took over.
unfoldable pub inheriting_op : BookingRow → Key → ℕ → PendingOp → PendingOp
unfolding cancel_op
inheriting_op row op_id time inherited = record (cancel_op row op_id time) {
  attempts = inherited.attempts;
  event_id = inherited.event_id;
  fallback_event_id = inherited.fallback_event_id;
}

abbrev pub resumed_or_raced : BookingRow → Option PendingOp → CancelT1
resumed_or_raced row none = cancel_raced
resumed_or_raced row (some op) = cancel_resumed row op

abbrev pub inherits_or_raced : BookingRow → Key → ℕ → Instant → Option PendingOp → CancelT1
inherits_or_raced row op_id time started_at none = cancel_raced
inherits_or_raced row op_id time started_at (some inherited) =
    cancel_inherits row (inheriting_op row op_id time inherited) inherited started_at
      row.unfinished_create

-- T1 of a row that has an open op.
unfoldable pub cancel_open : BookingRow → PendingOp → Key → ℕ → MemoryTx → CancelT1 × MemoryTx
unfolding inheriting_op take_over_op is_stale_op
cancel_open row op op_id time tx =
    if not (is_stale_op op time)
    then (cancel_busy op, tx)
    else let (taken, tx') = take_over_op row op time tx in
      (
        if is_cancel op.kind
            then resumed_or_raced row taken
            else inherits_or_raced row op_id time op.started_at taken,
        tx',
      )

abbrev pub start_patch : PendingOp → RowPatch
start_patch op = record empty_patch { pending_op = some (some op) }

abbrev pub start_update : BookingRow → PendingOp → OwnedUpdate
start_update row op = record {
  id = row.id;
  expected_revision = row.revision;
  require_confirmed = true;
  op_id = none;
  gen = none;
  patch = start_patch op;
}

-- T1 of a row without one: the op is persisted by the transaction that checked the revision.
unfoldable pub cancel_start : BookingRow → Key → ℕ → MemoryTx → CancelT1 × MemoryTx
unfolding cancel_op update
cancel_start row op_id time tx =
    let op = cancel_op row op_id time in
    let (persisted, tx') = update (start_update row op) tx in
    (if persisted then cancel_started row op else cancel_raced, tx')

abbrev pub is_other_state : BookingRow → ℕ → Bool
is_other_state row expected_revision =
    not (is_confirmed row.status) || not (row.revision == expected_revision)

unfoldable pub cancel_t1_tx : CancelRequest → Key → ℕ → MemoryTx → CancelT1 × MemoryTx
unfolding cancel_open cancel_start
cancel_t1_tx request op_id time tx = elim (select_for_update tx request.booking_id) [
  | none ↦ (cancel_gone, tx)
  | some row ↦
      if is_other_state row request.expected_revision
      then (cancel_changed row, tx)
      else elim row.pending_op [
        | some op ↦ cancel_open row op op_id time tx
        | none ↦ cancel_start row op_id time tx
      ]
]

abbrev given : {A : Type 0} → Option A → Option (Option A)
given none = none
given (some a) = some (some a)

-- The destination of an abandoned reschedule is released with its op.
unfoldable pub replacing_patch : PendingOp → Option UnfinishedCreate → Bool → RowPatch
replacing_patch op carry release = record empty_patch {
  pending_op = some (some op);
  unfinished_create = given carry;
  reserved_start = if release then some none else none;
  reserved_end = if release then some none else none;
}

unfoldable pub replacing_update :
    BookingRow → PendingOp → BookingRow → PendingOp → Option UnfinishedCreate → Bool → OwnedUpdate
unfolding replacing_patch
replacing_update row inherited fresh op carry release = record {
  id = fresh.id;
  expected_revision = row.revision;
  require_confirmed = true;
  op_id = some inherited.op_id;
  gen = some inherited.gen;
  patch = replacing_patch op carry release;
}

unfoldable pub replace_inherited_tx :
    BookingRow → PendingOp → PendingOp → Option UnfinishedCreate → Bool → MemoryTx → Bool × MemoryTx
unfolding replacing_update update
replace_inherited_tx row inherited op carry release tx = elim (select_for_update tx row.id) [
  | none ↦ (false, tx)
  | some fresh ↦ update (replacing_update row inherited fresh op carry release) tx
]
