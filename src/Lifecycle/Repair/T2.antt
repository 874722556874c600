-- ===== src/Lifecycle/Repair/T2.antt =====
-- lib/booking/repair.ts: the transactions of a calendar repair.
use marlo_scheduling.Prelude.{
  ℕ, Bool, true, false, not, ◌&&◌, ◌||◌, Option, none, some, List, ◌==◌, if◌then◌else◌, is_none,
}
use marlo_scheduling.Rows.{
  Key, BookingRow, PendingOp, UnresolvedInsert, OpKind, CalendarState, is_confirmed,
}
use marlo_scheduling.Store.{MemoryTx, RowPatch, OwnedUpdate, select_for_update, update}
use marlo_scheduling.Lifecycle.Errors.{error_of, repair_failed}
use marlo_scheduling.Lifecycle.World.{Step, pure, throw_error, ◌>>=◌, with_host_lock}
use marlo_scheduling.Lifecycle.Ops.{returning, begin_op, no_fields}
use marlo_scheduling.Lifecycle.Settle.{Settled, settle_completion, settled_failed}
use marlo_scheduling.Lifecycle.Create.T2.{empty_patch}
use marlo_scheduling.Lifecycle.Cancel.T2.{owned, retained_of}
use marlo_scheduling.Lifecycle.Cancel.T1.{start_patch}

abbrev pub is_failed : CalendarState → Bool
is_failed CalendarState.failed = true
is_failed _ = false

abbrev pub is_created : CalendarState → Bool
is_created CalendarState.created = true
is_created _ = false

-- A row that a repair may begin on.
abbrev pub wants_repair : BookingRow → Bool
wants_repair row = is_confirmed row.status && is_failed row.calendar_state && is_none row.pending_op

unfoldable pub repair_op : Key → Key → ℕ → PendingOp
unfolding begin_op
repair_op op_id event_id time =
    begin_op OpKind.calendar_repair time op_id (record no_fields { event_id = some event_id })

abbrev pub begin_update : BookingRow → PendingOp → OwnedUpdate
begin_update row op = record {
  id = row.id;
  expected_revision = row.revision;
  require_confirmed = true;
  op_id = none;
  gen = none;
  patch = start_patch op;
}

unfoldable pub begin_repair_tx : Key → Key → Key → ℕ → MemoryTx → Option PendingOp × MemoryTx
unfolding repair_op update
begin_repair_tx id op_id event_id time tx = elim (select_for_update tx id) [
  | none ↦ (none, tx)
  | some fresh ↦
      if not (wants_repair fresh)
      then (none, tx)
      else let op = repair_op op_id event_id time in
        let (done, tx') = update (begin_update fresh op) tx in (if done then some op else none, tx')
]

pub data RepairT2 : Type 0 where
  repair_ok repair_not_written repair_superseded : RepairT2

unfoldable pub repair_patch : Option Key → List UnresolvedInsert → RowPatch
repair_patch etag retained = record empty_patch {
  calendar_state = some CalendarState.created;
  google_event_etag = some etag;
  pending_op = some none;
  unresolved_inserts = some retained;
}

abbrev pub repair_update :
    BookingRow → BookingRow → PendingOp → Option Key → List UnresolvedInsert → OwnedUpdate
repair_update row fresh op etag retained = owned row fresh op (repair_patch etag retained)

unfoldable pub repair_t2_tx : BookingRow → PendingOp → Option Key → MemoryTx → RepairT2 × MemoryTx
unfolding repair_patch update
repair_t2_tx row op etag tx = elim (select_for_update tx row.id) [
  | none ↦ (repair_superseded, tx)
  | some fresh ↦ elim fresh.pending_op [
    | none ↦ (repair_superseded, tx)
    | some current ↦
        if not (current.op_id == op.op_id) || not (current.gen == op.gen)
        then (repair_superseded, tx)
        else let (done, tx') =
            update (repair_update row fresh op etag (retained_of fresh current)) tx in
          (if done then repair_ok else repair_not_written, tx')
  ]
]

unfoldable pub clear_patch : List UnresolvedInsert → RowPatch
clear_patch retained = record empty_patch {
  pending_op = some none;
  unresolved_inserts = some retained;
}

unfoldable pub clear_repair_tx : BookingRow → PendingOp → MemoryTx → Bool × MemoryTx
unfolding clear_patch update
clear_repair_tx row op tx = elim (select_for_update tx row.id) [
  | none ↦ (false, tx)
  | some fresh ↦ elim fresh.pending_op [
    | none ↦ (false, tx)
    | some current ↦ update (owned row fresh op (clear_patch (retained_of fresh current))) tx
  ]
]

abbrev pub is_released : BookingRow → PendingOp → Bool
is_released fresh op = elim fresh.pending_op [
  | none ↦ true
  | some current ↦ not (current.op_id == op.op_id)
]

unfoldable pub did_repair : PendingOp → Option BookingRow → Bool
did_repair op none = false
did_repair op (some fresh) = is_created fresh.calendar_state && is_released fresh op

unfoldable pub did_clear : PendingOp → Option BookingRow → Bool
did_clear op none = false
did_clear op (some fresh) = is_released fresh op

module _ {C : Type 0} where
  unfoldable pub repair_t2 : BookingRow → PendingOp → Option Key → Step C (Settled RepairT2)
  unfolding repair_t2_tx did_repair
  repair_t2 row op etag =
      settle_completion row
        (with_host_lock row.host_id λ time. returning (repair_t2_tx row op etag)) (did_repair op)

  unfoldable pub clear_repair : BookingRow → PendingOp → Step C (Unit {0})
  unfolding clear_repair_tx did_clear
  clear_repair row op = do
    settled ←
        settle_completion row
          (with_host_lock row.host_id λ time. returning (clear_repair_tx row op)) (did_clear op)
    elim settled [ settled_failed e ↦ throw_error (error_of repair_failed) | _ ↦ pure tt ]
