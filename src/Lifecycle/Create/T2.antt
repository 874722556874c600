-- ===== src/Lifecycle/Create/T2.antt =====
-- lib/booking/create.ts: the completing transaction of a create, T2 with a calendar event and T2'
-- without one.
use marlo_scheduling.Prelude.{
  Bool, true, false, not, ◌&&◌, Option, none, some, List, ◌==◌, if◌then◌else◌, is_none,
}
use marlo_scheduling.Rows.{
  Key, BookingRow, PendingOp, UnresolvedInsert, CalendarState, LatestAction, retained_from,
}
use marlo_scheduling.Store.{
  Result, ok, err, MemoryTx, RowPatch, OwnedUpdate, select_for_update, update,
}
use marlo_scheduling.Lifecycle.Errors.{Failure, error_of, booking_failed}
use marlo_scheduling.Lifecycle.World.{Step, pure, throw_error, ◌>>=◌, with_host_lock}
use marlo_scheduling.Lifecycle.Settle.{
  settle_completion, settled_ok, settled_reconciled, settled_failed,
}
use marlo_scheduling.Lifecycle.Create.Types.{CreateDeps}

pub record Completed : Type 0 where
  pub superseded : Bool
  pub row : BookingRow

abbrev pub empty_patch : RowPatch
empty_patch = record {
  start = none;
  end = none;
  cancels = false;
  latest_action = none;
  calendar_state = none;
  google_event_id = none;
  google_event_etag = none;
  rescheduled_from = none;
  reserved_start = none;
  reserved_end = none;
  pending_op = none;
  unfinished_create = none;
  unresolved_inserts = none;
  bump_revision = false;
}

abbrev some_etag : Option Key → Option (Option Key)
some_etag none = none
some_etag (some etag) = some (some etag)

unfoldable pub completion_patch : CalendarState → Option Key → List UnresolvedInsert → RowPatch
completion_patch calendar_state etag retained = record empty_patch {
  latest_action = some LatestAction.confirm;
  calendar_state = some calendar_state;
  google_event_etag = some_etag etag;
  pending_op = some none;
  unfinished_create = some none;
  unresolved_inserts = some retained;
}

unfoldable pub completion_update :
    BookingRow
    → BookingRow
    → PendingOp
    → CalendarState
    → Option Key
    → List UnresolvedInsert
    → OwnedUpdate
unfolding completion_patch
completion_update row fresh op calendar_state etag retained = record {
  id = row.id;
  expected_revision = fresh.revision;
  require_confirmed = true;
  op_id = some op.op_id;
  gen = some op.gen;
  patch = completion_patch calendar_state etag retained;
}

-- The snapshot that T2 returns: the row it read with exactly its patch.
unfoldable pub committed_row :
    BookingRow → CalendarState → Option Key → List UnresolvedInsert → BookingRow
committed_row fresh calendar_state etag retained = record fresh {
  latest_action = some LatestAction.confirm;
  calendar_state = calendar_state;
  google_event_etag = elim etag [ none ↦ fresh.google_event_etag | some e ↦ some e ];
  pending_op = none;
  unfinished_create = none;
  unresolved_inserts = retained;
}

abbrev pub lost_to : BookingRow → MemoryTx → Result Failure Completed × MemoryTx
lost_to row tx = (ok (record { superseded = true; row = row }), tx)

abbrev pub finalized :
    Result Failure (Unit {0}) → BookingRow → MemoryTx → Result Failure Completed × MemoryTx
finalized (ok u) row tx = (ok (record { superseded = false; row = row }), tx)
finalized (err e) row tx = (err e, tx)

unfoldable pub complete_fresh :
    (BookingRow → Result Failure (Unit {0}))
    → BookingRow
    → PendingOp
    → CalendarState
    → Option Key
    → BookingRow
    → PendingOp
    → MemoryTx
    → Result Failure Completed × MemoryTx
unfolding completion_update committed_row
complete_fresh on_finalize row op calendar_state etag fresh current tx =
    let retained = retained_from fresh.unresolved_inserts current.attempts in
    let (updated, tx') = update (completion_update row fresh op calendar_state etag retained) tx in
    if updated
    then finalized (on_finalize fresh) (committed_row fresh calendar_state etag retained) tx'
    else lost_to fresh tx'

unfoldable pub complete_create_tx :
    (BookingRow → Result Failure (Unit {0}))
    → BookingRow
    → PendingOp
    → CalendarState
    → Option Key
    → MemoryTx
    → Result Failure Completed × MemoryTx
unfolding complete_fresh
complete_create_tx on_finalize row op calendar_state etag tx = elim (select_for_update tx row.id) [
  | none ↦ lost_to row tx
  | some fresh ↦ elim fresh.pending_op [
    | none ↦ lost_to fresh tx
    | some current ↦ complete_fresh on_finalize row op calendar_state etag fresh current tx
  ]
]

-- Whether a row read after a lost COMMIT shows that the creation was finalized.
unfoldable pub did_commit : PendingOp → Option BookingRow → Bool
did_commit op none = false
did_commit op (some fresh) =
    not (is_none fresh.latest_action)
    && elim fresh.pending_op [ none ↦ true | some current ↦ not (current.op_id == op.op_id) ]

module _ {C : Type 0} where
  unfoldable pub complete_create :
      CreateDeps C → BookingRow → PendingOp → CalendarState → Option Key → Step C Completed
  unfolding complete_create_tx did_commit
  complete_create deps row op calendar_state etag = do
    settled ←
        settle_completion row
          (with_host_lock row.host_id
            λ time. complete_create_tx deps.on_finalize row op calendar_state etag)
          (did_commit op)
    elim settled [
      | settled_ok completed ↦ pure completed
      | settled_reconciled fresh ↦ pure (record { superseded = false; row = fresh })
      | settled_failed e ↦ throw_error (error_of booking_failed)
    ]
