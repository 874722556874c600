-- ===== src/Lifecycle/Identity.antt =====
-- lib/booking/create-identity.ts: whether a create, told by its immutable identity, is finalized.
use marlo_scheduling.Prelude.{
  Bool, true, false, not, ◌&&◌, ◌||◌, none, some, ◌==◌, is_none, if◌then◌else◌,
}
use marlo_scheduling.Rows.{Key, BookingRow}

pub record CreateOpIdentity : Type 0 where
  pub op_id : Key
  pub owner_id : Key
  pub idempotency_key : Key
  pub create_fingerprint : Key
  pub booking_id : Key

unfoldable pub create_identity_matches : BookingRow → CreateOpIdentity → Bool
create_identity_matches row op =
    (row.id == op.booking_id)
    && (row.owner_id == op.owner_id)
    && (row.idempotency_key == op.idempotency_key)
    && (row.create_fingerprint == op.create_fingerprint)

unfoldable pub create_op_cleared : BookingRow → Key → Bool
create_op_cleared row op_id = elim row.pending_op [
  | none ↦ true
  | some op ↦ not (op.op_id == op_id)
]

unfoldable pub creation_finalized : BookingRow → Bool
creation_finalized row = not (is_none row.latest_action)

unfoldable pub create_finalized : BookingRow → CreateOpIdentity → Bool
unfolding create_identity_matches creation_finalized create_op_cleared
create_finalized row op =
    create_identity_matches row op && creation_finalized row && create_op_cleared row op.op_id

unfoldable pub takeover_running : BookingRow → CreateOpIdentity → Bool
takeover_running row op = elim row.pending_op [
  | none ↦ false
  | some open_op ↦ open_op.op_id == op.op_id
]

unfoldable pub create_replaced_unfinished : BookingRow → CreateOpIdentity → Bool
unfolding create_identity_matches creation_finalized
create_replaced_unfinished row op =
    if not (create_identity_matches row op) || creation_finalized row
    then false
    else not (is_none row.unfinished_create)
      || elim row.pending_op [ none ↦ false | some open_op ↦ not (open_op.op_id == op.op_id) ]
