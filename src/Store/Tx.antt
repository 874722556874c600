-- ===== src/Store/Tx.antt =====
-- lib/booking/memory-store.ts: a locked transaction. Its reads and its conditions see the committed
-- store, its writes are queued and applied together, and a throw drops them.
use marlo_scheduling.Prelude.{
  ℕ, ◌+◌, ◌≡◌, refl, ◌⊎◌, inl, inr, Bool, true, false, not, ◌&&◌, ◌||◌, Option, none, some, List,
  [], ◌∷◌, ◌++◌, ◌==◌, if◌then◌else◌, is_key, find, put, adjust, or_else, length, take,
}
use marlo_scheduling.Rows.{
  Key, Instant, BookingRow, Attempt, AttemptOutcome, PendingOp, RejectionReason, confirmed,
  cancelled, pending, is_confirmed, is_unresolved,
}
use marlo_scheduling.Store.Types.{
  MemoryBookingStore, MemoryTx, Write, RowPatch, OwnedUpdate, NewBookingRow, IdempotencyEntry,
  FenceEntry, set_rejection, set_booking, patch_row, renew_op, push_attempt, settle_attempt,
}
use marlo_scheduling.Store.Ledger.{has_id, has_token, get_by_id}

pub data Result {ℓ} (E A : Type ℓ) : Type ℓ where
  ok : A → Result E A
  err : E → Result E A

pub Result-cases :
    {E A : Type 0} (r : Result E A) → ((a : A) × (r ≡ ok a)) ⊎ ((e : E) × (r ≡ err e))
Result-cases (ok a) = inl (a, refl)
Result-cases (err e) = inr (e, refl)

abbrev pub has_idempotency_key : Key → Key → IdempotencyEntry → Bool
has_idempotency_key owner_id key entry =
    (entry.owner_id == owner_id) && (entry.idempotency_key == key)

abbrev pub has_fence_key : Key → Key → Key → FenceEntry → Bool
has_fence_key owner_id key fingerprint entry =
    (entry.owner_id == owner_id)
    && (entry.idempotency_key == key)
    && (entry.create_fingerprint == fingerprint)

-- The assignments of the deferred write of `update`.
unfoldable pub apply_patch : RowPatch → BookingRow → BookingRow
apply_patch patch row = record row {
  start = or_else patch.start row.start;
  end = or_else patch.end row.end;
  status = if patch.cancels then cancelled else row.status;
  latest_action = elim patch.latest_action [ none ↦ row.latest_action | some a ↦ some a ];
  calendar_state = or_else patch.calendar_state row.calendar_state;
  google_event_id = elim patch.google_event_id [ none ↦ row.google_event_id | some e ↦ some e ];
  google_event_etag = or_else patch.google_event_etag row.google_event_etag;
  rescheduled_from = or_else patch.rescheduled_from row.rescheduled_from;
  reserved_start = or_else patch.reserved_start row.reserved_start;
  reserved_end = or_else patch.reserved_end row.reserved_end;
  pending_op = or_else patch.pending_op row.pending_op;
  unfinished_create = or_else patch.unfinished_create row.unfinished_create;
  unresolved_inserts = or_else patch.unresolved_inserts row.unresolved_inserts;
  revision = if patch.bump_revision then row.revision + 1 else row.revision;
}

-- A change of the open op, made only while the row names that op.
abbrev pub on_op : Key → (PendingOp → PendingOp) → BookingRow → BookingRow
on_op op_id change row = elim row.pending_op [
  | none ↦ row
  | some op ↦ if op.op_id == op_id then record row { pending_op = some (change op) } else row
]

abbrev pub settle : AttemptOutcome → Instant → Attempt → Attempt
settle outcome resolved_at attempt =
    if is_unresolved attempt.outcome
    then record attempt { outcome = outcome; resolved_at = some resolved_at }
    else attempt

abbrev pub settle_row : Key → AttemptOutcome → Instant → BookingRow → BookingRow
settle_row attempt_id outcome resolved_at row = elim row.pending_op [
  | none ↦ row
  | some op ↦ record row {
    pending_op = some (record op {
      attempts =
          adjust (λ (a : Attempt). a.attempt_id == attempt_id) (settle outcome resolved_at)
            op.attempts;
    });
  }
]

abbrev pub on_row : Key → (BookingRow → BookingRow) → MemoryBookingStore → MemoryBookingStore
on_row id change store = record store { rows = adjust (has_id id) change store.rows }

-- One deferred write, run by `commit`.
unfoldable pub apply_write : Write → MemoryBookingStore → MemoryBookingStore
unfolding apply_patch
apply_write (set_rejection fence) store = record store {
  rejected_keys =
      put (has_fence_key fence.owner_id fence.idempotency_key fence.create_fingerprint) fence
        store.rejected_keys;
}
apply_write (set_booking row) store = record store {
  rows = put (has_id row.id) row store.rows;
  by_token = put (has_token row.token) (record { token = row.token; id = row.id }) store.by_token;
  by_idempotency_key =
      put (has_idempotency_key row.owner_id row.idempotency_key)
        (record { owner_id = row.owner_id; idempotency_key = row.idempotency_key; id = row.id })
        store.by_idempotency_key;
}
apply_write (patch_row id patch) store = on_row id (apply_patch patch) store
apply_write (renew_op id op_id gen started_at) store =
    on_row id (on_op op_id (λ (op : PendingOp). record op { gen = gen; started_at = started_at }))
      store
apply_write (push_attempt id op_id attempt) store =
    on_row id
      (on_op op_id (λ (op : PendingOp). record op { attempts = op.attempts ++ attempt ∷ [] })) store
apply_write (settle_attempt id attempt_id outcome resolved_at) store =
    on_row id (settle_row attempt_id outcome resolved_at) store

unfoldable pub commit : List Write → MemoryBookingStore → MemoryBookingStore
unfolding apply_write
commit [] store = store
commit (write ∷ rest) store = commit rest (apply_write write store)

abbrev pub queue : MemoryTx → Write → MemoryTx
queue tx write = record tx { writes = tx.writes ++ write ∷ [] }

-- `withHostLock` of the memory store: `fn` runs, and its writes are applied if it returns.
unfoldable pub locked :
    {E A : Type 0}
    → (MemoryTx → Result E A × MemoryTx)
    → MemoryBookingStore
    → Result E A × MemoryBookingStore
unfolding commit
locked fn store =
    let (result, tx) = fn (record { store = store; writes = [] }) in
    elim result [ ok a ↦ (ok a, commit tx.writes tx.store) | err e ↦ (err e, tx.store) ]

-- The savepoint: a throw of `fn` takes back the writes that `fn` queued.
unfoldable pub attempt :
    {E A : Type 0} → (MemoryTx → Result E A × MemoryTx) → MemoryTx → Result E A × MemoryTx
attempt fn tx =
    let (result, tx') = fn tx in
    elim result [
      | ok a ↦ (ok a, tx')
      | err e ↦ (err e, record tx' { writes = take (length tx.writes) tx'.writes })
    ]

unfoldable pub lookup_key : MemoryTx → Key → Key → Option BookingRow
unfolding get_by_id
lookup_key tx owner_id key =
    elim (find (has_idempotency_key owner_id key) tx.store.by_idempotency_key) [
      | none ↦ none
      | some entry ↦ get_by_id tx.store entry.id
    ]

unfoldable pub lookup_rejection : MemoryTx → Key → Key → Key → Option RejectionReason
lookup_rejection tx owner_id key fingerprint =
    elim (find (has_fence_key owner_id key fingerprint) tx.store.rejected_keys) [
      | none ↦ none
      | some fence ↦ some fence.reason
    ]

unfoldable pub insert_rejection : FenceEntry → MemoryTx → MemoryTx
insert_rejection fence tx = queue tx (set_rejection fence)

unfoldable pub new_row : NewBookingRow → BookingRow
new_row input = record {
  id = input.id;
  token = input.token;
  idempotency_key = input.idempotency_key;
  create_fingerprint = input.create_fingerprint;
  owner_id = input.owner_id;
  event_type_id = input.event_type_id;
  host_id = input.host_id;
  start = input.start;
  end = input.end;
  status = confirmed;
  revision = 1;
  latest_action = none;
  google_event_id = some input.google_event_id;
  google_event_etag = none;
  calendar_state = pending;
  rescheduled_from = none;
  reserved_start = none;
  reserved_end = none;
  pending_op = some input.pending_op;
  unfinished_create = none;
  unresolved_inserts = [];
  reap_cursor = 0;
  invitee_name = input.invitee_name;
  invitee_email = input.invitee_email;
  notes = input.notes;
  metadata = input.metadata;
  created_at = input.created_at;
}

unfoldable pub insert_booking : NewBookingRow → MemoryTx → BookingRow × MemoryTx
unfolding new_row
insert_booking input tx = (new_row input, queue tx (set_booking (new_row input)))

unfoldable pub select_for_update : MemoryTx → Key → Option BookingRow
unfolding get_by_id
select_for_update tx id = get_by_id tx.store id

-- The row still names the op, under that generation.
unfoldable pub owns : BookingRow → Key → Option ℕ → Bool
owns row op_id gen = elim row.pending_op [
  | none ↦ false
  | some op ↦ (op.op_id == op_id) && is_key gen op.gen
]

unfoldable pub may_update : OwnedUpdate → BookingRow → Bool
unfolding owns
may_update update row =
    (row.revision == update.expected_revision)
    && (not update.require_confirmed || is_confirmed row.status)
    && elim update.op_id [ none ↦ true | some op_id ↦ owns row op_id update.gen ]

abbrev pub when_row : (BookingRow → Bool) → Option BookingRow → Bool
when_row test none = false
when_row test (some row) = test row

abbrev pub queue_if : Bool → Write → MemoryTx → Bool × MemoryTx
queue_if test write tx = if test then (true, queue tx write) else (false, tx)

unfoldable pub update : OwnedUpdate → MemoryTx → Bool × MemoryTx
unfolding may_update get_by_id
update u tx =
    queue_if (when_row (may_update u) (get_by_id tx.store u.id)) (patch_row u.id u.patch) tx

unfoldable pub take_over : Key → Key → ℕ → Instant → MemoryTx → Bool × MemoryTx
unfolding owns get_by_id
take_over id op_id gen started_at tx =
    queue_if (when_row (λ (row : BookingRow). owns row op_id (some gen)) (get_by_id tx.store id))
      (renew_op id op_id (gen + 1) started_at) tx

unfoldable pub append_attempt : Key → Key → ℕ → Attempt → MemoryTx → Bool × MemoryTx
unfolding owns get_by_id
append_attempt id op_id gen a tx =
    queue_if (when_row (λ (row : BookingRow). owns row op_id (some gen)) (get_by_id tx.store id))
      (push_attempt id op_id a) tx

unfoldable pub names_op : BookingRow → Key → Bool
names_op row op_id = elim row.pending_op [ none ↦ false | some op ↦ op.op_id == op_id ]

-- The generation is an argument of the source's method, which does not read it.
unfoldable pub resolve_attempt :
    Key → Key → ℕ → Key → AttemptOutcome → Instant → MemoryTx → Bool × MemoryTx
unfolding names_op get_by_id
resolve_attempt id op_id gen attempt_id outcome resolved_at tx =
    queue_if (when_row (λ (row : BookingRow). names_op row op_id) (get_by_id tx.store id))
      (settle_attempt id attempt_id outcome resolved_at) tx
