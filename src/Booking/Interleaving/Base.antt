-- ===== src/Booking/Interleaving/Base.antt =====
-- lib/booking/memory-store.ts: the store between two transactions, and the writes that keep it.
use marlo_scheduling.Prelude.{
  ℕ, ◌+◌, ◌≡◌, Bool, true, false, Option, none, some, List, [], ◌∷◌, ◌++◌, All, All-adjust, All-map,
  All-In, find-In, In, Bool-cases, Option-cases, inl, inr, any,
}
use marlo_scheduling.Rows.{Key, BookingRow, PendingOp, OpKind, Attempt, AttemptOutcome, is_stale_op}
use marlo_scheduling.Store.{
  Result, Result-cases, MemoryBookingStore, MemoryTx, OwnedUpdate, Write, get_by_id, on_row, has_id,
  apply_patch, apply_write, may_update, patch_row, queue_if, commit, locked, append_attempt,
  resolve_attempt, take_over, retire_attempt, drop_attempt, stamp_row, stamp_reap_batch,
}
use marlo_scheduling.Lifecycle.Ops.{take_over_op, acquire_from, acquire_tx, same_kind}
use marlo_scheduling.Booking.Invariant.{Inv, Apart, Shrinks, AllApart, AllApart-adjust}
use marlo_scheduling.Booking.Writes.{
  on_op-Shrinks, settle_row-Shrinks, drop_attempt-Shrinks, stamp_row-Shrinks,
}
use marlo_scheduling.Booking.Transactions.{opened, Transaction}
use marlo_scheduling.Booking.Owned.{All-adjust_found, AllApart-found}
use marlo_scheduling.Booking.Interleaving.Sound.{
  Sound, Sound-invariants, renewed-Sound, pushed-Sound, settled-Sound, dropped-Sound, stamped-Sound,
}

-- The rows are apart and each is sound.
pub record Safe (s : MemoryBookingStore) : Type 0 where
  pub apart : AllApart s.rows
  pub sound : All Sound s.rows

pub Safe-Inv : (s : MemoryBookingStore) → Safe s → Inv s
Safe-Inv s v = record { apart = v.apart; finalization = All-map Sound-invariants s.rows v.sound }

pub on_row-Safe :
    (id : Key) (f : BookingRow → BookingRow) (s : MemoryBookingStore)
    → ((r : BookingRow) → Shrinks r (f r))
    → ((r : BookingRow) → Sound r → Sound (f r))
    → Safe s
    → Safe (on_row id f s)
on_row-Safe id f s shrinks keeps v = record {
  apart = AllApart-adjust _ f s.rows shrinks v.apart;
  sound = All-adjust Sound _ f s.rows (λ r t h. keeps r h) v.sound;
}

-- The store is safe if the transaction is dropped, and if it is committed.
pub record TxSafe (tx : MemoryTx) : Type 0 where
  pub dropped : Safe tx.store
  pub committed : Safe (commit tx.writes tx.store)

abbrev pub KeepsSafe : {A : Type 0} → Transaction A → MemoryBookingStore → Type 0
KeepsSafe fn s = Safe s → TxSafe (fn (opened s)).1

pub untouched-Safe : (s : MemoryBookingStore) → Safe s → TxSafe (opened s)
unfolding commit
untouched-Safe s v = record { dropped = v; committed = v }

pub queue_if-TxSafe :
    (b : Bool) (write : Write) (s : MemoryBookingStore)
    → (Safe s → Safe (apply_write write s))
    → Safe s
    → TxSafe (queue_if b write (opened s)).1
unfolding commit
queue_if-TxSafe true write s k v = record { dropped = v; committed = k v }
queue_if-TxSafe false write s k v = record { dropped = v; committed = v }

-- An update of the row that was read, queued if its condition holds of it.
pub update-TxSafe :
    (u : OwnedUpdate) (s : MemoryBookingStore) (fresh : BookingRow)
    → get_by_id s u.id ≡ some fresh
    → (may_update u fresh ≡ true
        → (x : BookingRow) → In x s.rows
        → Apart fresh x
        → Apart (apply_patch u.patch fresh) x)
    → (may_update u fresh ≡ true → Sound fresh → Sound (apply_patch u.patch fresh))
    → Safe s
    → TxSafe (queue_if (may_update u fresh) (patch_row u.id u.patch) (opened s)).1
unfolding commit apply_write get_by_id
update-TxSafe u s fresh h apart sound v = elim (Bool-cases (may_update u fresh)) [
  | inr t ↦ rw t (record { dropped = v; committed = v })
  | inl t ↦ rw t (record {
    dropped = v;
    committed = record {
      apart = AllApart-found _ (apply_patch u.patch) fresh s.rows h (apart t) v.apart;
      sound = All-adjust_found Sound _ (apply_patch u.patch) fresh s.rows h (sound t) v.sound;
    };
  })
]

pub append_attempt-Safe :
    (id op_id : Key) (gen : ℕ) (a : Attempt) (s : MemoryBookingStore)
    → KeepsSafe (append_attempt id op_id gen a) s
unfolding append_attempt apply_write
append_attempt-Safe id op_id gen a s v =
    queue_if-TxSafe _ _ s
      (on_row-Safe id _ s (on_op-Shrinks op_id _)
        (pushed-Sound op_id (λ (op : PendingOp). op.attempts ++ a ∷ [])))
      v

pub resolve_attempt-Safe :
    (id op_id : Key) (gen : ℕ) (a : Key) (outcome : AttemptOutcome) (t : ℕ) (s : MemoryBookingStore)
    → KeepsSafe (resolve_attempt id op_id gen a outcome t) s
unfolding resolve_attempt apply_write
resolve_attempt-Safe id op_id gen a outcome t s v =
    queue_if-TxSafe _ _ s
      (on_row-Safe id _ s (settle_row-Shrinks a outcome t) (settled-Sound a outcome t)) v

pub take_over_op-Safe :
    (row : BookingRow) (op : PendingOp) (t : ℕ) (s : MemoryBookingStore)
    → KeepsSafe (take_over_op row op t) s
unfolding take_over_op take_over apply_write
take_over_op-Safe row op t s v =
    queue_if-TxSafe _ _ s
      (on_row-Safe row.id _ s (on_op-Shrinks op.op_id _) (renewed-Sound op.op_id (op.gen + 1) t)) v

acquire_from-Safe :
    (kinds : List OpKind) (t : ℕ) (row : Option BookingRow) (s : MemoryBookingStore)
    → KeepsSafe (acquire_from kinds t row) s
unfolding acquire_from
acquire_from-Safe kinds t none s v = untouched-Safe s v
acquire_from-Safe kinds t (some row) s v = elim (Option-cases row.pending_op) [
  | inl e ↦ rw e (untouched-Safe s v)
  | inr (op, e) ↦ elim (Bool-cases (any (same_kind op.kind) kinds)) [
    | inr f ↦ rw (e, f) (untouched-Safe s v)
    | inl f ↦ elim (Bool-cases (is_stale_op op t)) [
      | inr g ↦ rw (e, f, g) (untouched-Safe s v)
      | inl g ↦ rw (e, f, g) (take_over_op-Safe row op t s v)
    ]
  ]
]

pub acquire_tx-Safe :
    (id : Key) (kinds : List OpKind) (t : ℕ) (s : MemoryBookingStore)
    → KeepsSafe (acquire_tx id kinds t) s
unfolding acquire_tx
acquire_tx-Safe id kinds t s v = acquire_from-Safe kinds t _ s v

pub retire_attempt-Safe :
    (s : MemoryBookingStore) (id a : Key) → Safe s → Safe (retire_attempt s id a)
unfolding retire_attempt
retire_attempt-Safe s id a v =
    on_row-Safe id (drop_attempt a) s (drop_attempt-Shrinks a) (dropped-Sound a) v

pub stamp_reap_batch-Safe :
    (s : MemoryBookingStore) (id : Key) (ids : List Key) (t : ℕ)
    → Safe s
    → Safe (stamp_reap_batch s id ids t).1
unfolding stamp_reap_batch
stamp_reap_batch-Safe s id ids t v = elim (Option-cases (get_by_id s id)) [
  | inl e ↦ rw (e, stamp_reap_batch) v
  | inr (row, e) ↦
      rw (e, stamp_reap_batch)
        (on_row-Safe id (stamp_row ids t) s (stamp_row-Shrinks ids t) (stamped-Sound ids t) v)
]

-- A transaction that keeps the store safe, committed or rolled back.
pub locked-Safe :
    {E A : Type 0} (fn : MemoryTx → Result E A × MemoryTx) (s : MemoryBookingStore)
    → (Safe s → TxSafe (fn (opened s)).1)
    → Safe s
    → Safe (locked fn s).1
unfolding locked
locked-Safe fn s k v = elim (Result-cases (fn (opened s)).0) [
  | inl (a, e) ↦ rw (e, locked) (k v).committed
  | inr (x, e) ↦ rw (e, locked) (k v).dropped
]

-- The row under an id of a safe store is sound.
pub get_by_id-Sound :
    (s : MemoryBookingStore) (id : Key) (row : BookingRow)
    → get_by_id s id ≡ some row
    → Safe s
    → Sound row
unfolding get_by_id
get_by_id-Sound s id row h v = All-In Sound row s.rows v.sound (find-In (has_id id) row s.rows h).0
