-- ===== src/Store/Fences.antt =====
-- Ownership of an operation in lib/booking/memory-store.ts: `opId` and `gen` fence every write.
use marlo_scheduling.Prelude.{
  ℕ, ◌+◌, ◌≡◌, ap, ◌∙◌, Bool, true, false, some, arith, find-adjust_self,
}
use marlo_scheduling.Rows.{Key, Instant, BookingRow, Attempt, PendingOp}
use marlo_scheduling.Store.{
  MemoryBookingStore, MemoryTx, Result, ok, has_id, get_by_id, owns, take_over, append_attempt,
  update, OwnedUpdate, locked, may_update, RowPatch, on_op,
}

-- A transaction that calls one method and returns its answer.
abbrev pub one_call : (MemoryTx → Bool × MemoryTx) → MemoryTx → Result Bool Bool × MemoryTx
one_call call tx = let (answer, tx') = call tx in (ok answer, tx')

-- The row after a takeover that was granted.
abbrev pub renewed : BookingRow → PendingOp → ℕ → Instant → BookingRow
renewed row op gen started_at = record row {
  pending_op = some (record op { gen = gen; started_at = started_at });
}

-- The deferred write of that takeover.
abbrev renewal : PendingOp → Instant → BookingRow → BookingRow
renewal op now = on_op op.op_id (λ (o : PendingOp). record o { gen = op.gen + 1; started_at = now })

renewal-keeps_id :
    (id : Key) (op : PendingOp) (now : Instant) (r : BookingRow)
    → has_id id r ≡ true
    → has_id id (renewal op now r) ≡ true
renewal-keeps_id id op now r h = ground arith

renewal-row :
    (row : BookingRow) (op : PendingOp) (now : Instant)
    → row.pending_op ≡ some op
    → renewal op now row ≡ renewed row op (op.gen + 1) now
renewal-row row op now e = ground arith

owned :
    (row : BookingRow) (op : PendingOp)
    → row.pending_op ≡ some op
    → owns row op.op_id (some op.gen) ≡ true
unfolding owns
owned row op e = ground arith

renewed-owner :
    (row : BookingRow) (op : PendingOp) (now : Instant)
    → owns (renewed row op (op.gen + 1) now) op.op_id (some op.gen) ≡ false
unfolding owns
renewed-owner row op now = ground arith

take_over-row :
    (store : MemoryBookingStore) (row : BookingRow) (op : PendingOp) (id : Key) (now : Instant)
    → get_by_id store id ≡ some row
    → row.pending_op ≡ some op
    → get_by_id (locked (one_call (take_over id op.op_id op.gen now)) store).1 id
      ≡ some (renewed row op (op.gen + 1) now)
unfolding locked take_over get_by_id
take_over-row store row op id now h e =
    rw (h, owned row op e, take_over)
      (find-adjust_self (has_id id) (renewal op now) row store.rows (renewal-keeps_id id op now) h
        ∙ ap some (renewal-row row op now e))

-- A call that is not the owner's answers false and changes nothing.
append_attempt-refused :
    (store : MemoryBookingStore) (row : BookingRow) (id op_id : Key) (gen : ℕ) (a : Attempt)
    → get_by_id store id ≡ some row
    → owns row op_id (some gen) ≡ false
    → locked (one_call (append_attempt id op_id gen a)) store ≡ (ok false, store)
unfolding locked append_attempt get_by_id
append_attempt-refused store row id op_id gen a h o = rw (h, o, append_attempt)

take_over-refused :
    (store : MemoryBookingStore) (row : BookingRow) (id op_id : Key) (gen : ℕ) (now : Instant)
    → get_by_id store id ≡ some row
    → owns row op_id (some gen) ≡ false
    → locked (one_call (take_over id op_id gen now)) store ≡ (ok false, store)
unfolding locked take_over get_by_id
take_over-refused store row id op_id gen now h o = rw (h, o, take_over)

abbrev pub owned_update : Key → Key → ℕ → ℕ → Bool → RowPatch → OwnedUpdate
owned_update id op_id gen revision strict patch = record {
  id = id;
  expected_revision = revision;
  require_confirmed = strict;
  op_id = some op_id;
  gen = some gen;
  patch = patch;
}

may_update-refused :
    (row : BookingRow) (id op_id : Key) (gen revision : ℕ) (strict : Bool) (patch : RowPatch)
    → owns row op_id (some gen) ≡ false
    → may_update (owned_update id op_id gen revision strict patch) row ≡ false
unfolding may_update
may_update-refused row id op_id gen revision strict patch o = ground arith

update-refused :
    (store : MemoryBookingStore) (row : BookingRow) (id op_id : Key) (gen revision : ℕ)
    (strict : Bool) (patch : RowPatch)
    → get_by_id store id ≡ some row
    → owns row op_id (some gen) ≡ false
    → locked (one_call (update (owned_update id op_id gen revision strict patch))) store
      ≡ (ok false, store)
unfolding locked update get_by_id
update-refused store row id op_id gen revision strict patch h o =
    let no = may_update-refused row id op_id gen revision strict patch o in rw (h, no, update)

-- After a takeover is committed the row carries the op with the next generation and the new start
-- time, and nothing else of it changed; and the predecessor, which still holds the old generation,
-- can neither write an attempt, nor update the row in any way, nor take the op over: each answers
-- false and leaves the whole store as it is.
pub take_over-fences :
    (store : MemoryBookingStore) (row : BookingRow) (op : PendingOp) (id : Key)
    (now later : Instant) (a : Attempt) (revision : ℕ) (strict : Bool) (patch : RowPatch)
    → get_by_id store id ≡ some row
    → row.pending_op ≡ some op
    → let after = (locked (one_call (take_over id op.op_id op.gen now)) store).1 in
      (get_by_id after id ≡ some (renewed row op (op.gen + 1) now))
      × (locked (one_call (append_attempt id op.op_id op.gen a)) after ≡ (ok false, after))
      × (locked (one_call (update (owned_update id op.op_id op.gen revision strict patch))) after
          ≡ (ok false, after))
      × (locked (one_call (take_over id op.op_id op.gen later)) after ≡ (ok false, after))
take_over-fences store row op id now later a revision strict patch h e =
    let after : MemoryBookingStore =
      (locked (one_call (take_over id op.op_id op.gen now)) store).1 in
    let next : BookingRow = renewed row op (op.gen + 1) now in
    let there : get_by_id after id ≡ some next = take_over-row store row op id now h e in
    let lost : owns next op.op_id (some op.gen) ≡ false = renewed-owner row op now in
    (
      there,
      append_attempt-refused after next id op.op_id op.gen a there lost,
      update-refused after next id op.op_id op.gen revision strict patch there lost,
      take_over-refused after next id op.op_id op.gen later there lost,
    )
