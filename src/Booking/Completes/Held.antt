-- ===== src/Booking/Completes/Held.antt =====
-- lib/booking/ops.ts: the writes to the ledger of an op that its worker still holds.
use marlo_scheduling.Prelude.{
  Option-cases, ◌++◌, ◌∷◌, Bool-cases, inl, inr, ◌==◌, arith, find-adjust_self, ℕ, ◌≡◌, ◌∙◌, refl,
  ap, true, some, [],
}
use marlo_scheduling.Rows.{Attempt, AttemptOutcome, Key, BookingRow, PendingOp, is_confirmed}
use marlo_scheduling.Store.{
  append_attempt, resolve_attempt, retire_attempt, names_op, commit, has_id, on_op, settle_row,
  drop_attempt, MemoryBookingStore, ok, locked, get_by_id, owns, on_row,
}
use marlo_scheduling.Lifecycle.World.{World, on_store, take_turn}
use marlo_scheduling.Google.{CalendarEvent}
use marlo_scheduling.Lifecycle.Ops.{write_attempt, finish_attempt}
use marlo_scheduling.Lifecycle.Superseded.{retire_step}
use marlo_scheduling.Lifecycle.Cancel.Calendar.{retire_attributed}
use marlo_scheduling.Booking.Completes.Quiet.{quiet_with, locked_once}

-- The row under an id is confirmed and still names the op, under its generation, at the revision.
pub record Held (id : Key) (op : PendingOp) (revision : ℕ) (s : MemoryBookingStore) : Type 0 where
  pub fresh : BookingRow
  pub current : PendingOp
  pub found : get_by_id s id ≡ some fresh
  pub named : fresh.pending_op ≡ some current
  pub same_op : current.op_id ≡ op.op_id
  pub same_gen : current.gen ≡ op.gen
  pub same_revision : fresh.revision ≡ revision
  pub standing : is_confirmed fresh.status ≡ true

-- What a change of a row leaves of its op.
record Renewed (before : BookingRow) (current : PendingOp) (after : BookingRow) : Type 0 where
  pub op : PendingOp
  pub named : after.pending_op ≡ some op
  pub same_op : op.op_id ≡ current.op_id
  pub same_gen : op.gen ≡ current.gen
  pub same_revision : after.revision ≡ before.revision
  pub same_status : after.status ≡ before.status

on_row-Held :
    (id : Key) (op : PendingOp) (revision : ℕ) (s : MemoryBookingStore)
    (f : BookingRow → BookingRow)
    → ((x : BookingRow) → has_id id x ≡ true → has_id id (f x) ≡ true)
    → ((x : BookingRow) (c : PendingOp) → x.pending_op ≡ some c → Renewed x c (f x))
    → Held id op revision s
    → Held id op revision (on_row id f s)
unfolding get_by_id
on_row-Held id op revision s f keeps renews k =
    let r = renews k.fresh k.current k.named in
    record {
      fresh = f k.fresh;
      current = r.op;
      found = find-adjust_self (has_id id) f k.fresh s.rows keeps k.found;
      named = r.named;
      same_op = r.same_op ∙ k.same_op;
      same_gen = r.same_gen ∙ k.same_gen;
      same_revision = r.same_revision ∙ k.same_revision;
      standing = ap is_confirmed r.same_status ∙ k.standing;
    }

on_op-keeps :
    (id op_id : Key) (change : PendingOp → PendingOp) (x : BookingRow)
    → has_id id x ≡ true
    → has_id id (on_op op_id change x) ≡ true
on_op-keeps id op_id change x h = ground arith

push-Renewed :
    (op_id : Key) (a : Attempt) (x : BookingRow) (c : PendingOp)
    → x.pending_op ≡ some c
    → Renewed x c
        (on_op op_id (λ (op : PendingOp). record op { attempts = op.attempts ++ a ∷ [] }) x)
push-Renewed op_id a x c e = elim (Bool-cases (c.op_id == op_id)) [
  | inl t ↦
      rw (e, t)
        (record {
          op = _;
          named = refl;
          same_op = refl;
          same_gen = refl;
          same_revision = refl;
          same_status = refl;
        })
  | inr t ↦
      rw (e, t)
        (record {
          op = c;
          named = refl;
          same_op = refl;
          same_gen = refl;
          same_revision = refl;
          same_status = refl;
        })
]

settle_row-Renewed :
    (a : Key) (outcome : AttemptOutcome) (time : ℕ) (x : BookingRow) (c : PendingOp)
    → x.pending_op ≡ some c
    → Renewed x c (settle_row a outcome time x)
settle_row-Renewed a outcome time x c e = rw e (record {
  op = _;
  named = refl;
  same_op = refl;
  same_gen = refl;
  same_revision = refl;
  same_status = refl;
})

drop_attempt-Renewed :
    (a : Key) (x : BookingRow) (c : PendingOp)
    → x.pending_op ≡ some c
    → Renewed x c (drop_attempt a x)
unfolding drop_attempt
drop_attempt-Renewed a x c e = record {
  op = c;
  named = e;
  same_op = refl;
  same_gen = refl;
  same_revision = refl;
  same_status = refl;
}

pub Held-owns :
    (id : Key) (op : PendingOp) (revision : ℕ) (s : MemoryBookingStore) (k : Held id op revision s)
    → owns k.fresh op.op_id (some op.gen) ≡ true
unfolding owns
Held-owns id op revision s k =
    let e = k.named in let f = k.same_op in let g = k.same_gen in ground arith

Held-names_op :
    (id : Key) (op : PendingOp) (revision : ℕ) (s : MemoryBookingStore) (k : Held id op revision s)
    → names_op k.fresh op.op_id ≡ true
unfolding names_op
Held-names_op id op revision s k = let e = k.named in let f = k.same_op in ground arith

module _ {C : Type 0} (row : BookingRow) (op : PendingOp) (revision : ℕ) (w : World C)
    (s : MemoryBookingStore) (k : Held row.id op revision s) where
  pub write_attempt_once :
      (a : Attempt)
      → (t : MemoryBookingStore) × (write_attempt row op a (quiet_with w s)
          ≡ (ok true, quiet_with w t))
        × Held row.id op revision t
  unfolding write_attempt append_attempt locked commit
  write_attempt_once a = (
    on_row row.id (on_op op.op_id (λ (o : PendingOp). record o { attempts = o.attempts ++ a ∷ [] }))
        s,
    locked_once row.host_id _ (quiet_with w s) _ _
        (rw (k.found, Held-owns row.id op revision s k) refl),
    on_row-Held row.id op revision s _ (on_op-keeps row.id op.op_id _) (push-Renewed op.op_id a) k,
  )

  pub finish_attempt_once :
      (a : Key) (outcome : AttemptOutcome)
      → (t : MemoryBookingStore) × (finish_attempt row op a outcome (quiet_with w s)
          ≡ (ok true, quiet_with w t))
        × Held row.id op revision t
  unfolding finish_attempt resolve_attempt locked commit
  finish_attempt_once a outcome = (
    on_row row.id (settle_row a outcome w.now) s,
    locked_once row.host_id _ (quiet_with w s) _ _
        (rw (k.found, Held-names_op row.id op revision s k) refl),
    on_row-Held row.id op revision s _ (λ x h. ground arith) (settle_row-Renewed a outcome w.now) k,
  )

  pub retire_attributed_once :
      (event : CalendarEvent)
      → (t : MemoryBookingStore) × (retire_attributed row.id event (quiet_with w s)
          ≡ (ok tt, quiet_with w t))
        × Held row.id op revision t
  unfolding retire_attributed retire_step on_store take_turn retire_attempt
  retire_attributed_once event = elim (Option-cases event.marlo_attempt_id) [
    | inl e ↦ (s, rw e refl, k)
    | inr (a, e) ↦ (
      on_row row.id (drop_attempt a) s,
      rw e refl,
      on_row-Held row.id op revision s _ (unfold drop_attempt in λ x h. h) (drop_attempt-Renewed a)
          k,
    )
  ]
