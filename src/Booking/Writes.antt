-- ===== src/Booking/Writes.antt =====
-- The writes of lib/booking/memory-store.ts and the invariant of the store.
use marlo_scheduling.Prelude.{
  ℕ, ◌≡◌, refl, true, false, Option, none, List, [], ◌∷◌, arith, All, All-adjust, All-put,
  All-intro, In, any-In, Bool-cases, Option-cases, inl, inr, sym,
}
use marlo_scheduling.Rows.{
  Key, Instant, BookingRow, PendingOp, Attempt, AttemptOutcome, CalendarState, UnresolvedInsert,
  Interval, holds_invariants, is_pending, overlaps,
}
use marlo_scheduling.Store.{
  MemoryBookingStore, Write, FenceEntry, NewBookingRow, on_row, on_op, settle_row, apply_write,
  apply_patch, set_rejection, set_booking, patch_row, renew_op, push_attempt, settle_attempt,
  drop_attempt, retire_attempt, stamp_one, stamp_row, stamp_reap_batch, new_row, occupancy_sync,
  get_by_id,
}
use marlo_scheduling.Store.Occupancy.{Occupies, occupancy_sync-exact}
use marlo_scheduling.Booking.Invariant.{Inv, Shrinks, Clear, AllApart-adjust, AllApart-put}
use marlo_scheduling.Lifecycle.Busy.{busy_overlaps}
use marlo_scheduling.Lifecycle.Create.T2.{completion_patch}

abbrev pub HoldsCf : BookingRow → Type 0
HoldsCf row = holds_invariants row ≡ true

-- A change of one row keeps the invariant if it shrinks every row and keeps CF-1 to CF-3.
pub on_row-Inv :
    (id : Key) (f : BookingRow → BookingRow) (store : MemoryBookingStore)
    → ((r : BookingRow) → Shrinks r (f r))
    → ((r : BookingRow) → HoldsCf r → HoldsCf (f r))
    → Inv store
    → Inv (on_row id f store)
on_row-Inv id f store shrinks keeps v = record {
  apart = AllApart-adjust _ f store.rows shrinks v.apart;
  finalization = All-adjust HoldsCf _ f store.rows (λ r t h. keeps r h) v.finalization;
}

pub on_op-Shrinks :
    (op_id : Key) (change : PendingOp → PendingOp) (r : BookingRow)
    → Shrinks r (on_op op_id change r)
unfolding Occupies
on_op-Shrinks op_id change r = record {
  same_id = ground arith;
  same_host = ground arith;
  within = λ i. ground arith;
}

on_op-HoldsCf :
    (op_id : Key) (change : PendingOp → PendingOp) (r : BookingRow)
    → HoldsCf r
    → HoldsCf (on_op op_id change r)
unfolding holds_invariants
on_op-HoldsCf op_id change r h = ground arith

pub settle_row-Shrinks :
    (a : Key) (outcome : AttemptOutcome) (t : Instant) (r : BookingRow)
    → Shrinks r (settle_row a outcome t r)
unfolding Occupies
settle_row-Shrinks a outcome t r = record {
  same_id = ground arith;
  same_host = ground arith;
  within = λ i. ground arith;
}

settle_row-HoldsCf :
    (a : Key) (outcome : AttemptOutcome) (t : Instant) (r : BookingRow)
    → HoldsCf r
    → HoldsCf (settle_row a outcome t r)
unfolding holds_invariants
settle_row-HoldsCf a outcome t r h = ground arith

pub completion-Shrinks :
    (state : CalendarState) (etag : Option Key) (retained : List UnresolvedInsert) (r : BookingRow)
    → Shrinks r (apply_patch (completion_patch state etag retained) r)
unfolding Occupies apply_patch completion_patch
completion-Shrinks state etag retained r = record {
  same_id = refl;
  same_host = refl;
  within = λ i h. h;
}

completion-HoldsCf :
    (state : CalendarState) (etag : Option Key) (retained : List UnresolvedInsert) (r : BookingRow)
    → is_pending state ≡ false
    → HoldsCf (apply_patch (completion_patch state etag retained) r)
unfolding holds_invariants apply_patch completion_patch
completion-HoldsCf state etag retained r h = ground arith

pub drop_attempt-Shrinks : (a : Key) (r : BookingRow) → Shrinks r (drop_attempt a r)
unfolding Occupies drop_attempt
drop_attempt-Shrinks a r = record { same_id = refl; same_host = refl; within = λ i h. h }

pub stamp_row-Shrinks :
    (ids : List Key) (t : Instant) (r : BookingRow) → Shrinks r (stamp_row ids t r)
unfolding stamp_row Occupies
stamp_row-Shrinks [] t r = record { same_id = refl; same_host = refl; within = λ i h. h }
stamp_row-Shrinks (id ∷ ids) t r =
    let rest = stamp_row-Shrinks ids t (stamp_one id t r) in
    unfold stamp_one in
    record { same_id = rest.same_id; same_host = rest.same_host; within = rest.within }

stamp_row-HoldsCf :
    (ids : List Key) (t : Instant) (r : BookingRow) → HoldsCf r → HoldsCf (stamp_row ids t r)
unfolding stamp_row holds_invariants
stamp_row-HoldsCf [] t r h = h
stamp_row-HoldsCf (id ∷ ids) t r h = stamp_row-HoldsCf ids t (stamp_one id t r) h

pub retire_attempt-Inv :
    (store : MemoryBookingStore) (id a : Key) → Inv store → Inv (retire_attempt store id a)
unfolding retire_attempt
retire_attempt-Inv store id a v =
    on_row-Inv id (drop_attempt a) store (drop_attempt-Shrinks a)
      (λ r h. unfold drop_attempt holds_invariants in h) v

pub stamp_reap_batch-Inv :
    (store : MemoryBookingStore) (id : Key) (ids : List Key) (t : Instant)
    → Inv store
    → Inv (stamp_reap_batch store id ids t).1
unfolding stamp_reap_batch
stamp_reap_batch-Inv store id ids t v = elim (Option-cases (get_by_id store id)) [
  | inl e ↦ rw (e, stamp_reap_batch) v
  | inr (row, e) ↦
      rw (e, stamp_reap_batch)
        (on_row-Inv id (stamp_row ids t) store (stamp_row-Shrinks ids t) (stamp_row-HoldsCf ids t)
          v)
]

-- The writes that a create, a takeover and a ledger of attempts queue.
pub data KeepingWrite : MemoryBookingStore → Write → Type 0 where
  keeps_rejection : {s : MemoryBookingStore} (f : FenceEntry) → KeepingWrite s (set_rejection f)
  keeps_renewal :
      {s : MemoryBookingStore} (id op_id : Key) (gen : ℕ) (t : Instant)
      → KeepingWrite s (renew_op id op_id gen t)
  keeps_attempt :
      {s : MemoryBookingStore} (id op_id : Key) (a : Attempt)
      → KeepingWrite s (push_attempt id op_id a)
  keeps_settled :
      {s : MemoryBookingStore} (id a : Key) (outcome : AttemptOutcome) (t : Instant)
      → KeepingWrite s (settle_attempt id a outcome t)
  keeps_completion :
      {s : MemoryBookingStore} (id : Key) (state : CalendarState) (etag : Option Key)
      (retained : List UnresolvedInsert)
      → is_pending state ≡ false
      → KeepingWrite s (patch_row id (completion_patch state etag retained))
  keeps_booking :
      {s : MemoryBookingStore} (row : BookingRow)
      → All (Clear row) s.rows
      → holds_invariants row ≡ true
      → KeepingWrite s (set_booking row)

pub apply_write-Inv :
    {s : MemoryBookingStore} {w : Write} → KeepingWrite s w → Inv s → Inv (apply_write w s)
unfolding apply_write
apply_write-Inv (keeps_rejection f) v = record { apart = v.apart; finalization = v.finalization }
apply_write-Inv {s} (keeps_renewal id op_id gen t) v =
    on_row-Inv id _ s (on_op-Shrinks op_id _) (on_op-HoldsCf op_id _) v
apply_write-Inv {s} (keeps_attempt id op_id a) v =
    on_row-Inv id _ s (on_op-Shrinks op_id _) (on_op-HoldsCf op_id _) v
apply_write-Inv {s} (keeps_settled id a outcome t) v =
    on_row-Inv id _ s (settle_row-Shrinks a outcome t) (settle_row-HoldsCf a outcome t) v
apply_write-Inv {s} (keeps_completion id state etag retained h) v =
    on_row-Inv id _ s (completion-Shrinks state etag retained)
      (λ r _. completion-HoldsCf state etag retained r h) v
apply_write-Inv {s} (keeps_booking row clear cf) v = record {
  apart = AllApart-put row s.rows clear v.apart;
  finalization = All-put HoldsCf _ row s.rows v.finalization cf;
}

pub new_row-HoldsCf : (input : NewBookingRow) → HoldsCf (new_row input)
unfolding holds_invariants new_row
new_row-HoldsCf input = refl

abbrev pub window_of : NewBookingRow → Interval
window_of input = record { start = input.start; end = input.end }

abbrev pub occupancy_of : MemoryBookingStore → NewBookingRow → List Interval
occupancy_of store input =
    occupancy_sync store
      (record { host_id = input.host_id; window = window_of input; exclude_booking_id = none })

overlaps-window :
    (input : NewBookingRow) (i j : Interval)
    → Occupies (new_row input) i
    → overlaps i j ≡ true
    → overlaps j (window_of input) ≡ true
unfolding Occupies new_row overlaps
overlaps-window input i j o t = ground arith

free-Occupies :
    (store : MemoryBookingStore) (input : NewBookingRow) (r : BookingRow) (j : Interval)
    → busy_overlaps (window_of input) (occupancy_of store input) ≡ false
    → In r store.rows
    → input.host_id ≡ r.host_id
    → Occupies r j
    → overlaps j (window_of input) ≡ true
    → ⊥
unfolding busy_overlaps
free-Occupies store input r j free m e o t =
    let listed =
      (occupancy_sync-exact store
          (record { host_id = input.host_id; window = window_of input; exclude_booking_id = none })
          j).1
        (r, m, sym e, refl, o, t) in
    let busy = any-In (λ i. overlaps i (window_of input)) j _ listed t in cc

-- A new row over a window that the host's occupancy leaves free is clear of every row.
pub new_row-Clear :
    (store : MemoryBookingStore) (input : NewBookingRow)
    → busy_overlaps (window_of input) (occupancy_of store input) ≡ false
    → All (Clear (new_row input)) store.rows
unfolding Clear new_row
new_row-Clear store input free = All-intro _ store.rows λ r m e i j oi oj.
    elim (Bool-cases (overlaps i j)) [
      | inr t ↦ t
      | inl t ↦
          elim (free-Occupies store input r j free m e oj (overlaps-window input i j oi t)) [ ]
    ]
