-- ===== src/Booking/Interleaving/Steps.antt =====
-- lib/booking: the transactions of all handlers as the steps of one store, in any order.
use marlo_scheduling.Prelude.{ℕ, ◌≡◌, Bool, false, Option, List, either_of}
use marlo_scheduling.Rows.{
  Key, Instant, BookingRow, PendingOp, OpKind, Attempt, AttemptOutcome, CalendarState, is_pending,
}
use marlo_scheduling.Store.{
  Result, MemoryBookingStore, locked, append_attempt, resolve_attempt, retire_attempt,
  stamp_reap_batch,
}
use marlo_scheduling.Lifecycle.Errors.{Failure}
use marlo_scheduling.Lifecycle.Ops.{returning, acquire_tx}
use marlo_scheduling.Lifecycle.Create.{CreateBookingRequest}
use marlo_scheduling.Lifecycle.Create.T1.{T1Input, t1_tx}
use marlo_scheduling.Lifecycle.Create.T2.{complete_create_tx}
use marlo_scheduling.Lifecycle.Cancel.{CancelRequest, carried_create}
use marlo_scheduling.Lifecycle.Cancel.T1.{cancel_t1_tx, replace_inherited_tx}
use marlo_scheduling.Lifecycle.Cancel.T2.{cancel_t2_tx, cancel_t2_prime_tx}
use marlo_scheduling.Lifecycle.Reschedule.{RescheduleRequest}
use marlo_scheduling.Lifecycle.Reschedule.T1.{RescheduleIds, inspect_tx, reschedule_t1_tx}
use marlo_scheduling.Lifecycle.Reschedule.T2.{
  Resulting, complete_reschedule_tx, abandon_reschedule_tx,
}
use marlo_scheduling.Lifecycle.Repair.T2.{begin_repair_tx, repair_t2_tx, clear_repair_tx}
use marlo_scheduling.Booking.Transactions.{Transaction}
use marlo_scheduling.Booking.Interleaving.Base.{
  Safe, KeepsSafe, locked-Safe, append_attempt-Safe, resolve_attempt-Safe, acquire_tx-Safe,
  retire_attempt-Safe, stamp_reap_batch-Safe,
}
use marlo_scheduling.Booking.Interleaving.Creating.{t1_tx-Safe, complete_create_tx-Safe}
use marlo_scheduling.Booking.Interleaving.Cancelling.{
  IsCopy, IsUnchanged, cancel_t1_tx-Safe, replace_inherited_tx-Safe, cancel_t2_tx-Safe,
  cancel_t2_prime_tx-Safe,
}
use marlo_scheduling.Booking.Interleaving.Rescheduling.{
  inspect_tx-Safe, reschedule_t1_tx-Safe, complete_reschedule_tx-Safe, abandon_reschedule_tx-Safe,
  begin_repair_tx-Safe, repair_t2_tx-Safe, clear_repair_tx-Safe,
}

-- The store after a locked transaction that returns.
abbrev pub after : {A : Type 0} → Transaction A → MemoryBookingStore → MemoryBookingStore
after fn s = (locked {E = Failure} (returning fn) s).1

-- One committed transaction of a worker. A worker's op is its own copy of the row's op.
pub data Step (s : MemoryBookingStore) : MemoryBookingStore → Type 0 where
  begins_create :
      (request : CreateBookingRequest) (input : T1Input) (time : ℕ)
      → Step s (after (t1_tx request input time) s)
  completes_create :
      (on_finalize : BookingRow → Result Failure (Unit {0})) (row : BookingRow) (op : PendingOp)
      (state : CalendarState) (etag : Option Key)
      → is_pending state ≡ false
      → Step s (locked (complete_create_tx on_finalize row op state etag) s).1
  writes_attempt :
      (id op_id : Key) (gen : ℕ) (a : Attempt) → Step s (after (append_attempt id op_id gen a) s)
  finishes_attempt :
      (id op_id : Key) (gen : ℕ) (a : Key) (outcome : AttemptOutcome) (time : ℕ)
      → Step s (after (resolve_attempt id op_id gen a outcome time) s)
  takes_over :
      (id : Key) (kinds : List OpKind) (time : ℕ) → Step s (after (acquire_tx id kinds time) s)
  begins_cancel :
      (request : CancelRequest) (op_id : Key) (time : ℕ)
      → Step s (after (cancel_t1_tx request op_id time) s)
  replaces_inherited :
      (row : BookingRow) (inherited op : PendingOp) (event_id : Key) (started_at : Instant)
      (release : Bool)
      → op.kind ≡ OpKind.cancel
      → IsUnchanged row inherited s
      → Step s (
          after
            (replace_inherited_tx row inherited op
              (either_of (carried_create row inherited event_id started_at) row.unfinished_create)
              release)
            s)
  completes_cancel : (row : BookingRow) (op : PendingOp) → Step s (after (cancel_t2_tx row op) s)
  refuses_cancel :
      (row : BookingRow) (op : PendingOp)
      → op.kind ≡ OpKind.cancel
      → IsCopy op row.id s
      → Step s (after (cancel_t2_prime_tx row op) s)
  inspects_move :
      (request : RescheduleRequest) (time : ℕ) → Step s (after (inspect_tx request time) s)
  begins_move :
      (request : RescheduleRequest) (ids : RescheduleIds) (time : ℕ)
      → Step s (after (reschedule_t1_tx request ids time) s)
  completes_move :
      (row : BookingRow) (op : PendingOp) (resulting : Resulting)
      → op.kind ≡ OpKind.reschedule
      → IsCopy op row.id s
      → Step s (after (complete_reschedule_tx row op resulting) s)
  abandons_move :
      (row : BookingRow) (op : PendingOp)
      → op.kind ≡ OpKind.reschedule
      → IsCopy op row.id s
      → Step s (after (abandon_reschedule_tx row op) s)
  begins_repair :
      (id op_id event_id : Key) (time : ℕ)
      → Step s (after (begin_repair_tx id op_id event_id time) s)
  completes_repair :
      (row : BookingRow) (op : PendingOp) (etag : Option Key)
      → op.kind ≡ OpKind.calendar_repair
      → IsCopy op row.id s
      → Step s (after (repair_t2_tx row op etag) s)
  clears_repair :
      (row : BookingRow) (op : PendingOp)
      → op.kind ≡ OpKind.calendar_repair
      → IsCopy op row.id s
      → Step s (after (clear_repair_tx row op) s)
  retires_attempt : (id a : Key) → Step s (retire_attempt s id a)
  stamps_batch : (id : Key) (ids : List Key) (time : ℕ) → Step s (stamp_reap_batch s id ids time).1

pub data Reach (s : MemoryBookingStore) : MemoryBookingStore → Type 0 where
  here : Reach s s
  next : {t u : MemoryBookingStore} → Reach s t → Step t u → Reach s u

after-Safe :
    {A : Type 0} (fn : Transaction A) (s : MemoryBookingStore)
    → KeepsSafe fn s
    → Safe s
    → Safe (after fn s)
after-Safe fn s k v = locked-Safe (returning fn) s k v

Step-Safe : {s t : MemoryBookingStore} → Step s t → Safe s → Safe t
Step-Safe {s} (begins_create request input time) v =
    after-Safe (t1_tx request input time) s (t1_tx-Safe request input time s) v
Step-Safe {s} (completes_create f row op state etag settled) v =
    locked-Safe (complete_create_tx f row op state etag) s
      (complete_create_tx-Safe f row op state etag settled s) v
Step-Safe {s} (writes_attempt id op_id gen a) v =
    after-Safe (append_attempt id op_id gen a) s (append_attempt-Safe id op_id gen a s) v
Step-Safe {s} (finishes_attempt id op_id gen a outcome time) v =
    after-Safe (resolve_attempt id op_id gen a outcome time) s
      (resolve_attempt-Safe id op_id gen a outcome time s) v
Step-Safe {s} (takes_over id kinds time) v =
    after-Safe (acquire_tx id kinds time) s (acquire_tx-Safe id kinds time s) v
Step-Safe {s} (begins_cancel request op_id time) v =
    after-Safe (cancel_t1_tx request op_id time) s (cancel_t1_tx-Safe request op_id time s) v
Step-Safe {s} (replaces_inherited row inherited op event_id started_at release kind same) v =
    after-Safe _ s
      (replace_inherited_tx-Safe row inherited op event_id started_at release kind s same) v
Step-Safe {s} (completes_cancel row op) v =
    after-Safe (cancel_t2_tx row op) s (cancel_t2_tx-Safe row op s) v
Step-Safe {s} (refuses_cancel row op kind copy) v =
    after-Safe (cancel_t2_prime_tx row op) s (cancel_t2_prime_tx-Safe row op s kind copy) v
Step-Safe {s} (inspects_move request time) v =
    after-Safe (inspect_tx request time) s (inspect_tx-Safe request time s) v
Step-Safe {s} (begins_move request ids time) v =
    after-Safe (reschedule_t1_tx request ids time) s (reschedule_t1_tx-Safe request ids time s) v
Step-Safe {s} (completes_move row op resulting kind copy) v =
    after-Safe (complete_reschedule_tx row op resulting) s
      (complete_reschedule_tx-Safe row op s copy kind resulting) v
Step-Safe {s} (abandons_move row op kind copy) v =
    after-Safe (abandon_reschedule_tx row op) s (abandon_reschedule_tx-Safe row op s copy kind) v
Step-Safe {s} (begins_repair id op_id event_id time) v =
    after-Safe (begin_repair_tx id op_id event_id time) s
      (begin_repair_tx-Safe id op_id event_id time s) v
Step-Safe {s} (completes_repair row op etag kind copy) v =
    after-Safe (repair_t2_tx row op etag) s (repair_t2_tx-Safe row op s copy kind etag) v
Step-Safe {s} (clears_repair row op kind copy) v =
    after-Safe (clear_repair_tx row op) s (clear_repair_tx-Safe row op s copy kind) v
Step-Safe {s} (retires_attempt id a) v = retire_attempt-Safe s id a v
Step-Safe {s} (stamps_batch id ids time) v = stamp_reap_batch-Safe s id ids time v

-- Whatever transactions the workers of creates, cancels, reschedules, repairs, takeovers and reaps
-- commit, and in whatever order: no two rows of a host occupy overlapping intervals, each row
-- satisfies CF-1 to CF-3, an op other than a create stands only on a finalized row or is a cancel
-- that carries the unfinished create, and an open reschedule holds its destination. The start has
-- to satisfy this; op ids are not used twice; and while a row names the op that a cancel took over,
-- its creation stays as the cancel read it.
pub Reach-Safe : {s t : MemoryBookingStore} → Safe s → Reach s t → Safe t
Reach-Safe v here = v
Reach-Safe v (next r step) = Step-Safe step (Reach-Safe v r)
