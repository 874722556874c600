-- ===== src/Booking/Keeps/Cleanup.antt =====
-- lib/booking/ops.ts, reap.ts, superseded.ts and occupancy.ts keep the invariant of the store.
use marlo_scheduling.Prelude.{
  ℕ, Bool, false, Option, none, some, List, [], ◌∷◌, ◌++◌, Bool-cases, leb, length, Option-cases,
  inl, inr,
}
use marlo_scheduling.Rows.{
  Key, BookingRow, PendingOp, OpKind, Attempt, AttemptOutcome, Interval, reap_max_per_request,
}
use marlo_scheduling.Store.{select_for_update}
use marlo_scheduling.Google.{
  CalendarEvent, CalendarOutcomeClass, class_applied, class_definite, class_ambiguous,
  class_precondition_failed, class_already_exists, DeleteOutcome,
}
use marlo_scheduling.Lifecycle.Errors.{Failure}
use marlo_scheduling.Lifecycle.World.{Step, Context, pure}
use marlo_scheduling.Lifecycle.Ops.{
  write_attempt, finish_attempt, observe_id, verify_insert, acquire_stale_op, Observation,
  classify_failure,
}
use marlo_scheduling.Lifecycle.Superseded.{
  SupersededInput, SupersededDecision, reconcile_superseded, retire_step, cleanup_own_event,
  remove_own, cleanup_observed, cleanup_after_412, after_delete, after_second_delete,
  retire_if_absent,
}
use marlo_scheduling.Lifecycle.Busy.{
  ReapCandidate, RowGroup, booking_id_of, pick, ReadRow, choose, remove_chosen, after_removal,
  reap_listed_items, read_rows, external_busy,
}
use marlo_scheduling.Lifecycle.Reap.{read_row, select_listed_batch, remove_event}
use marlo_scheduling.Booking.Writes.{retire_attempt-Inv}
use marlo_scheduling.Booking.Transactions.{
  append_attempt-TxKeeps, resolve_attempt-TxKeeps, acquire_tx-TxKeeps, reads-TxKeeps,
  select_listed_tx-TxKeeps,
}
use marlo_scheduling.Booking.Keeps.Steps.{
  Keeps, option-Keeps, pure-Keeps, throw-Keeps, if-Keeps, catch-Keeps, bind-Keeps, then-Keeps,
  on_calendar-Keeps, on_store-Keeps, with_host_lock-Keeps, now-Keeps,
}

module _ {C : Type 0} where
  pub write_attempt-Keeps :
      (row : BookingRow) (op : PendingOp) (a : Attempt) → Keeps C Bool (write_attempt row op a)
  unfolding write_attempt
  write_attempt-Keeps row op a =
      with_host_lock-Keeps _ _ λ t. append_attempt-TxKeeps row.id op.op_id op.gen a

  pub finish_attempt-Keeps :
      (row : BookingRow) (op : PendingOp) (a : Key) (outcome : AttemptOutcome)
      → Keeps C Bool (finish_attempt row op a outcome)
  unfolding finish_attempt
  finish_attempt-Keeps row op a outcome =
      with_host_lock-Keeps _ _ λ t. resolve_attempt-TxKeeps row.id op.op_id op.gen a outcome t

  pub acquire_stale_op-Keeps :
      (row : BookingRow) (kinds : List OpKind) → Keeps C _ (acquire_stale_op row kinds)
  unfolding acquire_stale_op
  acquire_stale_op-Keeps row kinds = with_host_lock-Keeps _ _ λ t. acquire_tx-TxKeeps row.id kinds t

  pub observe_id-Keeps : (ctx : Context C) (b e : Key) → Keeps C Observation (observe_id ctx b e)
  unfolding observe_id
  observe_id-Keeps ctx b e =
      catch-Keeps _ _ (bind-Keeps _ _ (on_calendar-Keeps _) λ a. pure-Keeps _) λ x. pure-Keeps _

  pub verify_insert-Keeps :
      (ctx : Context C) (b e : Key) (event : CalendarEvent)
      → Keeps C Observation (verify_insert ctx b e event)
  unfolding verify_insert
  verify_insert-Keeps ctx b e event = if-Keeps _ _ _ (pure-Keeps _) (observe_id-Keeps ctx b e)

  pub read_row-Keeps : (id : Key) → Keeps C (Option BookingRow) (read_row id)
  unfolding read_row
  read_row-Keeps id = on_store-Keeps _ λ s v. v

  pub retire_step-Keeps : (b a : Key) → Keeps C (Unit {0}) (retire_step b a)
  unfolding retire_step
  retire_step-Keeps b a = on_store-Keeps _ λ s v. retire_attempt-Inv s b a v

  pub remove_event-Keeps : (ctx : Context C) (e etag : Key) → Keeps C _ (remove_event ctx e etag)
  unfolding remove_event
  remove_event-Keeps ctx e etag = on_calendar-Keeps _

  pub reconcile_superseded-Keeps :
      (input : SupersededInput) (h : Key)
      → Keeps C SupersededDecision (reconcile_superseded input h)
  unfolding reconcile_superseded
  reconcile_superseded-Keeps input h =
      bind-Keeps _ _
        (with_host_lock-Keeps _ _ λ t. reads-TxKeeps λ tx. select_for_update tx input.booking_id)
        λ row. bind-Keeps _ _ now-Keeps λ t. pure-Keeps _

  remove_own-Keeps :
      (ctx : Context C) (e etag : Key) → Keeps C DeleteOutcome (remove_own ctx e etag)
  unfolding remove_own
  remove_own-Keeps ctx e etag = on_calendar-Keeps _

  retire_if_absent-Keeps : (b a : Key) (e : Failure) → Keeps C Bool (retire_if_absent b a e)
  retire_if_absent-Keeps b a e =
      if-Keeps _ _ _ (then-Keeps _ _ (retire_step-Keeps b a) (pure-Keeps _)) (pure-Keeps _)

  after_second_delete-Keeps : (b a : Key) (e : Failure) → Keeps C Bool (after_second_delete b a e)
  after_second_delete-Keeps b a e = by_class (classify_failure e) (retire_if_absent-Keeps b a e)
    where
      by_class :
          {m : Step C Bool} (c : CalendarOutcomeClass)
          → Keeps C Bool m
          → Keeps C Bool (elim c [ class_definite ↦ m | _ ↦ pure false ])
      by_class class_definite h = h
      by_class class_applied h = pure-Keeps _
      by_class class_ambiguous h = pure-Keeps _
      by_class class_precondition_failed h = pure-Keeps _
      by_class class_already_exists h = pure-Keeps _

  cleanup_observed-Keeps :
      (ctx : Context C) (b e a : Key) (event : Option CalendarEvent)
      → Keeps C Bool (cleanup_observed ctx b e a event)
  unfolding cleanup_observed
  cleanup_observed-Keeps ctx b e a none = then-Keeps _ _ (retire_step-Keeps b a) (pure-Keeps _)
  cleanup_observed-Keeps ctx b e a (some event) =
      if-Keeps _ _ _ (then-Keeps _ _ (retire_step-Keeps b a) (pure-Keeps _)) (
        catch-Keeps _ _
          (then-Keeps _ _ (remove_own-Keeps ctx e event.etag)
            (then-Keeps _ _ (retire_step-Keeps b a) (pure-Keeps _)))
          (after_second_delete-Keeps b a))

  cleanup_after_412-Keeps :
      (ctx : Context C) (b e a : Key) → Keeps C Bool (cleanup_after_412 ctx b e a)
  unfolding cleanup_after_412
  cleanup_after_412-Keeps ctx b e a =
      bind-Keeps _ _
        (catch-Keeps _ _ (bind-Keeps _ _ (on_calendar-Keeps _) λ x. pure-Keeps _) λ x. pure-Keeps _)
        (λ again. option-Keeps again _ _ (pure-Keeps _) (cleanup_observed-Keeps ctx b e a))

  after_delete-Keeps :
      (ctx : Context C) (b e a : Key) (x : Failure) → Keeps C Bool (after_delete ctx b e a x)
  after_delete-Keeps ctx b e a x =
      by_class (classify_failure x) (cleanup_after_412-Keeps ctx b e a)
        (retire_if_absent-Keeps b a x)
    where
      by_class :
          {m n : Step C Bool} (c : CalendarOutcomeClass)
          → Keeps C Bool m
          → Keeps C Bool n
          → Keeps C Bool
              (elim c [ class_precondition_failed ↦ m | class_definite ↦ n | _ ↦ pure false ])
      by_class class_definite h k = k
      by_class class_applied h k = pure-Keeps _
      by_class class_ambiguous h k = pure-Keeps _
      by_class class_precondition_failed h k = h
      by_class class_already_exists h k = pure-Keeps _

  pub cleanup_own_event-Keeps :
      (ctx : Context C) (b e a etag : Key) → Keeps C Bool (cleanup_own_event ctx b e a etag)
  unfolding cleanup_own_event
  cleanup_own_event-Keeps ctx b e a etag =
      catch-Keeps _ _
        (then-Keeps _ _ (remove_own-Keeps ctx e etag)
          (then-Keeps _ _ (retire_step-Keeps b a) (pure-Keeps _)))
        (after_delete-Keeps ctx b e a)

  select_listed_batch-Keeps :
      (b : Key) (listed : List Key) (max : ℕ)
      → Keeps C (List Key) (select_listed_batch b listed max)
  unfolding select_listed_batch
  select_listed_batch-Keeps b listed max = if-Keeps _ _ _ (pure-Keeps _) (
      bind-Keeps _ _ (read_row-Keeps b) λ row.
        option-Keeps row _ _ (pure-Keeps _)
          λ r. with_host_lock-Keeps _ _ λ t. select_listed_tx-TxKeeps b listed max t)

  choose-Keeps :
      (max : ℕ) (chosen : List ReapCandidate) (groups : List RowGroup)
      → Keeps C (List ReapCandidate) (choose max chosen groups)
  unfolding choose
  choose-Keeps max chosen [] = pure-Keeps _
  choose-Keeps max chosen (group ∷ rest) = elim (Bool-cases (leb max (length chosen))) [
    | inl e ↦ rw (e, choose) (pure-Keeps _)
    | inr e ↦
        rw (e, choose)
          (bind-Keeps _ _ (select_listed_batch-Keeps _ _ _)
            λ batch. choose-Keeps max (chosen ++ pick group.candidates batch) rest)
  ]

  after_removal-Keeps :
      (c : ReapCandidate) (deleted : List Key) → Keeps C (List Key) (after_removal c deleted)
  after_removal-Keeps c deleted = elim (Option-cases c.attempt_id) [
    | inl e ↦ rw e (pure-Keeps _)
    | inr (a, e) ↦ rw e (then-Keeps _ _ (retire_step-Keeps _ _) (pure-Keeps _))
  ]

  remove_chosen-Keeps :
      (ctx : Context C) (deleted : List Key) (chosen : List ReapCandidate)
      → Keeps C (List Key) (remove_chosen ctx deleted chosen)
  unfolding remove_chosen
  remove_chosen-Keeps ctx deleted [] = pure-Keeps _
  remove_chosen-Keeps ctx deleted (c ∷ rest) =
      bind-Keeps _ _
        (catch-Keeps _ _ (then-Keeps _ _ (remove_event-Keeps ctx _ _) (pure-Keeps _))
          λ x. pure-Keeps _)
        (λ removed.
          bind-Keeps _ _ (if-Keeps removed _ _ (after_removal-Keeps c deleted) (pure-Keeps _))
            (λ next. remove_chosen-Keeps ctx next rest))

  read_rows-Keeps :
      (rows : List ReadRow) (items : List CalendarEvent)
      → Keeps C (List ReadRow) (read_rows rows items)
  unfolding read_rows
  read_rows-Keeps rows [] = pure-Keeps _
  read_rows-Keeps rows (item ∷ items) =
      if-Keeps _ _ _
        (bind-Keeps _ _ (read_row-Keeps _) λ row.
          read_rows-Keeps (rows ++ record { booking_id = booking_id_of item; row = row } ∷ [])
            items)
        (read_rows-Keeps rows items)

  pub external_busy-Keeps :
      (ctx : Context C) (window : Interval) (exclude : Option Key)
      → Keeps C (List Interval) (external_busy ctx window exclude)
  unfolding external_busy reap_listed_items
  external_busy-Keeps ctx window exclude =
      bind-Keeps _ _ (catch-Keeps _ _ (on_calendar-Keeps _) λ x. throw-Keeps _) (λ items.
        bind-Keeps _ _ (read_rows-Keeps [] items) (λ rows.
          then-Keeps _ _
            (bind-Keeps _ _ (choose-Keeps reap_max_per_request [] _)
              λ chosen. remove_chosen-Keeps ctx [] chosen)
            (pure-Keeps _)))
