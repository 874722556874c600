-- ===== src/Lifecycle/Ops.antt =====
-- lib/booking/ops.ts: owned operation state. Log lines have no effect on the state and are left
-- out.
use marlo_scheduling.Prelude.{
  ℕ, ◌+◌, Bool, true, false, not, ◌&&◌, ◌||◌, Option, none, some, List, [], ◌==◌, if◌then◌else◌,
  any,
}
use marlo_scheduling.Rows.{
  Key, Instant, BookingRow, PendingOp, OpKind, Attempt, AttemptKind, AttemptOutcome, applied,
  rejected, unresolved, bump, is_stale_op, retry_after_seconds,
}
use marlo_scheduling.Store.{
  Result, ok, MemoryTx, append_attempt, resolve_attempt, take_over, select_for_update,
}
use marlo_scheduling.Google.{
  CalendarEvent, CalendarOutcomeClass, class_applied, class_definite, class_ambiguous,
  class_precondition_failed, classify_calendar_error, classify_status, is_absence_status, no_guests,
}
use marlo_scheduling.Lifecycle.Errors.{Failure, lifecycle, calendar, superseded_worker}
use marlo_scheduling.Lifecycle.World.{
  Context, Step, pure, throw, catch, ◌>>=◌, ◌>>◌, now, new_uuid, with_host_lock, on_calendar,
}

-- The optional fields that a caller gives to `beginOp`.
pub record OpFields : Type 0 where
  pub event_id : Option Key
  pub new_start : Option Instant
  pub new_end : Option Instant
  pub old_event_id : Option Key
  pub fallback_event_id : Option Key
  pub etag : Option Key

abbrev pub no_fields : OpFields
no_fields = record {
  event_id = none;
  new_start = none;
  new_end = none;
  old_event_id = none;
  fallback_event_id = none;
  etag = none;
}

unfoldable pub begin_op : OpKind → Instant → Key → OpFields → PendingOp
begin_op kind started_at op_id fields = record {
  kind = kind;
  op_id = op_id;
  gen = 1;
  started_at = started_at;
  event_id = fields.event_id;
  new_start = fields.new_start;
  new_end = fields.new_end;
  old_event_id = fields.old_event_id;
  fallback_event_id = fields.fallback_event_id;
  etag = fields.etag;
  attempts = [];
}

unfoldable pub new_attempt : Key → AttemptKind → Key → ℕ → Instant → Option Key → Attempt
new_attempt attempt_id kind event_id gen issued_at if_match = record {
  attempt_id = attempt_id;
  kind = kind;
  event_id = event_id;
  gen = gen;
  issued_at = issued_at;
  if_match = if_match;
  outcome = unresolved;
  resolved_at = none;
}

-- A transaction that returns the answer of one method.
abbrev pub returning :
    {A : Type 0} → (MemoryTx → A × MemoryTx) → MemoryTx → Result Failure A × MemoryTx
returning call tx = let (a, tx') = call tx in (ok a, tx')

-- The class of what a `catch` receives. A lifecycle error carries a `status`, which is read.
unfoldable pub classify_failure : Failure → CalendarOutcomeClass
unfolding classify_calendar_error classify_status
classify_failure (calendar thrown) = classify_calendar_error thrown
classify_failure (lifecycle e) = classify_status e.status
classify_failure _ = class_ambiguous

unfoldable pub is_absence_failure : Failure → Bool
unfolding is_absence_status
is_absence_failure (calendar thrown) = is_absence_status thrown
is_absence_failure (lifecycle e) = (e.status == 404) || (e.status == 410)
is_absence_failure _ = false

pub data Observation : Type 0 where
  present : CalendarEvent → Observation
  absent : Observation
  refused_read : Failure → Observation
  ambiguous_read : Failure → Observation

unfoldable pub unobserved : Observation → Bool
unobserved (refused_read e) = true
unobserved (ambiguous_read e) = true
unobserved _ = false

-- The event under an id counts as this booking's unless it names another booking.
abbrev pub is_foreign : Key → Option Key → Bool
is_foreign booking_id none = false
is_foreign booking_id (some id) = not (id == booking_id)

unfoldable pub observed_event : Key → Option CalendarEvent → Observation
observed_event booking_id none = absent
observed_event booking_id (some event) =
    if is_foreign booking_id event.marlo_booking_id then absent else present event

unfoldable pub observed_failure : Failure → Observation
unfolding classify_failure is_absence_failure
observed_failure e = elim (classify_failure e) [
  | class_definite ↦ if is_absence_failure e then absent else refused_read e
  | _ ↦ ambiguous_read e
]

pub data BumpResult : Type 0 where
  bumped : Key → BumpResult
  bump_absent : BumpResult
  bump_ambiguous : BumpResult

pub data AcquiredOp : Type 0 where
  taken : PendingOp → BookingRow → AcquiredOp
  busy : ℕ → AcquiredOp
  gone : AcquiredOp

abbrev pub same_kind : OpKind → OpKind → Bool
same_kind OpKind.create OpKind.create = true
same_kind OpKind.reschedule OpKind.reschedule = true
same_kind OpKind.cancel OpKind.cancel = true
same_kind OpKind.calendar_repair OpKind.calendar_repair = true
same_kind _ _ = false

-- `takeOverOp`: the op under its next generation, if the row still names this one.
unfoldable pub take_over_op : BookingRow → PendingOp → ℕ → MemoryTx → Option PendingOp × MemoryTx
take_over_op row op time tx =
    let (done, tx') = take_over row.id op.op_id op.gen time tx in
    (if done then some (record op { gen = op.gen + 1; started_at = time }) else none, tx')

abbrev pub taken_or_busy : BookingRow → Option PendingOp → AcquiredOp
taken_or_busy row none = busy 1
taken_or_busy row (some op) = taken op row

-- The transaction of `acquireStaleOp`, from the row that it reads under the lock.
unfoldable pub acquire_from : List OpKind → ℕ → Option BookingRow → MemoryTx → AcquiredOp × MemoryTx
unfolding is_stale_op take_over_op
acquire_from kinds time none tx = (gone, tx)
acquire_from kinds time (some fresh) tx = elim fresh.pending_op [
  | none ↦ (gone, tx)
  | some op ↦
      if not (any (same_kind op.kind) kinds)
      then (gone, tx)
      else if not (is_stale_op op time)
      then (busy (retry_after_seconds op time), tx)
      else let (op', tx') = take_over_op fresh op time tx in (taken_or_busy fresh op', tx')
]

unfoldable pub acquire_tx : Key → List OpKind → ℕ → MemoryTx → AcquiredOp × MemoryTx
unfolding acquire_from
acquire_tx id kinds time tx = acquire_from kinds time (select_for_update tx id) tx

-- After a 412 the bump observes once more.
abbrev bump_again : Observation → BumpResult
bump_again (present event) = bumped event.etag
bump_again absent = bump_absent
bump_again _ = bump_ambiguous

module _ {C : Type 0} where
  unfoldable pub write_attempt : BookingRow → PendingOp → Attempt → Step C Bool
  write_attempt row op a =
      with_host_lock row.host_id λ time. returning (append_attempt row.id op.op_id op.gen a)

  unfoldable pub finish_attempt : BookingRow → PendingOp → Key → AttemptOutcome → Step C Bool
  finish_attempt row op attempt_id outcome =
      with_host_lock row.host_id
        λ time. returning (resolve_attempt row.id op.op_id op.gen attempt_id outcome time)

  unfoldable pub fail_attempt : BookingRow → PendingOp → Key → Failure → Step C Bool
  unfolding finish_attempt
  fail_attempt row op attempt_id e = elim (classify_failure e) [
    | class_ambiguous ↦ pure false
    | class_applied ↦ pure false
    | _ ↦ finish_attempt row op attempt_id rejected
  ]

  unfoldable pub observe_id : Context C → Key → Key → Step C Observation
  unfolding observed_event observed_failure
  observe_id ctx booking_id event_id =
      catch
        (do
          event ←
              on_calendar
                (ctx.client.get (record { calendar_id = ctx.calendar_id; event_id = event_id }))
          pure (observed_event booking_id event))
        (λ e. pure (observed_failure e))

  unfoldable pub verify_insert : Context C → Key → Key → CalendarEvent → Step C Observation
  unfolding observe_id
  verify_insert ctx booking_id event_id inserted =
      if (inserted.id == event_id)
        && not (inserted.etag == 0)
        && not (is_foreign booking_id inserted.marlo_booking_id)
      then pure (present inserted)
      else observe_id ctx booking_id event_id

  abbrev bump_failure : Context C → BookingRow → PendingOp → Key → Key → Failure → Step C BumpResult
  bump_failure ctx row op event_id attempt_id e = elim (classify_failure e) [
    | class_precondition_failed ↦ do
      finish_attempt row op attempt_id rejected
      again ← observe_id ctx row.id event_id
      pure (bump_again again)
    | class_definite ↦
        if is_absence_failure e
        then (do finish_attempt row op attempt_id rejected; pure bump_absent)
        else pure bump_ambiguous
    | _ ↦ pure bump_ambiguous
  ]

  unfoldable pub bump_present :
      Context C → BookingRow → PendingOp → Key → CalendarEvent → Step C BumpResult
  unfolding write_attempt finish_attempt
  bump_present ctx row op event_id event = do
    attempt_id ← new_uuid ctx
    time ← now
    written ←
        write_attempt row op (new_attempt attempt_id bump event_id op.gen time (some event.etag))
    if not written
        then throw superseded_worker
        else catch
            (do
              patched ← on_calendar (
                  ctx.client.patch (record {
                    calendar_id = ctx.calendar_id;
                    event_id = event_id;
                    start = none;
                    end = none;
                    summary = none;
                    attendees = [];
                    send_updates = no_guests;
                    if_match = event.etag;
                    op_gen = some (op.op_id, op.gen);
                  }))
              finish_attempt row op attempt_id applied
              pure (bumped patched.etag))
            (bump_failure ctx row op event_id attempt_id)

  unfoldable pub bump_version : Context C → BookingRow → PendingOp → Key → Step C BumpResult
  unfolding observe_id bump_present
  bump_version ctx row op event_id = do
    observed ← observe_id ctx row.id event_id
    elim observed [
      | present event ↦ bump_present ctx row op event_id event
      | absent ↦ pure bump_absent
      | refused_read e ↦ pure bump_ambiguous
      | ambiguous_read e ↦ pure bump_ambiguous
    ]

  unfoldable pub acquire_stale_op : BookingRow → List OpKind → Step C AcquiredOp
  unfolding acquire_tx
  acquire_stale_op row kinds =
      with_host_lock row.host_id λ time. returning (acquire_tx row.id kinds time)
