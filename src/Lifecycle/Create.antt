-- ===== src/Lifecycle/Create.antt =====
-- lib/booking/create.ts: the two-phase create of a booking. The test hooks are left out.
mod Types
pub mod T1
pub mod T2
pub mod Insert
pub mod Answer
unfoldable pub use Types.*
use marlo_scheduling.Prelude.{
  ℕ, Bool, true, false, not, ◌&&◌, ◌||◌, Option, none, some, List, [], ◌∷◌, ◌++◌, ◌==◌,
  if◌then◌else◌, is_none, or_else,
}
use marlo_scheduling.Rows.{
  Key, BookingRow, PendingOp, Attempt, CalendarState, RejectionReason, AttemptKind, insert, applied,
  rejected, is_create, is_stale_op, retry_after_seconds, OpKind, Interval,
}
use marlo_scheduling.Store.{ok}
use marlo_scheduling.Google.{
  CalendarEvent, InsertEventInput, SendUpdates, all_guests, no_guests, CalendarAttendee,
  class_definite, class_already_exists,
}
use marlo_scheduling.Lifecycle.Errors.{
  Failure, ErrorCode, LifecycleError, lifecycle, no_availability, error_of, in_progress,
  outcome_unknown, superseded_by, booking_failed, availability_unknown, booking_outcome_unknown,
  idempotency_key_reused,
}
use marlo_scheduling.Lifecycle.World.{
  Step, Context, pure, throw, throw_error, catch, ◌>>=◌, ◌>>◌, now, new_uuid, with_host_lock,
  on_calendar,
}
use marlo_scheduling.Lifecycle.Ops.{
  Observation, present, absent, refused_read, ambiguous_read, new_attempt, write_attempt,
  finish_attempt, observe_id, verify_insert, classify_failure, acquire_stale_op, taken, busy, gone,
}
use marlo_scheduling.Lifecycle.Identity.{CreateOpIdentity}
use marlo_scheduling.Lifecycle.Envelope.{build_envelope, booking_body, on_create}
use marlo_scheduling.Lifecycle.Superseded.{
  SupersededDecision, OwnInsertRef, from_create, respond_success, respond_in_progress,
  respond_superseded, reconcile_superseded, cleanup_own_event, retire_step,
}
use marlo_scheduling.Lifecycle.Reap.{read_row}
use marlo_scheduling.Lifecycle.Busy.{external_busy}
use T1.{L0Result, l0_fenced, l0_existing, l0_missing, l0_tx, T1Input, run_t1}
use T2.{Completed, complete_create}
use Insert.{InsertResult, is_applied_outcome, insert_step, state_after, unknown_result}
use Answer.{answer_row, after_completion}

-- `op.eventId as string`: an op of a create has its event id.
abbrev pub event_id_of : PendingOp → Key
event_id_of op = or_else op.event_id 0

abbrev pub named_op : BookingRow → Key
named_op row = elim row.pending_op [
  | some op ↦ op.op_id
  | none ↦ elim row.unfinished_create [ none ↦ 0 | some unfinished ↦ unfinished.op_id ]
]

abbrev pub identity_of_row : BookingRow → CreateOpIdentity
identity_of_row row = record {
  op_id = named_op row;
  owner_id = row.owner_id;
  idempotency_key = row.idempotency_key;
  create_fingerprint = row.create_fingerprint;
  booking_id = row.id;
}

abbrev pub identity_of : CreateBookingRequest → T1Input → BookingRow → PendingOp → CreateOpIdentity
identity_of request input row op = record {
  op_id = op.op_id;
  owner_id = request.owner_id;
  idempotency_key = request.idempotency_key;
  create_fingerprint = input.fingerprint;
  booking_id = row.id;
}

module _ {C : Type 0} where
  unfoldable pub run_create_calendar_step :
      CreateDeps C
      → CreateBookingRequest
      → BookingRow
      → PendingOp
      → Key
      → CreateOpIdentity
      → Step C CreateOutcome
  unfolding insert_step after_completion
  run_create_calendar_step deps request row op attempt_id identity = do
    result ← insert_step deps.ctx request row op (event_id_of op) attempt_id
    completed ← complete_create deps row op (state_after result.outcome) result.etag
    after_completion deps row op identity result (event_id_of op) attempt_id false completed

  -- An absent event: one more insert under the same id.
  abbrev pub resume_insert :
      CreateDeps C
      → CreateBookingRequest
      → BookingRow
      → PendingOp
      → CreateOpIdentity
      → Step C CreateOutcome
  resume_insert deps request row op identity = do
    attempt_id ← new_uuid deps.ctx
    time ← now
    let again = new_attempt attempt_id insert (event_id_of op) op.gen time none
    written ← write_attempt row op again
    if not written
        then throw_error (in_progress 1)
        else run_create_calendar_step deps request row
            (record op { attempts = op.attempts ++ again ∷ [] }) attempt_id identity

  abbrev pub resume_observed :
      CreateDeps C
      → CreateBookingRequest
      → BookingRow
      → PendingOp
      → CreateOpIdentity
      → Observation
      → Step C CreateOutcome
  resume_observed deps request row op identity (present event) = do
    completed ← complete_create deps row op CalendarState.created (some event.etag)
    after_completion deps row op identity unknown_result (event_id_of op) 0 true completed
  resume_observed deps request row op identity absent = resume_insert deps request row op identity
  resume_observed deps request row op identity _ = throw_error outcome_unknown

  unfoldable pub resume_create :
      CreateDeps C
      → CreateBookingRequest
      → BookingRow
      → PendingOp
      → CreateOpIdentity
      → Step C CreateOutcome
  unfolding run_create_calendar_step after_completion
  resume_create deps request row op identity = do
    observed ← observe_id deps.ctx row.id (event_id_of op)
    resume_observed deps request row op identity observed

  -- An open create op: it is resumed if it is stale, also by the row read under the lock.
  abbrev pub replay_open :
      CreateDeps C → CreateBookingRequest → BookingRow → PendingOp → Step C CreateOutcome
  replay_open deps request row op = do
    time ← now
    if not (is_stale_op op time)
        then throw_error (in_progress (retry_after_seconds op time))
        else (do
          acquired ← acquire_stale_op row (OpKind.create ∷ [])
          elim acquired [
            | busy seconds ↦ throw_error (in_progress seconds)
            | gone ↦ throw_error (in_progress 1)
            | taken op' row' ↦ resume_create deps request row' op' (identity_of_row row)
          ])

  -- No open create op: finalized, or unfinished under another op.
  abbrev pub replay_settled : CreateDeps C → BookingRow → Step C CreateOutcome
  replay_settled deps row =
      if not (is_none row.latest_action) then answer_row deps row else elim row.pending_op [
        | none ↦ throw_error (in_progress 1)
        | some op ↦ do time ← now; throw_error (in_progress (retry_after_seconds op time))
      ]

  unfoldable pub replay_or_resume :
      CreateDeps C → CreateBookingRequest → BookingRow → Key → Step C CreateOutcome
  unfolding resume_create answer_row
  replay_or_resume deps request row fingerprint =
      if not (row.create_fingerprint == fingerprint)
      then throw_error (error_of idempotency_key_reused)
      else elim row.pending_op [
        | none ↦ replay_settled deps row
        | some op ↦
            if is_create op.kind then replay_open deps request row op else replay_settled deps row
      ]

  -- R0: an unknown availability is answered as such, any other failure is handed on.
  abbrev pub unknown_availability : Failure → Step C (List Interval)
  unknown_availability no_availability = throw_error (error_of availability_unknown)
  unknown_availability e = throw e

  abbrev pub read_external :
      CreateDeps C → CreateBookingRequest → Option RejectionReason → Step C (List Interval)
  read_external deps request (some reason) = pure []
  read_external deps request none =
      catch (external_busy deps.ctx (interval_of request) none) unknown_availability

  unfoldable pub after_t1 :
      CreateDeps C → CreateBookingRequest → T1Input → T1Result → Step C CreateOutcome
  unfolding replay_or_resume run_create_calendar_step
  after_t1 deps request input (fenced reason) = throw_error (rejection_error reason)
  after_t1 deps request input (T1Result.rejected reason) = throw_error (rejection_error reason)
  after_t1 deps request input (existing row) = replay_or_resume deps request row input.fingerprint
  after_t1 deps request input failed = throw_error (error_of booking_failed)
  after_t1 deps request input (inserted row op attempt_id) =
      run_create_calendar_step deps request row op attempt_id (identity_of request input row op)

  -- A missing key: the gate, R0, and T1 under freshly drawn ids.
  unfoldable pub submit_new : CreateDeps C → CreateBookingRequest → Step C CreateOutcome
  unfolding after_t1
  submit_new deps request = do
    gated ← deps.gate
    external ← read_external deps request gated
    intended_id ← new_uuid deps.ctx
    op_id ← new_uuid deps.ctx
    booking_id ← new_uuid deps.ctx
    token ← new_uuid deps.ctx
    attempt_id ← new_uuid deps.ctx
    let input : T1Input = record {
      fingerprint = fingerprint_of deps request;
      gated = gated;
      external = external;
      intended_id = intended_id;
      op_id = op_id;
      booking_id = booking_id;
      token = token;
      attempt_id = attempt_id;
    }
    result ← run_t1 request input
    after_t1 deps request input result

  unfoldable pub after_l0 : CreateDeps C → CreateBookingRequest → L0Result → Step C CreateOutcome
  unfolding replay_or_resume submit_new
  after_l0 deps request (l0_fenced reason) = throw_error (rejection_error reason)
  after_l0 deps request (l0_existing row) =
      replay_or_resume deps request row (fingerprint_of deps request)
  after_l0 deps request l0_missing = submit_new deps request

  unfoldable pub create_durable_booking : CreateDeps C → CreateBookingRequest → Step C CreateOutcome
  unfolding after_l0
  create_durable_booking deps request =
      with_host_lock request.host_id
        (λ time tx. (ok (l0_tx request (fingerprint_of deps request) tx), tx))
      >>= after_l0 deps request
