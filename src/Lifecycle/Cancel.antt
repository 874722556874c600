-- ===== src/Lifecycle/Cancel.antt =====
-- lib/booking/cancel.ts: the cancel of a booking. The test hooks are left out.
mod Types
pub mod T1
pub mod T2
pub mod Calendar
unfoldable pub use Types.*
use marlo_scheduling.Prelude.{
  ℕ, zero, suc, ◌+◌, Bool, true, false, Option, none, some, List, [], ◌∷◌, ◌==◌, if◌then◌else◌,
  is_none, or_else, either_of, ◌||◌,
}
use marlo_scheduling.Rows.{
  Key, Instant, BookingRow, PendingOp, UnfinishedCreate, OpKind, is_create, is_confirmed,
  retry_after_seconds,
}
use marlo_scheduling.Lifecycle.Errors.{error_of, in_progress, outcome_unknown, booking_changed}
use marlo_scheduling.Lifecycle.World.{
  Step, Context, pure, throw_error, ◌>>=◌, ◌>>◌, now, new_uuid, with_host_lock,
}
use marlo_scheduling.Lifecycle.Ops.{
  Observation, present, absent, unobserved, BumpResult, bumped, bump_absent, bump_ambiguous,
  observe_id, bump_version, returning,
}
use marlo_scheduling.Lifecycle.Envelope.{booking_body}
use marlo_scheduling.Lifecycle.Reap.{read_row}
use T1.{
  CancelT1, cancel_gone, cancel_changed, cancel_busy, cancel_raced, cancel_resumed, cancel_started,
  cancel_inherits, cancel_t1_tx, replace_inherited_tx,
}
use Calendar.{cancelled_outcome, reap_if_eligible, run_cancel_calendar_step}

-- How the reconciliation of an inherited op ends: completed, with whether the revision advanced; or
-- the cancel goes on under its op, with the create to carry and whether a reservation is released.
pub data InheritedOutcome : Type 0 where
  inherited_completed : Bool → InheritedOutcome
  inherited_proceed : PendingOp → Option UnfinishedCreate → Bool → InheritedOutcome

abbrev pub has_start : Observation → Option Instant → Bool
has_start (present event) (some start) = event.start == start
has_start _ _ = false

abbrev pub is_present : Observation → Bool
is_present (present event) = true
is_present _ = false

abbrev pub carried_create : BookingRow → PendingOp → Key → Instant → Option UnfinishedCreate
carried_create row inherited event_id started_at =
    if is_create inherited.kind
    then if is_none row.latest_action
      then some (record {
        op_id = inherited.op_id;
        gen = inherited.gen;
        event_id = event_id;
        started_at = started_at;
        attempts = inherited.attempts;
      })
      else none
    else none

abbrev pub next_revision : Bool → ℕ → ℕ
next_revision advanced revision = if advanced then revision + 1 else revision

module _ {C : Type 0} where
  abbrev pub unless_ambiguous : BumpResult → Step C (Unit {0})
  unless_ambiguous bump_ambiguous = throw_error outcome_unknown
  unless_ambiguous _ = pure tt

  -- The loop that bumps the version of every event that an op intends.
  unfoldable pub bump_all : Context C → BookingRow → PendingOp → List Key → Step C (Unit {0})
  unfolding bump_version
  bump_all ctx row op [] = pure tt
  bump_all ctx row op (event_id ∷ rest) = do
    result ← bump_version ctx row op event_id
    unless_ambiguous result
    bump_all ctx row op rest

  -- `inherited.eventId as string`: an op of a create or of a repair has its event id.
  unfoldable pub reconcile_inherited_create :
      CancelDeps C → BookingRow → PendingOp → PendingOp → Instant → Step C InheritedOutcome
  unfolding observe_id
  reconcile_inherited_create deps row inherited op started_at = do
    let event_id = or_else inherited.event_id 0
    observed ← observe_id deps.ctx row.id event_id
    elim observed [
      | present event ↦ do deps.complete_inherited row inherited; pure (inherited_completed false)
      | absent ↦
          pure (inherited_proceed op (carried_create row inherited event_id started_at) false)
      | _ ↦ throw_error outcome_unknown
    ]

  abbrev pub observe_optional : Context C → Key → Option Key → Step C Observation
  observe_optional ctx booking_id none = pure absent
  observe_optional ctx booking_id (some event_id) = observe_id ctx booking_id event_id

  unfoldable pub reconcile_inherited_reschedule :
      CancelDeps C → BookingRow → PendingOp → PendingOp → Step C InheritedOutcome
  unfolding observe_id unobserved
  reconcile_inherited_reschedule deps row inherited op = do
    old ← observe_optional deps.ctx row.id inherited.old_event_id
    fallback ← observe_optional deps.ctx row.id inherited.fallback_event_id
    if unobserved old || unobserved fallback
        then throw_error outcome_unknown
        else if has_start old inherited.new_start || is_present fallback
        then (do deps.complete_inherited row inherited; pure (inherited_completed true))
        else pure (inherited_proceed op none true)

  unfoldable pub reconcile_inherited :
      CancelDeps C → BookingRow → PendingOp → PendingOp → Instant → Step C InheritedOutcome
  unfolding bump_all reconcile_inherited_create reconcile_inherited_reschedule intended_ids
  reconcile_inherited deps row inherited op started_at = do
    bump_all deps.ctx row inherited (intended_ids inherited row)
    elim inherited.kind [
      | OpKind.create ↦ reconcile_inherited_create deps row inherited op started_at
      | OpKind.calendar_repair ↦ reconcile_inherited_create deps row inherited op started_at
      | _ ↦ reconcile_inherited_reschedule deps row inherited op
    ]

  -- The row is read again once the op is persisted.
  unfoldable pub run_started : CancelDeps C → BookingRow → PendingOp → Step C CancelOutcome
  unfolding read_row run_cancel_calendar_step
  run_started deps row op = do
    found ← read_row row.id
    run_cancel_calendar_step deps (or_else found row) op

  unfoldable pub replace_inherited :
      CancelDeps C
      → BookingRow
      → PendingOp
      → PendingOp
      → Option UnfinishedCreate
      → Bool
      → Step C CancelOutcome
  unfolding replace_inherited_tx run_started
  replace_inherited deps row inherited op carry release = do
    started ←
        with_host_lock row.host_id
          λ time. returning (replace_inherited_tx row inherited op carry release)
    if started then run_started deps row op else throw_error (in_progress 1)

  -- `again` is the one re-entry, after an inherited op completed.
  unfoldable pub after_cancel_t1 :
      CancelDeps C
      → (CancelRequest → Step C CancelOutcome)
      → CancelRequest
      → CancelT1
      → Step C CancelOutcome
  unfolding bump_all reconcile_inherited run_started replace_inherited run_cancel_calendar_step
      intended_ids retry_after_seconds
  after_cancel_t1 deps again request cancel_gone = throw_error (error_of booking_changed)
  after_cancel_t1 deps again request (cancel_changed row) =
      throw_error
        (record (error_of booking_changed) { booking = some (booking_body row deps.meta) })
  after_cancel_t1 deps again request cancel_raced = throw_error (in_progress 1)
  after_cancel_t1 deps again request (cancel_busy op) = do
    time ← now
    throw_error (in_progress (retry_after_seconds op time))
  after_cancel_t1 deps again request (cancel_resumed row op) = do
    bump_all deps.ctx row op (intended_ids op row)
    run_cancel_calendar_step deps row op
  after_cancel_t1 deps again request (cancel_started row op) = run_started deps row op
  after_cancel_t1 deps again request (cancel_inherits row op inherited started_at carry) = do
    outcome ← reconcile_inherited deps row inherited op started_at
    elim outcome [
      | inherited_completed advanced ↦
          again (record request {
            expected_revision = next_revision advanced request.expected_revision;
          })
      | inherited_proceed op' carry' release ↦
          replace_inherited deps row inherited op' (either_of carry' carry) release
    ]

  -- The retry of a completed cancel: the reap of late inserts, and the row as it then is.
  unfoldable pub repeat_cancel : CancelDeps C → BookingRow → Step C CancelOutcome
  unfolding read_row cancelled_outcome
  repeat_cancel deps row = do
    reap_if_eligible deps.ctx row
    found ← read_row row.id
    cancelled_outcome deps (or_else found row)

  unfoldable pub cancel_once :
      CancelDeps C → (CancelRequest → Step C CancelOutcome) → CancelRequest → Step C CancelOutcome
  unfolding read_row repeat_cancel cancel_t1_tx after_cancel_t1
  cancel_once deps again request = do
    found ← read_row request.booking_id
    elim found [
      | none ↦ throw_error (error_of booking_changed)
      | some existing ↦
          if is_confirmed existing.status
          then (do
            op_id ← new_uuid deps.ctx
            t1 ← with_host_lock existing.host_id λ time. returning (cancel_t1_tx request op_id time)
            after_cancel_t1 deps again request t1)
          else repeat_cancel deps existing
    ]

  -- The passes that are left: pass 0 has two, pass 2 has none.
  unfoldable pub cancel_pass : ℕ → CancelDeps C → CancelRequest → Step C CancelOutcome
  unfolding cancel_once
  cancel_pass zero deps request = throw_error (in_progress 1)
  cancel_pass (suc left) deps request = cancel_once deps (cancel_pass left deps) request

  unfoldable pub cancel_durable_booking : CancelDeps C → CancelRequest → Step C CancelOutcome
  unfolding cancel_pass
  cancel_durable_booking deps request = cancel_pass 2 deps request
