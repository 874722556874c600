-- ===== src/Booking/Keeps/Create.antt =====
-- A create of lib/booking/create.ts keeps the invariant of the store.
use marlo_scheduling.Prelude.{
  ◌≡◌, refl, Bool, true, false, Option, none, some, List, [], ◌∷◌, or_else,
}
use marlo_scheduling.Rows.{
  Key, BookingRow, PendingOp, OpKind, Interval, CalendarState, is_pending, RejectionReason,
}
use marlo_scheduling.Store.{Result, ok}
use marlo_scheduling.Lifecycle.Errors.{
  Failure, in_progress, unknown_commit, outcome_unresolved, lifecycle, calendar, no_availability,
  superseded_worker, broken,
}
use marlo_scheduling.Lifecycle.World.{throw_error, ◌>>=◌}
use marlo_scheduling.Lifecycle.Ops.{
  AcquiredOp, busy, gone, taken, Observation, present, absent, refused_read, ambiguous_read,
}
use marlo_scheduling.Lifecycle.Envelope.{on_create}
use marlo_scheduling.Lifecycle.Identity.{CreateOpIdentity}
use marlo_scheduling.Lifecycle.Create.{
  CreateBookingRequest, CreateOutcome, CreateDeps, fingerprint_of, event_id_of, identity_of,
  identity_of_row, T1Result, inserted, existing, fenced, failed, run_create_calendar_step,
  resume_observed, resume_create, replay_open, replay_settled, replay_or_resume,
  unknown_availability, read_external, after_t1, submit_new, after_l0, create_durable_booking,
}
use marlo_scheduling.Lifecycle.Create.T1.{
  T1Input, L0Result, l0_fenced, l0_existing, l0_missing, l0_tx, run_t1,
}
use marlo_scheduling.Lifecycle.Create.T2.{Completed}
use marlo_scheduling.Lifecycle.Create.Insert.{
  InsertResult, unknown_result, InsertOutcome, insert_applied, insert_definite, insert_ambiguous,
  state_after,
}
use marlo_scheduling.Lifecycle.Create.Answer.{after_completion}
use marlo_scheduling.Booking.Transactions.{reads-TxKeeps}
use marlo_scheduling.Booking.Keeps.Steps.{
  Keeps, option-Keeps, pure-Keeps, throw-Keeps, if-Keeps, catch-Keeps, bind-Keeps, then-Keeps,
  with_host_lock-Keeps, now-Keeps, new_uuid-Keeps,
}
use marlo_scheduling.Booking.Keeps.Cleanup.{
  write_attempt-Keeps, acquire_stale_op-Keeps, observe_id-Keeps, read_row-Keeps,
  external_busy-Keeps,
}
use marlo_scheduling.Booking.Keeps.Completion.{
  build_envelope-Keeps, run_t1-Keeps, complete_create-Keeps,
}
use marlo_scheduling.Booking.Keeps.Insert.{
  answer_row-Keeps, superseded_create-Keeps, insert_step-Keeps,
}

module _ {C : Type 0} (deps : CreateDeps C)
    (notify : (row : BookingRow) → Keeps C (Unit {0}) (deps.notify row)) where
  after_completion-Keeps :
      (row : BookingRow) (op : PendingOp) (identity : CreateOpIdentity) (result : InsertResult)
      (e a : Key) (replayed : Bool) (completed : Completed)
      → Keeps C CreateOutcome (after_completion deps row op identity result e a replayed completed)
  unfolding after_completion
  after_completion-Keeps row op identity result e a replayed completed =
      if-Keeps _ _ _ (superseded_create-Keeps deps row op identity _ _ e a) (
        then-Keeps _ _ (notify completed.row) (
          bind-Keeps _ _ (read_row-Keeps row.id) λ found.
            bind-Keeps _ _ (build_envelope-Keeps (or_else found completed.row) deps.meta on_create)
              λ env. pure-Keeps _))

  state_after-settled : (o : InsertOutcome) → is_pending (state_after o) ≡ false
  state_after-settled insert_applied = refl
  state_after-settled insert_definite = refl
  state_after-settled insert_ambiguous = refl

  run_create_calendar_step-Keeps :
      (request : CreateBookingRequest) (row : BookingRow) (op : PendingOp) (a : Key)
      (identity : CreateOpIdentity)
      → Keeps C CreateOutcome (run_create_calendar_step deps request row op a identity)
  unfolding run_create_calendar_step
  run_create_calendar_step-Keeps request row op a identity =
      bind-Keeps _ _ (insert_step-Keeps deps.ctx request row op (event_id_of op) a) λ result.
        bind-Keeps _ _
          (complete_create-Keeps deps row op (state_after result.outcome) result.etag
            (state_after-settled result.outcome))
          (after_completion-Keeps row op identity result (event_id_of op) a false)

  resume_observed-Keeps :
      (request : CreateBookingRequest) (row : BookingRow) (op : PendingOp)
      (identity : CreateOpIdentity) (o : Observation)
      → Keeps C CreateOutcome (resume_observed deps request row op identity o)
  resume_observed-Keeps request row op identity (present event) =
      bind-Keeps _ _
        (complete_create-Keeps deps row op CalendarState.created (some event.etag) refl)
        (after_completion-Keeps row op identity unknown_result (event_id_of op) 0 true)
  resume_observed-Keeps request row op identity absent =
      bind-Keeps _ _ (new_uuid-Keeps deps.ctx) λ a. bind-Keeps _ _ now-Keeps λ t.
        bind-Keeps _ _ (write_attempt-Keeps row op _) λ written.
          if-Keeps _ _ _ (throw-Keeps _) (run_create_calendar_step-Keeps request row _ a identity)
  resume_observed-Keeps request row op identity (refused_read e) = throw-Keeps _
  resume_observed-Keeps request row op identity (ambiguous_read e) = throw-Keeps _

  resume_create-Keeps :
      (request : CreateBookingRequest) (row : BookingRow) (op : PendingOp)
      (identity : CreateOpIdentity)
      → Keeps C CreateOutcome (resume_create deps request row op identity)
  unfolding resume_create
  resume_create-Keeps request row op identity =
      bind-Keeps _ _ (observe_id-Keeps deps.ctx row.id (event_id_of op))
        (resume_observed-Keeps request row op identity)

  replay_open-Keeps :
      (request : CreateBookingRequest) (row : BookingRow) (op : PendingOp)
      → Keeps C CreateOutcome (replay_open deps request row op)
  replay_open-Keeps request row op = bind-Keeps _ _ now-Keeps λ t.
      if-Keeps _ _ _ (throw-Keeps _)
        (bind-Keeps _ _ (acquire_stale_op-Keeps row (OpKind.create ∷ [])) acquired)
    where
      acquired :
          (a : AcquiredOp)
          → Keeps C CreateOutcome (elim a [
            | busy seconds ↦ throw_error (in_progress seconds)
            | gone ↦ throw_error (in_progress 1)
            | taken op' row' ↦ resume_create deps request row' op' (identity_of_row row)
          ])
      acquired (busy seconds) = throw-Keeps _
      acquired gone = throw-Keeps _
      acquired (taken op' row') = resume_create-Keeps request row' op' (identity_of_row row)

  replay_settled-Keeps : (row : BookingRow) → Keeps C CreateOutcome (replay_settled deps row)
  replay_settled-Keeps row = if-Keeps _ _ _ (answer_row-Keeps deps row) (
      option-Keeps row.pending_op _ _ (throw-Keeps _)
        λ op. bind-Keeps _ _ now-Keeps λ t. throw-Keeps _)

  replay_or_resume-Keeps :
      (request : CreateBookingRequest) (row : BookingRow) (fp : Key)
      → Keeps C CreateOutcome (replay_or_resume deps request row fp)
  unfolding replay_or_resume
  replay_or_resume-Keeps request row fp = if-Keeps _ _ _ (throw-Keeps _) (
      option-Keeps row.pending_op _ _ (replay_settled-Keeps row)
        λ op. if-Keeps _ _ _ (replay_open-Keeps request row op) (replay_settled-Keeps row))

  unknown_availability-Keeps : (e : Failure) → Keeps C (List Interval) (unknown_availability e)
  unknown_availability-Keeps no_availability = throw-Keeps _
  unknown_availability-Keeps outcome_unresolved = throw-Keeps _
  unknown_availability-Keeps unknown_commit = throw-Keeps _
  unknown_availability-Keeps (lifecycle e) = throw-Keeps _
  unknown_availability-Keeps (calendar e) = throw-Keeps _
  unknown_availability-Keeps superseded_worker = throw-Keeps _
  unknown_availability-Keeps broken = throw-Keeps _

  read_external-Keeps :
      (request : CreateBookingRequest) (gated : Option RejectionReason)
      → Keeps C (List Interval) (read_external deps request gated)
  read_external-Keeps request (some reason) = pure-Keeps _
  read_external-Keeps request none =
      catch-Keeps _ _ (external_busy-Keeps deps.ctx _ none) unknown_availability-Keeps

  after_t1-Keeps :
      (request : CreateBookingRequest) (input : T1Input) (r : T1Result)
      → Keeps C CreateOutcome (after_t1 deps request input r)
  unfolding after_t1
  after_t1-Keeps request input (fenced reason) = throw-Keeps _
  after_t1-Keeps request input (T1Result.rejected reason) = throw-Keeps _
  after_t1-Keeps request input (existing row) = replay_or_resume-Keeps request row input.fingerprint
  after_t1-Keeps request input failed = throw-Keeps _
  after_t1-Keeps request input (inserted row op a) =
      run_create_calendar_step-Keeps request row op a (identity_of request input row op)

  submitted-Keeps :
      (request : CreateBookingRequest) (input : T1Input)
      → Keeps C CreateOutcome (run_t1 request input >>= after_t1 deps request input)
  submitted-Keeps request input =
      bind-Keeps _ _ (run_t1-Keeps request input) (after_t1-Keeps request input)

  module _ (gate : Keeps C (Option RejectionReason) deps.gate) where
    submit_new-Keeps :
        (request : CreateBookingRequest) → Keeps C CreateOutcome (submit_new deps request)
    unfolding submit_new
    submit_new-Keeps request = bind-Keeps _ _ gate λ gated.
        bind-Keeps _ _ (read_external-Keeps request gated) λ external.
          bind-Keeps _ _ (new_uuid-Keeps deps.ctx) λ intended_id.
            bind-Keeps _ _ (new_uuid-Keeps deps.ctx) λ op_id.
              bind-Keeps _ _ (new_uuid-Keeps deps.ctx) λ booking_id.
                bind-Keeps _ _ (new_uuid-Keeps deps.ctx) λ token.
                  bind-Keeps _ _ (new_uuid-Keeps deps.ctx) λ attempt_id.
                    submitted-Keeps request (record {
                      fingerprint = fingerprint_of deps request;
                      gated = gated;
                      external = external;
                      intended_id = intended_id;
                      op_id = op_id;
                      booking_id = booking_id;
                      token = token;
                      attempt_id = attempt_id;
                    })

    after_l0-Keeps :
        (request : CreateBookingRequest) (r : L0Result)
        → Keeps C CreateOutcome (after_l0 deps request r)
    unfolding after_l0
    after_l0-Keeps request (l0_fenced reason) = throw-Keeps _
    after_l0-Keeps request (l0_existing row) = replay_or_resume-Keeps request row _
    after_l0-Keeps request l0_missing = submit_new-Keeps request

    pub create_durable_booking-Keeps :
        (request : CreateBookingRequest)
        → Keeps C CreateOutcome (create_durable_booking deps request)
    unfolding create_durable_booking
    create_durable_booking-Keeps request =
        bind-Keeps _ _
          (with_host_lock-Keeps _ _ λ t.
            reads-TxKeeps {A = Result Failure L0Result}
              λ tx. ok (l0_tx request (fingerprint_of deps request) tx))
          (after_l0-Keeps request)
