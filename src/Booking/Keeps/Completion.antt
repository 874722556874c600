-- ===== src/Booking/Keeps/Completion.antt =====
-- T1 of lib/booking/create.ts and the completing transactions, with lib/booking/settle.ts, keep the
-- invariant of the store.
use marlo_scheduling.Prelude.{◌≡◌, Bool, false, Option}
use marlo_scheduling.Rows.{Key, BookingRow, PendingOp, CalendarState, is_pending}
use marlo_scheduling.Store.{Result, ok, select_for_update}
use marlo_scheduling.Lifecycle.Errors.{
  Failure, error_of, booking_failed, unknown_commit, outcome_unresolved, lifecycle, calendar,
  no_availability, superseded_worker, broken,
}
use marlo_scheduling.Lifecycle.World.{Step, pure, throw_error}
use marlo_scheduling.Lifecycle.Settle.{
  Settled, settled_ok, settled_reconciled, settled_failed, settle_completion, reconcile, unsettled,
}
use marlo_scheduling.Lifecycle.Envelope.{build_envelope, BookingEnvelope, EnvelopeMeta, Surface}
use marlo_scheduling.Lifecycle.Create.{CreateBookingRequest, CreateDeps, T1Result}
use marlo_scheduling.Lifecycle.Create.T1.{
  T1Input, run_t1, reconcile_t1, after_failed_t1, unresolved_t1, reconcile_tx,
}
use marlo_scheduling.Lifecycle.Create.T2.{complete_create, Completed}
use marlo_scheduling.Booking.Transactions.{t1_tx-TxKeeps, complete_create_tx-TxKeeps, reads-TxKeeps}
use marlo_scheduling.Booking.Keeps.Steps.{
  Keeps, pure-Keeps, throw-Keeps, if-Keeps, catch-Keeps, bind-Keeps, on_store-Keeps,
  with_host_lock-Keeps, with_finished_transaction-Keeps,
}

module _ {C : Type 0} where
  pub build_envelope-Keeps :
      (row : BookingRow) (meta : EnvelopeMeta) (on : Surface)
      → Keeps C BookingEnvelope (build_envelope row meta on)
  unfolding build_envelope
  build_envelope-Keeps row meta on =
      bind-Keeps _ _ (on_store-Keeps _ λ s v. v)
        λ email. if-Keeps _ _ _ (throw-Keeps _) (pure-Keeps _)

  unresolved_t1-Keeps : (e : Failure) → Keeps C T1Result (unresolved_t1 e)
  unresolved_t1-Keeps outcome_unresolved = throw-Keeps _
  unresolved_t1-Keeps unknown_commit = throw-Keeps _
  unresolved_t1-Keeps (lifecycle e) = throw-Keeps _
  unresolved_t1-Keeps (calendar e) = throw-Keeps _
  unresolved_t1-Keeps no_availability = throw-Keeps _
  unresolved_t1-Keeps superseded_worker = throw-Keeps _
  unresolved_t1-Keeps broken = throw-Keeps _

  after_failed_t1-Keeps :
      (request : CreateBookingRequest) (input : T1Input) (e : Failure)
      → Keeps C T1Result (after_failed_t1 request input e)
  unfolding reconcile_t1
  after_failed_t1-Keeps request input unknown_commit =
      catch-Keeps _ _
        (with_finished_transaction-Keeps _ _ λ t.
          reads-TxKeeps {A = Result Failure T1Result}
            λ tx. ok (reconcile_tx request input.fingerprint input.op_id tx))
        unresolved_t1-Keeps
  after_failed_t1-Keeps request input outcome_unresolved = throw-Keeps _
  after_failed_t1-Keeps request input (lifecycle e) = throw-Keeps _
  after_failed_t1-Keeps request input (calendar e) = throw-Keeps _
  after_failed_t1-Keeps request input no_availability = throw-Keeps _
  after_failed_t1-Keeps request input superseded_worker = throw-Keeps _
  after_failed_t1-Keeps request input broken = throw-Keeps _

  pub run_t1-Keeps :
      (request : CreateBookingRequest) (input : T1Input) → Keeps C T1Result (run_t1 request input)
  unfolding run_t1
  run_t1-Keeps request input =
      catch-Keeps _ _ (with_host_lock-Keeps _ _ λ t. t1_tx-TxKeeps request input t)
        (after_failed_t1-Keeps request input)

  unsettled-Keeps : {A : Type 0} (e : Failure) → Keeps C (Settled A) (unsettled e)
  unsettled-Keeps outcome_unresolved = throw-Keeps _
  unsettled-Keeps unknown_commit = throw-Keeps _
  unsettled-Keeps (lifecycle e) = throw-Keeps _
  unsettled-Keeps (calendar e) = throw-Keeps _
  unsettled-Keeps no_availability = throw-Keeps _
  unsettled-Keeps superseded_worker = throw-Keeps _
  unsettled-Keeps broken = throw-Keeps _

  reconcile-Keeps :
      {A : Type 0} (row : BookingRow) (did : Option BookingRow → Bool) (e : Failure)
      → Keeps C (Settled A) (reconcile row did e)
  unfolding reconcile
  reconcile-Keeps row did unknown_commit =
      catch-Keeps _ _
        (bind-Keeps _ _
          (with_finished_transaction-Keeps _ _ λ t.
            reads-TxKeeps {A = Result Failure (Option BookingRow)}
              λ tx. ok (select_for_update tx row.id))
          λ fresh. pure-Keeps _)
        unsettled-Keeps
  reconcile-Keeps row did outcome_unresolved = pure-Keeps _
  reconcile-Keeps row did (lifecycle e) = pure-Keeps _
  reconcile-Keeps row did (calendar e) = pure-Keeps _
  reconcile-Keeps row did no_availability = pure-Keeps _
  reconcile-Keeps row did superseded_worker = pure-Keeps _
  reconcile-Keeps row did broken = pure-Keeps _

  settle_completion-Keeps :
      {A : Type 0} (row : BookingRow) (run : Step C A) (did : Option BookingRow → Bool)
      → Keeps C A run
      → Keeps C (Settled A) (settle_completion row run did)
  unfolding settle_completion
  settle_completion-Keeps row run did h =
      catch-Keeps _ _ (bind-Keeps _ _ h λ a. pure-Keeps _) (reconcile-Keeps row did)

  pub complete_create-Keeps :
      (deps : CreateDeps C) (row : BookingRow) (op : PendingOp) (state : CalendarState)
      (etag : Option Key)
      → is_pending state ≡ false
      → Keeps C Completed (complete_create deps row op state etag)
  unfolding complete_create
  complete_create-Keeps deps row op state etag settled =
      bind-Keeps _ _
        (settle_completion-Keeps _ _ _ (
          with_host_lock-Keeps _ _
            λ t. complete_create_tx-TxKeeps deps.on_finalize row op state etag settled))
        answered
    where
      answered :
          (s : Settled Completed)
          → Keeps C Completed (elim s [
            | settled_ok completed ↦ pure completed
            | settled_reconciled fresh ↦ pure (record { superseded = false; row = fresh })
            | settled_failed e ↦ throw_error (error_of booking_failed)
          ])
      answered (settled_ok c) = pure-Keeps _
      answered (settled_reconciled r) = pure-Keeps _
      answered (settled_failed e) = throw-Keeps _
