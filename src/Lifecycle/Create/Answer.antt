-- ===== src/Lifecycle/Create/Answer.antt =====
-- lib/booking/create.ts: the answer of a create, also of one whose operation was taken over.
use marlo_scheduling.Prelude.{
  Bool, true, not, ◌&&◌, Option, none, some, if◌then◌else◌, is_none, or_else,
}
use marlo_scheduling.Rows.{Key, BookingRow, PendingOp}
use marlo_scheduling.Lifecycle.Errors.{in_progress, superseded_by}
use marlo_scheduling.Lifecycle.World.{Step, Context, pure, throw_error, ◌>>=◌, ◌>>◌}
use marlo_scheduling.Lifecycle.Identity.{CreateOpIdentity}
use marlo_scheduling.Lifecycle.Envelope.{build_envelope, booking_body, on_create}
use marlo_scheduling.Lifecycle.Superseded.{
  SupersededDecision, from_create, respond_success, respond_in_progress, respond_superseded,
  reconcile_superseded, cleanup_own_event, retire_step,
}
use marlo_scheduling.Lifecycle.Reap.{read_row}
use marlo_scheduling.Lifecycle.Create.Types.{CreateOutcome, CreateDeps}
use marlo_scheduling.Lifecycle.Create.T2.{Completed}
use marlo_scheduling.Lifecycle.Create.Insert.{InsertResult, is_applied_outcome}

module _ {C : Type 0} where
  unfoldable pub answer_row : CreateDeps C → BookingRow → Step C CreateOutcome
  unfolding build_envelope
  answer_row deps row = do
    envelope ← build_envelope row deps.meta on_create
    pure (record { envelope = envelope; row = row; replayed = true })

  -- The cleanup of a superseded create: delete its own event, retire its attempt, or neither.
  abbrev pub superseded_cleanup :
      Context C → BookingRow → Key → Key → Bool → Bool → Option Key → Step C (Unit {0})
  superseded_cleanup ctx row event_id attempt_id eligible applied_here etag =
      if eligible && applied_here && not (is_none etag)
      then (do cleanup_own_event ctx row.id event_id attempt_id (or_else etag 0); pure tt)
      else if eligible && not applied_here
      then retire_step row.id attempt_id
      else pure tt

  abbrev pub superseded_answer : CreateDeps C → SupersededDecision → Step C CreateOutcome
  superseded_answer deps decision = elim decision.response [
    | respond_in_progress ↦ throw_error (in_progress (or_else decision.retry_after 1))
    | respond_superseded ↦ elim decision.row [
      | none ↦ throw_error (superseded_by none)
      | some row ↦ throw_error (superseded_by (some (booking_body row deps.meta)))
    ]
    | respond_success ↦ elim decision.row [
      | none ↦ throw_error (superseded_by none)
      | some row ↦ answer_row deps row
    ]
  ]

  unfoldable pub superseded_create :
      CreateDeps C
      → BookingRow
      → PendingOp
      → CreateOpIdentity
      → Bool
      → Option Key
      → Key
      → Key
      → Step C CreateOutcome
  unfolding reconcile_superseded cleanup_own_event retire_step answer_row
  superseded_create deps row op identity applied_here insert_etag event_id attempt_id = do
    decision ←
        reconcile_superseded
          (record {
            kind = from_create identity;
            op = op;
            booking_id = row.id;
            own_insert = some (record { attempt_id = attempt_id; event_id = event_id });
          })
          row.host_id
    superseded_cleanup deps.ctx row event_id attempt_id decision.eligible applied_here insert_etag
    superseded_answer deps decision

  unfoldable pub after_completion :
      CreateDeps C
      → BookingRow
      → PendingOp
      → CreateOpIdentity
      → InsertResult
      → Key
      → Key
      → Bool
      → Completed
      → Step C CreateOutcome
  unfolding superseded_create read_row build_envelope
  after_completion deps row op identity result event_id attempt_id replayed completed =
      if completed.superseded
      then superseded_create deps row op identity (is_applied_outcome result.outcome)
          result.insert_etag event_id attempt_id
      else (do
        deps.notify completed.row
        found ← read_row row.id
        envelope ← build_envelope (or_else found completed.row) deps.meta on_create
        pure (record {
          envelope = envelope;
          row = or_else found completed.row;
          replayed = replayed;
        }))
