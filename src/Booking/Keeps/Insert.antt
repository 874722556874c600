-- ===== src/Booking/Keeps/Insert.antt =====
-- The insert of the event and the answers of lib/booking/create.ts keep the invariant of the store.
use marlo_scheduling.Prelude.{Bool, Option, some, inl, inr}
use marlo_scheduling.Rows.{Key, BookingRow, PendingOp}
use marlo_scheduling.Lifecycle.Errors.{Failure}
use marlo_scheduling.Lifecycle.World.{Context}
use marlo_scheduling.Lifecycle.Ops.{
  Observation, present, absent, refused_read, ambiguous_read, classify_failure,
}
use marlo_scheduling.Lifecycle.Envelope.{on_create}
use marlo_scheduling.Lifecycle.Identity.{CreateOpIdentity}
use marlo_scheduling.Lifecycle.Superseded.{
  SupersededDecision, from_create, SupersededResponse, respond_success, respond_in_progress,
  respond_superseded,
}
use marlo_scheduling.Lifecycle.Create.{CreateBookingRequest, CreateOutcome, CreateDeps}
use marlo_scheduling.Lifecycle.Create.Insert.{
  InsertResult, InsertOutcome, insert_applied, insert_definite, insert_ambiguous, insert_step,
  retry_insert, retry_verified, retry_failure, unless_ambiguous, insert_verified,
  duplicate_observed, insert_classified, insert_failure,
}
use marlo_scheduling.Lifecycle.Create.Answer.{
  answer_row, superseded_cleanup, superseded_answer, superseded_create,
}
use marlo_scheduling.Booking.Keeps.Steps.{
  Keeps, class_cases, option-Keeps, pure-Keeps, throw-Keeps, if-Keeps, catch-Keeps, bind-Keeps,
  then-Keeps, on_calendar-Keeps, now-Keeps, new_uuid-Keeps,
}
use marlo_scheduling.Booking.Keeps.Cleanup.{
  write_attempt-Keeps, finish_attempt-Keeps, observe_id-Keeps, verify_insert-Keeps,
  retire_step-Keeps, reconcile_superseded-Keeps, cleanup_own_event-Keeps,
}
use marlo_scheduling.Booking.Keeps.Completion.{build_envelope-Keeps}

module _ {C : Type 0} where
  pub answer_row-Keeps :
      (deps : CreateDeps C) (row : BookingRow) → Keeps C CreateOutcome (answer_row deps row)
  unfolding answer_row
  answer_row-Keeps deps row =
      bind-Keeps _ _ (build_envelope-Keeps row deps.meta on_create) λ e. pure-Keeps _

  superseded_cleanup-Keeps :
      (ctx : Context C) (row : BookingRow) (e a : Key) (eligible applied_here : Bool)
      (etag : Option Key)
      → Keeps C (Unit {0}) (superseded_cleanup ctx row e a eligible applied_here etag)
  superseded_cleanup-Keeps ctx row e a eligible applied_here etag =
      if-Keeps _ _ _ (then-Keeps _ _ (cleanup_own_event-Keeps _ _ _ _ _) (pure-Keeps _))
        (if-Keeps _ _ _ (retire_step-Keeps _ _) (pure-Keeps _))

  superseded_answer-Keeps :
      (deps : CreateDeps C) (d : SupersededDecision)
      → Keeps C CreateOutcome (superseded_answer deps d)
  superseded_answer-Keeps deps d = answered d.response
    where
      answered :
          (r : SupersededResponse)
          → Keeps C CreateOutcome (superseded_answer deps (record d { response = r }))
      answered respond_in_progress = throw-Keeps _
      answered respond_superseded = option-Keeps d.row _ _ (throw-Keeps _) λ row. throw-Keeps _
      answered respond_success = option-Keeps d.row _ _ (throw-Keeps _) (answer_row-Keeps deps)

  pub superseded_create-Keeps :
      (deps : CreateDeps C) (row : BookingRow) (op : PendingOp) (identity : CreateOpIdentity)
      (applied_here : Bool) (etag : Option Key) (e a : Key)
      → Keeps C CreateOutcome (superseded_create deps row op identity applied_here etag e a)
  unfolding superseded_create
  superseded_create-Keeps deps row op identity applied_here etag e a =
      bind-Keeps _ _
        (reconcile_superseded-Keeps
          (record {
            kind = from_create identity;
            op = op;
            booking_id = row.id;
            own_insert = some (record { attempt_id = a; event_id = e });
          })
          row.host_id)
        λ d.
          then-Keeps _ _ (superseded_cleanup-Keeps deps.ctx row e a d.eligible applied_here etag)
            (superseded_answer-Keeps deps d)

  retry_verified-Keeps :
      (row : BookingRow) (op : PendingOp) (a : Key) (o : Observation)
      → Keeps C InsertResult (retry_verified row op a o)
  retry_verified-Keeps row op a (present event) =
      then-Keeps _ _ (finish_attempt-Keeps _ _ _ _) (pure-Keeps _)
  retry_verified-Keeps row op a absent = pure-Keeps _
  retry_verified-Keeps row op a (refused_read e) = pure-Keeps _
  retry_verified-Keeps row op a (ambiguous_read e) = pure-Keeps _

  retry_failure-Keeps :
      (ctx : Context C) (row : BookingRow) (op : PendingOp) (i a : Key) (e : Failure)
      → Keeps C InsertResult (retry_failure ctx row op i a e)
  retry_failure-Keeps ctx row op i a e = elim (class_cases (classify_failure e)) [
    | inl c ↦ rw (c, retry_failure) (then-Keeps _ _ (finish_attempt-Keeps _ _ _ _) (pure-Keeps _))
    | inr (inl c) ↦
        rw (c, retry_failure)
          (then-Keeps _ _ (finish_attempt-Keeps _ _ _ _)
            (bind-Keeps _ _ (observe_id-Keeps _ _ _) λ o. pure-Keeps _))
    | inr (inr (inl c)) ↦ rw (c, retry_failure) (pure-Keeps _)
    | inr (inr (inr (inl c))) ↦ rw (c, retry_failure) (pure-Keeps _)
    | inr (inr (inr (inr c))) ↦ rw (c, retry_failure) (pure-Keeps _)
  ]

  retry_insert-Keeps :
      (ctx : Context C) (request : CreateBookingRequest) (row : BookingRow) (op : PendingOp)
      (i : Key)
      → Keeps C InsertResult (retry_insert ctx request row op i)
  unfolding retry_insert
  retry_insert-Keeps ctx request row op i = bind-Keeps _ _ (new_uuid-Keeps ctx) λ a.
      bind-Keeps _ _ now-Keeps λ t. bind-Keeps _ _ (write_attempt-Keeps row op _) λ written.
        if-Keeps _ _ _ (pure-Keeps _) (
          catch-Keeps _ _
            (bind-Keeps _ _ (on_calendar-Keeps _) λ event.
              bind-Keeps _ _ (verify_insert-Keeps ctx row.id i event)
                (retry_verified-Keeps row op a))
            (retry_failure-Keeps ctx row op i a))

  unless_ambiguous-Keeps : (r : InsertResult) → Keeps C InsertResult (unless_ambiguous r)
  unless_ambiguous-Keeps r = judged r.outcome
    where
      judged :
          (o : InsertOutcome) → Keeps C InsertResult (unless_ambiguous (record r { outcome = o }))
      judged insert_ambiguous = throw-Keeps _
      judged insert_applied = pure-Keeps _
      judged insert_definite = pure-Keeps _

  insert_verified-Keeps :
      (row : BookingRow) (op : PendingOp) (a : Key) (o : Observation)
      → Keeps C InsertResult (insert_verified row op a o)
  insert_verified-Keeps row op a (present event) =
      then-Keeps _ _ (finish_attempt-Keeps _ _ _ _) (pure-Keeps _)
  insert_verified-Keeps row op a absent = throw-Keeps _
  insert_verified-Keeps row op a (refused_read e) = throw-Keeps _
  insert_verified-Keeps row op a (ambiguous_read e) = throw-Keeps _

  duplicate_observed-Keeps :
      (ctx : Context C) (request : CreateBookingRequest) (row : BookingRow) (op : PendingOp)
      (i : Key) (o : Observation)
      → Keeps C InsertResult (duplicate_observed ctx request row op i o)
  duplicate_observed-Keeps ctx request row op i (present event) = pure-Keeps _
  duplicate_observed-Keeps ctx request row op i absent =
      bind-Keeps _ _ (retry_insert-Keeps ctx request row op i) unless_ambiguous-Keeps
  duplicate_observed-Keeps ctx request row op i (refused_read e) = throw-Keeps _
  duplicate_observed-Keeps ctx request row op i (ambiguous_read e) = throw-Keeps _

  insert_classified-Keeps :
      (ctx : Context C) (request : CreateBookingRequest) (row : BookingRow) (op : PendingOp)
      (i a : Key) (e : Failure)
      → Keeps C InsertResult (insert_classified ctx request row op i a e)
  insert_classified-Keeps ctx request row op i a e = elim (class_cases (classify_failure e)) [
    | inl c ↦
        rw (c, insert_classified) (then-Keeps _ _ (finish_attempt-Keeps _ _ _ _) (pure-Keeps _))
    | inr (inl c) ↦
        rw (c, insert_classified)
          (then-Keeps _ _ (finish_attempt-Keeps _ _ _ _) (
            bind-Keeps _ _ (observe_id-Keeps ctx row.id i)
              (duplicate_observed-Keeps ctx request row op i)))
    | inr (inr (inl c)) ↦ rw (c, insert_classified) (throw-Keeps _)
    | inr (inr (inr (inl c))) ↦ rw (c, insert_classified) (throw-Keeps _)
    | inr (inr (inr (inr c))) ↦ rw (c, insert_classified) (throw-Keeps _)
  ]

  insert_failure-Keeps :
      (ctx : Context C) (request : CreateBookingRequest) (row : BookingRow) (op : PendingOp)
      (i a : Key) (e : Failure)
      → Keeps C InsertResult (insert_failure ctx request row op i a e)
  insert_failure-Keeps ctx request row op i a e =
      if-Keeps _ _ _ (throw-Keeps _) (insert_classified-Keeps ctx request row op i a e)

  pub insert_step-Keeps :
      (ctx : Context C) (request : CreateBookingRequest) (row : BookingRow) (op : PendingOp)
      (i a : Key)
      → Keeps C InsertResult (insert_step ctx request row op i a)
  unfolding insert_step
  insert_step-Keeps ctx request row op i a =
      catch-Keeps _ _
        (bind-Keeps _ _ (on_calendar-Keeps _) λ event.
          bind-Keeps _ _ (verify_insert-Keeps ctx row.id i event) (insert_verified-Keeps row op a))
        (insert_failure-Keeps ctx request row op i a)
