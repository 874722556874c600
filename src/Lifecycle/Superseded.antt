-- ===== src/Lifecycle/Superseded.antt =====
-- lib/booking/superseded.ts: what a worker whose operation was taken over answers, and whether it
-- may remove the event that it inserted.
use marlo_scheduling.Prelude.{
  ℕ, Bool, true, false, not, ◌&&◌, Option, none, some, ltb, ◌==◌, if◌then◌else◌, any, find, is_key,
}
use marlo_scheduling.Rows.{
  Key, Instant, BookingRow, PendingOp, OpKind, Attempt, CalendarState, is_confirmed, is_insert,
  is_live_id, open_op_intended_ids, retry_after_seconds, names_attempt,
}
use marlo_scheduling.Store.{ok, select_for_update, retire_attempt}
use marlo_scheduling.Google.{
  class_definite, class_precondition_failed, no_guests, CalendarEvent, DeleteOutcome,
}
use marlo_scheduling.Lifecycle.Errors.{Failure}
use marlo_scheduling.Lifecycle.World.{
  Step, Context, pure, catch, ◌>>=◌, ◌>>◌, now, on_store, on_calendar, with_host_lock,
}
use marlo_scheduling.Lifecycle.Ops.{classify_failure, is_absence_failure}
use marlo_scheduling.Lifecycle.Identity.{
  CreateOpIdentity, create_finalized, takeover_running, create_replaced_unfinished,
}

pub data SupersededResponse : Type 0 where
  respond_success respond_in_progress respond_superseded : SupersededResponse

pub record SupersededDecision : Type 0 where
  pub response : SupersededResponse
  pub retry_after : Option ℕ
  pub row : Option BookingRow
  pub eligible : Bool

pub record OwnInsertRef : Type 0 where
  pub attempt_id : Key
  pub event_id : Key

pub data SupersededKind : Type 0 where
  from_create : CreateOpIdentity → SupersededKind
  from_reschedule : Instant → SupersededKind
  from_cancel : SupersededKind
  from_repair : SupersededKind

pub record SupersededInput : Type 0 where
  pub kind : SupersededKind
  pub op : PendingOp
  pub booking_id : Key
  pub own_insert : Option OwnInsertRef

abbrev is_created : CalendarState → Bool
is_created CalendarState.created = true
is_created _ = false

abbrev success_if : Bool → SupersededResponse × Option ℕ
success_if true = (respond_success, none)
success_if false = (respond_superseded, none)

abbrev retry_of : BookingRow → ℕ → ℕ
retry_of row time = elim row.pending_op [ none ↦ 1 | some op ↦ retry_after_seconds op time ]

unfoldable pub decide_response : ℕ → BookingRow → SupersededKind → SupersededResponse × Option ℕ
unfolding create_finalized takeover_running create_replaced_unfinished
decide_response time row (from_create identity) =
    if create_finalized row identity
    then (respond_success, none)
    else if takeover_running row identity
    then (respond_in_progress, some (retry_of row time))
    else if create_replaced_unfinished row identity
    then (respond_in_progress, some (retry_of row time))
    else (respond_superseded, none)
decide_response time row (from_reschedule target) =
    success_if (is_confirmed row.status && ltb 1 row.revision && (row.start == target))
decide_response time row from_cancel = success_if (not (is_confirmed row.status))
decide_response time row from_repair = success_if (is_created row.calendar_state)

abbrev intended_id : PendingOp → Option Key
intended_id op = elim op.kind [ OpKind.reschedule ↦ op.fallback_event_id | _ ↦ op.event_id ]

abbrev ledger_attempt : PendingOp → Key → Option Key
ledger_attempt op intended =
    elim (find (λ (a : Attempt). is_insert a.kind && (a.event_id == intended)) op.attempts) [
      | none ↦ none
      | some a ↦ some a.attempt_id
    ]

abbrev retains_attempt : BookingRow → Option Key → Bool
retains_attempt row none = false
retains_attempt row (some id) = any (names_attempt id) row.unresolved_inserts

-- Of an id that the worker intended, with the attempt that it made for it.
unfoldable pub eligible_id : BookingRow → Key → Option Key → Bool
unfolding is_live_id open_op_intended_ids
eligible_id row intended attempt_id =
    if is_live_id row intended
    then false
    else if any (λ (id : Key). id == intended) (open_op_intended_ids row)
    then false
    else retains_attempt row attempt_id

unfoldable pub cleanup_eligible : BookingRow → PendingOp → Option OwnInsertRef → Bool
unfolding eligible_id
cleanup_eligible row op (some own) = eligible_id row own.event_id (some own.attempt_id)
cleanup_eligible row op none = elim (intended_id op) [
  | none ↦ false
  | some intended ↦ eligible_id row intended (ledger_attempt op intended)
]

unfoldable pub decide : ℕ → SupersededInput → Option BookingRow → SupersededDecision
unfolding decide_response cleanup_eligible
decide time input none = record {
  response = respond_superseded;
  retry_after = none;
  row = none;
  eligible = false;
}
decide time input (some row) =
    let (response, retry_after) = decide_response time row input.kind in
    record {
      response = response;
      retry_after = retry_after;
      row = some row;
      eligible = cleanup_eligible row input.op input.own_insert;
    }

module _ {C : Type 0} where
  unfoldable pub reconcile_superseded : SupersededInput → Key → Step C SupersededDecision
  unfolding decide
  reconcile_superseded input host_id = do
    row ← with_host_lock host_id (λ time tx. (ok (select_for_update tx input.booking_id), tx))
    time ← now
    pure (decide time input row)

  -- `store.retireAttempt`, also `retireWithoutDelete` and the `retireAttempt` of reap.ts.
  unfoldable pub retire_step : Key → Key → Step C (Unit {0})
  retire_step booking_id attempt_id =
      on_store (λ store. (tt, retire_attempt store booking_id attempt_id))

  unfoldable pub remove_own : Context C → Key → Key → Step C DeleteOutcome
  remove_own ctx event_id etag = on_calendar (
      ctx.client.remove (record {
        calendar_id = ctx.calendar_id;
        event_id = event_id;
        if_match = etag;
        send_updates = no_guests;
      }))

  -- Only a proven absence retires the attempt after a refused delete.
  abbrev pub retire_if_absent : Key → Key → Failure → Step C Bool
  retire_if_absent booking_id attempt_id e =
      if is_absence_failure e
      then (do retire_step booking_id attempt_id; pure false)
      else pure false

  abbrev pub after_second_delete : Key → Key → Failure → Step C Bool
  after_second_delete booking_id attempt_id e = elim (classify_failure e) [
    | class_definite ↦ retire_if_absent booking_id attempt_id e
    | _ ↦ pure false
  ]

  unfoldable pub cleanup_observed : Context C → Key → Key → Key → Option CalendarEvent → Step C Bool
  unfolding remove_own
  cleanup_observed ctx booking_id event_id attempt_id none = do
    retire_step booking_id attempt_id
    pure false
  cleanup_observed ctx booking_id event_id attempt_id (some observed) =
      if not (is_key observed.marlo_attempt_id attempt_id)
      then (do retire_step booking_id attempt_id; pure false)
      else catch
          (do remove_own ctx event_id observed.etag; retire_step booking_id attempt_id; pure true)
          (after_second_delete booking_id attempt_id)

  abbrev pub observe_again : Context C → Key → Step C (Option (Option CalendarEvent))
  observe_again ctx event_id =
      catch
        (do
          event ←
              on_calendar
                (ctx.client.get (record { calendar_id = ctx.calendar_id; event_id = event_id }))
          pure (some event))
        (λ e. pure none)

  unfoldable pub cleanup_after_412 : Context C → Key → Key → Key → Step C Bool
  unfolding cleanup_observed
  cleanup_after_412 ctx booking_id event_id attempt_id = do
    again ← observe_again ctx event_id
    elim again [
      | none ↦ pure false
      | some observed ↦ cleanup_observed ctx booking_id event_id attempt_id observed
    ]

  abbrev pub after_delete : Context C → Key → Key → Key → Failure → Step C Bool
  after_delete ctx booking_id event_id attempt_id e = elim (classify_failure e) [
    | class_precondition_failed ↦ cleanup_after_412 ctx booking_id event_id attempt_id
    | class_definite ↦ retire_if_absent booking_id attempt_id e
    | _ ↦ pure false
  ]

  unfoldable pub cleanup_own_event : Context C → Key → Key → Key → Key → Step C Bool
  unfolding remove_own cleanup_after_412 retire_step
  cleanup_own_event ctx booking_id event_id attempt_id insert_etag =
      catch (do remove_own ctx event_id insert_etag; retire_step booking_id attempt_id; pure true)
        (after_delete ctx booking_id event_id attempt_id)
