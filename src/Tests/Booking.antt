-- ===== src/Tests/Booking.antt =====
-- Runs of lib/booking/create.ts, ops.ts and superseded.ts.
use marlo_scheduling.Prelude.{
  length, Bool, false, ◌≡◌, ◌↔◌, ◌⊎◌, refl, true, false, none, some, [], ◌∷◌, In,
}
use marlo_scheduling.Rows.{
  is_stale_op, retry_after_seconds, BookingRow, UnresolvedInsert, CalendarState, retained_from,
  is_live_id, open_op_intended_ids, slot_unavailable,
}
use marlo_scheduling.Store.{
  occupancy_sync, select_for_update, resolve_attempt, update, Result, ok, err, commit, locked,
  get_by_id, lookup_rejection, lookup_key, owns,
}
use marlo_scheduling.Google.{CalendarEvent, Thrown, is_absence_status}
use marlo_scheduling.Notify.{delivery_summary_for}
use marlo_scheduling.Lifecycle.Errors.{
  in_progress, Failure, lifecycle, error_of, idempotency_key_reused,
}
use marlo_scheduling.Lifecycle.World.{
  catch, on_calendar, with_host_lock, now, new_uuid, on_store, ◌>>=◌, ◌>>◌,
}
use marlo_scheduling.Lifecycle.Envelope.{booking_body}
use marlo_scheduling.Lifecycle.Ops.{verify_insert, finish_attempt, observe_id, is_foreign}
use marlo_scheduling.Lifecycle.Superseded.{cleanup_eligible, OwnInsertRef}
use marlo_scheduling.Lifecycle.Observed.{cleanup_eligible-exact, observe_id-absent}
use marlo_scheduling.Lifecycle.Busy.{external_busy}
use marlo_scheduling.Lifecycle.Settle.{settle_completion}
use marlo_scheduling.Lifecycle.Create.{
  CreateOutcome, create_durable_booking, rejection_error, failed,
}
use marlo_scheduling.Lifecycle.Create.T1.{l0_tx, run_t1, t1_tx, reconcile_tx}
use marlo_scheduling.Lifecycle.Create.T2.{
  complete_create, complete_create_tx, committed_row, did_commit,
}
use marlo_scheduling.Booking.Invariant.{Inv}
use marlo_scheduling.Booking.Transactions.{opened}
use marlo_scheduling.Booking.Keeps.Steps.{pure-Keeps}
use marlo_scheduling.Booking.Safety.{create_durable_booking-Inv}
use marlo_scheduling.Booking.Idempotency.{second_answer, t1_tx-settles}
use marlo_scheduling.Booking.Reconcile.{reconciled_answer, reconcile_tx-truthful}
use marlo_scheduling.Booking.Finalize.{complete_create_tx-fenced, complete_create_tx-finalizes}
use marlo_scheduling.Booking.Replay.{
  create_durable_booking-in_progress, create_durable_booking-rejected,
  create_durable_booking-reused, create_durable_booking-replays,
}
use marlo_scheduling.Tests.Data.{
  op_a, row_a, row_done, empty_store, store_with, fence_a, request_a, input_a, context_a, deps_a,
  turn_a, world_with,
}

create_durable_booking-Inv_example :
    Inv (create_durable_booking deps_a request_a (world_with empty_store (turn_a ∷ []))).1.store
create_durable_booking-Inv_example =
    create_durable_booking-Inv deps_a request_a (world_with empty_store (turn_a ∷ []))
      (λ row. pure-Keeps tt) (pure-Keeps none) ((λ s v. v), tt)
      (record { apart = tt; finalization = tt })

t1_tx-settles_example :
    let (first, tx) = t1_tx request_a input_a 5_000 (opened empty_store) in
    let after = commit tx.writes tx.store in
    t1_tx request_a (record input_a { op_id = 31; booking_id = 8 }) 9_000 (opened after)
    ≡ (second_answer first, opened after)
t1_tx-settles_example =
    t1_tx-settles request_a input_a (record input_a { op_id = 31; booking_id = 8 }) 5_000 9_000
      empty_store refl

reconcile_tx-truthful_example :
    let (first, tx) = t1_tx request_a input_a 5_000 (opened empty_store) in
    (reconcile_tx request_a 99 30 (opened (commit tx.writes tx.store)) ≡ reconciled_answer first)
    × (reconcile_tx request_a 99 30 (opened empty_store) ≡ failed)
reconcile_tx-truthful_example =
    reconcile_tx-truthful request_a input_a 5_000 empty_store (unfold lookup_rejection in refl)
      (unfold lookup_key in refl)

abbrev hook : BookingRow → Result Failure (Unit {0})
hook row = ok tt

complete_create_tx-fenced_example :
    locked (complete_create_tx hook row_a op_a CalendarState.created (some 1)) (store_with row_done)
    ≡ (ok (record { superseded = true; row = row_done }), store_with row_done)
complete_create_tx-fenced_example =
    complete_create_tx-fenced hook row_a op_a CalendarState.created (some 1) (store_with row_done)
      row_done (unfold get_by_id in refl) (unfold owns in refl)

complete_create_tx-finalizes_example :
    let (answer, after) =
      locked
        (complete_create_tx hook row_a op_a CalendarState.created (some 1))
        (store_with row_a) in
    let snapshot =
      committed_row row_a CalendarState.created
        (some 1)
        (retained_from row_a.unresolved_inserts op_a.attempts) in
    (answer ≡ ok (record { superseded = false; row = snapshot }))
    × (get_by_id after 7 ≡ some snapshot)
    × (did_commit op_a (get_by_id after 7) ≡ true)
    × (locked (complete_create_tx hook row_a op_a CalendarState.created (some 1)) after
        ≡ (ok (record { superseded = true; row = snapshot }), after))
complete_create_tx-finalizes_example =
    complete_create_tx-finalizes hook row_a op_a CalendarState.created (some 1) (store_with row_a)
      row_a op_a (unfold get_by_id in refl) refl (unfold owns in refl) refl refl

create_durable_booking-rejected_example :
    create_durable_booking deps_a request_a
      (world_with (record empty_store { rejected_keys = fence_a ∷ [] }) [])
    ≡ (
      err (lifecycle (rejection_error slot_unavailable)),
      world_with (record empty_store { rejected_keys = fence_a ∷ [] }) [],
    )
create_durable_booking-rejected_example =
    create_durable_booking-rejected deps_a request_a
      (world_with (record empty_store { rejected_keys = fence_a ∷ [] }) []) slot_unavailable
      (unfold lookup_rejection in refl)

abbrev row_other : BookingRow
row_other = record row_done { create_fingerprint = 98 }

create_durable_booking-reused_example :
    create_durable_booking deps_a request_a (world_with (store_with row_other) [])
    ≡ (err (lifecycle (error_of idempotency_key_reused)), world_with (store_with row_other) [])
create_durable_booking-reused_example =
    create_durable_booking-reused deps_a request_a (world_with (store_with row_other) []) row_other
      (unfold lookup_rejection in refl) (unfold lookup_key in refl) refl

create_durable_booking-replays_example :
    create_durable_booking deps_a request_a (world_with (store_with row_done) []) ≡ (
      ok (record {
        envelope = record {
          booking = booking_body row_done deps_a.meta;
          email = delivery_summary_for (store_with row_done) 7 1 row_done.latest_action;
          calendar = CalendarState.created;
        };
        row = row_done;
        replayed = true;
      }),
      world_with (store_with row_done) [],
    )
create_durable_booking-replays_example =
    create_durable_booking-replays deps_a request_a (world_with (store_with row_done) []) row_done
      (unfold lookup_rejection in refl) (unfold lookup_key in refl) refl refl refl refl

abbrev own_insert : OwnInsertRef
own_insert = record { attempt_id = 41; event_id = 51 }

cleanup_eligible-exact_example : (cleanup_eligible row_a op_a (some own_insert) ≡ true) ↔ (
    (is_live_id row_a 51 ≡ false)
    × (In 51 (open_op_intended_ids row_a) → ⊥)
    × ((entry : UnresolvedInsert) × In entry row_a.unresolved_inserts × (entry.attempt_id ≡ 41)))
cleanup_eligible-exact_example = cleanup_eligible-exact row_a op_a own_insert

observe_id-absent_example :
    let answer = (context_a.client.get (record { calendar_id = 6; event_id = 50 }) 0).0 in
    (answer ≡ ok none)
    ⊎ ((event : CalendarEvent) × (answer ≡ ok (some event))
        × (is_foreign 7 event.marlo_booking_id ≡ true))
    ⊎ ((thrown : Thrown) × (answer ≡ err thrown) × (is_absence_status thrown ≡ true))
unfolding catch on_calendar ◌>>=◌
observe_id-absent_example =
    observe_id-absent context_a 7 50 (world_with empty_store []) (unfold observe_id in refl)

abbrev is_created : Result Failure CreateOutcome → Bool
is_created (err e) = false
is_created (ok outcome) = elim outcome.row.calendar_state [
  | CalendarState.created ↦ true
  | _ ↦ false
]

-- A create over a free slot books it: the row is finalized with its event, and one event is
-- inserted.
create_books :
    let (answer, after) = create_durable_booking deps_a request_a (world_with empty_store []) in
    (is_created answer ≡ true) × (after.calendar ≡ 1) × (length after.store.rows ≡ 1)
unfolding create_durable_booking catch on_calendar ◌>>=◌ with_host_lock now new_uuid locked l0_tx
    lookup_rejection lookup_key external_busy ◌>>◌ run_t1 occupancy_sync verify_insert
    finish_attempt complete_create settle_completion select_for_update resolve_attempt update
    on_store
create_books = (refl, refl, refl)

create_durable_booking-in_progress_example :
    create_durable_booking deps_a request_a (world_with (store_with row_a) []) ≡ (
      err (lifecycle (in_progress (retry_after_seconds op_a 5_000))),
      world_with (store_with row_a) [],
    )
create_durable_booking-in_progress_example =
    create_durable_booking-in_progress deps_a request_a (world_with (store_with row_a) []) row_a
      op_a (unfold lookup_rejection in refl) (unfold lookup_key in refl) refl refl refl
      (unfold is_stale_op in refl)
