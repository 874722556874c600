-- ===== src/Tests/Lifecycle.antt =====
-- Runs of lib/booking/cancel.ts, reschedule.ts and repair.ts.
use marlo_scheduling.Prelude.{
  ◌⊎◌, ◌+◌, ◌<◌, ◌≡◌, refl, true, false, none, some, [], ◌∷◌, In, inl, ltb, arith, either_of,
}
use marlo_scheduling.Rows.{
  BookingRow, PendingOp, UnfinishedCreate, OpKind, is_confirmed, is_stale_op, op_stale_ms, Interval,
  holds_invariants,
}
use marlo_scheduling.Store.{ok, locked, get_by_id, owns, apply_patch}
use marlo_scheduling.Store.Occupancy.{Occupies}
use marlo_scheduling.Lifecycle.Errors.{Failure}
use marlo_scheduling.Lifecycle.Ops.{returning}
use marlo_scheduling.Lifecycle.Cancel.{CancelRequest, carried_create}
use marlo_scheduling.Lifecycle.Cancel.T1.{cancel_t1_tx, replace_inherited_tx, replacing_patch}
use marlo_scheduling.Lifecycle.Cancel.T2.{
  cancel_t2_tx, cancel_t2_prime_tx, restored_create, completed_as, did_cancel, retained_of,
}
use marlo_scheduling.Lifecycle.Reschedule.{RescheduleRequest}
use marlo_scheduling.Lifecycle.Reschedule.T1.{RescheduleIds, reschedule_t1_tx}
use marlo_scheduling.Lifecycle.Reschedule.T2.{
  Resulting, complete_reschedule_tx, abandon_reschedule_tx, moved_row, did_move,
}
use marlo_scheduling.Lifecycle.Repair.T2.{repair_t2_tx, clear_repair_tx, repair_superseded}
use marlo_scheduling.Booking.Invariant.{Inv}
use marlo_scheduling.Booking.Cancelled.{
  cancelled_row, is_carried, cancel_t2_tx-finalizes, cancel_t2_prime_tx-Inv,
  restored_create-takeable,
}
use marlo_scheduling.Booking.Begun.{Refuses, Starts, TakesOver, cancel_t1_tx-begins}
use marlo_scheduling.Booking.Carried.{replace_inherited_tx-carries}
use marlo_scheduling.Booking.Reserved.{reschedule_t1_tx-Inv}
use marlo_scheduling.Booking.Moved.{complete_reschedule_tx-moves}
use marlo_scheduling.Booking.Fenced.{lost_op-changes_nothing}
use marlo_scheduling.Booking.Interleaving.Sound.{is_sound}
use marlo_scheduling.Booking.Interleaving.Base.{Safe}
use marlo_scheduling.Booking.Interleaving.Steps.{
  after, here, next, begins_move, completes_cancel, Reach-Safe,
}
use marlo_scheduling.Tests.Data.{op_a, attempt_a, row_a, row_done, store_with}

abbrev cancel_a : PendingOp
cancel_a = record op_a {
  kind = OpKind.cancel;
  op_id = 31;
  event_id = none;
  old_event_id = some 50;
  attempts = [];
}

-- A finalized booking whose cancel is under way.
abbrev row_cancelling : BookingRow
row_cancelling = record row_done { pending_op = some cancel_a }

abbrev carry_a : UnfinishedCreate
carry_a = record {
  op_id = 30;
  gen = 2;
  event_id = 50;
  started_at = 1_000;
  attempts = attempt_a ∷ [];
}

-- A booking whose cancel took over its unfinished create.
abbrev row_carrying : BookingRow
row_carrying = record row_a { pending_op = some cancel_a; unfinished_create = some carry_a }

store_with-Inv : (row : BookingRow) → holds_invariants row ≡ true → Inv (store_with row)
store_with-Inv row h = record { apart = (tt, tt); finalization = (h, tt) }

cancel_t2_tx-finalizes_example :
    let (answer, after) =
      locked {E = Failure}
        (returning (cancel_t2_tx row_cancelling cancel_a))
        (store_with row_cancelling) in
    (answer ≡ ok (completed_as false row_cancelling))
    × (get_by_id after 7 ≡ some (cancelled_row row_cancelling cancel_a))
    × (¬ ((i : Interval) × Occupies (cancelled_row row_cancelling cancel_a) i))
    × (did_cancel (get_by_id after 7) ≡ true)
    × (locked {E = Failure} (returning (cancel_t2_tx row_cancelling cancel_a)) after
        ≡ (ok (completed_as true (cancelled_row row_cancelling cancel_a)), after))
cancel_t2_tx-finalizes_example =
    cancel_t2_tx-finalizes row_cancelling cancel_a (store_with row_cancelling) row_cancelling
      cancel_a (unfold get_by_id in refl) refl refl (unfold owns in refl)

cancel_t2_prime_tx-Inv_example :
    Inv
      (locked {E = Failure}
        (returning (cancel_t2_prime_tx row_carrying cancel_a))
        (store_with row_carrying)).1
cancel_t2_prime_tx-Inv_example =
    cancel_t2_prime_tx-Inv row_carrying cancel_a (store_with row_carrying) row_carrying
      (unfold get_by_id in refl) refl
      (store_with-Inv row_carrying (unfold holds_invariants in refl))

restored_create-takeable_example :
    let op = restored_create carry_a cancel_a in
    (2 < op.gen)
    × (1 < op.gen)
    × (is_stale_op op 200_000 ≡ ltb (1_000 + op_stale_ms) 200_000)
    × In attempt_a op.attempts
restored_create-takeable_example =
    restored_create-takeable carry_a cancel_a 200_000 attempt_a (inl (inl refl))

abbrev cancel_request : CancelRequest
cancel_request = record { booking_id = 7; expected_revision = 1 }

cancel_t1_tx-begins_example :
    let s = store_with row_done in
    let (answer, after) =
      locked {E = Failure} (returning (cancel_t1_tx cancel_request 31 9_000)) s in
    Refuses cancel_request 9_000 s answer after
    ⊎ ((row : BookingRow) × (get_by_id s 7 ≡ some row)
        × (is_confirmed row.status ≡ true)
        × (row.revision ≡ 1)
        × (Starts 31 9_000 row answer after ⊎ TakesOver 31 9_000 row answer after))
cancel_t1_tx-begins_example = cancel_t1_tx-begins cancel_request 31 9_000 (store_with row_done)

replace_inherited_tx-carries_example :
    let carry = either_of (carried_create row_a op_a 50 900) row_a.unfinished_create in
    let stored = apply_patch (replacing_patch cancel_a carry false) row_a in
    let (answer, after) =
      locked {E = Failure}
        (returning (replace_inherited_tx row_a op_a cancel_a carry false))
        (store_with row_a) in
    (answer ≡ ok true)
    × (get_by_id after 7 ≡ some stored)
    × (stored.pending_op ≡ some cancel_a)
    × (is_carried stored ≡ true)
    × Inv after
replace_inherited_tx-carries_example =
    replace_inherited_tx-carries row_a row_a op_a cancel_a 50 900 false (store_with row_a)
      (unfold get_by_id in refl) (unfold owns in refl) refl refl refl refl refl
      (store_with-Inv row_a (unfold holds_invariants in refl))

abbrev move_request : RescheduleRequest
move_request = record {
  booking_id = 7;
  start = 20_000_000;
  expected_revision = 1;
  duration_minutes = 30;
  event_name = 4;
  invitee_name = 80;
  invitee_email = 81;
}

abbrev move_ids : RescheduleIds
move_ids = record { op_id = 32; fallback_event_id = 53 }

reschedule_t1_tx-Inv_example :
    Inv
      (locked {E = Failure}
        (returning (reschedule_t1_tx move_request move_ids 9_000))
        (store_with row_done)).1
reschedule_t1_tx-Inv_example =
    reschedule_t1_tx-Inv move_request move_ids 9_000 (store_with row_done)
      (store_with-Inv row_done (unfold holds_invariants in refl))

abbrev move_a : PendingOp
move_a = record op_a {
  kind = OpKind.reschedule;
  op_id = 32;
  event_id = none;
  new_start = some 20_000_000;
  new_end = some 21_800_000;
  old_event_id = some 50;
  fallback_event_id = some 53;
  attempts = [];
}

-- A finalized booking that holds the destination of a reschedule.
abbrev row_moving : BookingRow
row_moving = record row_done {
  pending_op = some move_a;
  reserved_start = some 20_000_000;
  reserved_end = some 21_800_000;
}

abbrev moved_to : Resulting
moved_to = record { event_id = some 50; etag = some 9 }

abbrev window_a : Interval
window_a = record { start = 20_000_000; end = 21_800_000 }

complete_reschedule_tx-moves_example :
    let snapshot = moved_row move_a row_moving moved_to (retained_of row_moving move_a) in
    let (answer, after) =
      locked {E = Failure}
        (returning (complete_reschedule_tx row_moving move_a moved_to))
        (store_with row_moving) in
    (answer ≡ ok (completed_as false snapshot))
    × (get_by_id after 7 ≡ some snapshot)
    × (snapshot.start ≡ 20_000_000)
    × (snapshot.end ≡ 21_800_000)
    × Inv after
    × (did_move row_moving move_a (get_by_id after 7) ≡ true)
    × (locked {E = Failure} (returning (complete_reschedule_tx row_moving move_a moved_to)) after
        ≡ (ok (completed_as true snapshot), after))
complete_reschedule_tx-moves_example =
    complete_reschedule_tx-moves row_moving move_a moved_to (store_with row_moving) row_moving
      move_a window_a (unfold get_by_id in refl) refl refl (unfold owns in refl) refl refl refl refl
      refl (omega arith) (store_with-Inv row_moving (unfold holds_invariants in refl))

abbrev taken_move : PendingOp
taken_move = record move_a { gen = 2 }

abbrev row_taken : BookingRow
row_taken = record row_moving { pending_op = some taken_move }

lost_op-changes_nothing_example :
    let s = store_with row_taken in
    (locked {E = Failure} (returning (cancel_t2_tx row_moving move_a)) s
      ≡ (ok (completed_as true row_taken), s))
    × (locked {E = Failure} (returning (complete_reschedule_tx row_moving move_a moved_to)) s
        ≡ (ok (completed_as true row_taken), s))
    × (locked {E = Failure} (returning (repair_t2_tx row_moving move_a (some 9))) s
        ≡ (ok repair_superseded, s))
    × (locked {E = Failure} (returning (cancel_t2_prime_tx row_moving move_a)) s ≡ (ok false, s))
    × (locked {E = Failure} (returning (abandon_reschedule_tx row_moving move_a)) s ≡ (ok false, s))
    × (locked {E = Failure} (returning (clear_repair_tx row_moving move_a)) s ≡ (ok false, s))
unfolding owns
lost_op-changes_nothing_example =
    lost_op-changes_nothing row_moving move_a moved_to (some 9) (store_with row_taken) row_taken
      (unfold get_by_id in refl) refl

-- A reschedule that finds a cancel under way, and then the completion of that cancel.
Reach-Safe_example : Safe (
    after
      (cancel_t2_tx row_cancelling cancel_a)
      (after (reschedule_t1_tx move_request move_ids 9_000) (store_with row_cancelling)))
Reach-Safe_example =
    Reach-Safe {s = store_with row_cancelling}
      (record { apart = (tt, tt); sound = (unfold is_sound holds_invariants in refl, tt) })
      (next (next here (begins_move move_request move_ids 9_000))
        (completes_cancel row_cancelling cancel_a))
