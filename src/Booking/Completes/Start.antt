-- ===== src/Booking/Completes/Start.antt =====
-- lib/booking/cancel.ts: a cancel that nothing hinders, from T1 to its answer.
use marlo_scheduling.Prelude.{
  ==-refl, ◌==◌, ℕ, ◌+◌, ◌≡◌, ◌∙◌, refl, ap, true, false, none, some, [],
}
use marlo_scheduling.Rows.{
  eligible_reap_ids, live_event_id, is_confirmed, cancelled, has_eligible_reap, Key, BookingRow,
  PendingOp, CalendarState,
}
use marlo_scheduling.Store.{
  queue, patch_row, apply_write, may_update, update, select_for_update, commit, MemoryBookingStore,
  MemoryTx, ok, locked, get_by_id, on_row, apply_patch,
}
use marlo_scheduling.Lifecycle.Errors.{Failure}
use marlo_scheduling.Lifecycle.World.{World}
use marlo_scheduling.Google.{CalendarEvent, DeleteOutcome}
use marlo_scheduling.Lifecycle.Ops.{returning, is_foreign}
use marlo_scheduling.Lifecycle.Cancel.{
  run_started, cancel_pass, cancel_once, after_cancel_t1, inherited_intended_ids, CancelDeps,
  CancelOutcome, CancelRequest, cancel_durable_booking,
}
use marlo_scheduling.Lifecycle.Cancel.T1.{
  CancelT1, cancel_op, start_patch, start_update, cancel_t1_tx, cancel_start, cancel_started,
}
use marlo_scheduling.Booking.Transactions.{opened, locked-ok}
use marlo_scheduling.Booking.Owned.{on_row-stored, get_by_id_self}
use marlo_scheduling.Booking.Replay.{bind-ok}
use marlo_scheduling.Booking.Completes.Quiet.{quiet_with, locked_once, read_once, new_uuid_once}
use marlo_scheduling.Booking.Completes.Held.{Held}
use marlo_scheduling.Booking.Completes.Delete.{
  live_event_input, live_delete_input, calendar_step-Gone,
}

module _ {C : Type 0} (deps : CancelDeps C) (request : CancelRequest) (w : World C)
    (row : BookingRow) (h : get_by_id w.store request.booking_id ≡ some row)
    (standing : is_confirmed row.status ≡ true) (idle : row.pending_op ≡ none)
    (same : row.revision == request.expected_revision ≡ true) where
  abbrev started_op : Key → PendingOp
  started_op op_id = cancel_op row op_id w.now

  abbrev started_store : Key → MemoryBookingStore
  started_store op_id = on_row row.id (apply_patch (start_patch (started_op op_id))) w.store

  may_start : (op_id : Key) → may_update (start_update row (started_op op_id)) row ≡ true
  unfolding may_update
  may_start op_id = simp (==-refl row.revision, standing) refl

  cancel_start-persists :
      (op_id : Key)
      → cancel_start row op_id w.now (opened w.store) ≡ (
        cancel_started row (started_op op_id),
        queue (opened w.store) (patch_row row.id (start_patch (started_op op_id))),
      )
  unfolding cancel_start update
  cancel_start-persists op_id =
      let self = get_by_id_self w.store request.booking_id row h in
      simp (self, may_start op_id) refl

  cancel_t1_tx-persists :
      (op_id : Key)
      → cancel_t1_tx request op_id w.now (opened w.store) ≡ (
        cancel_started row (started_op op_id),
        queue (opened w.store) (patch_row row.id (start_patch (started_op op_id))),
      )
  unfolding cancel_t1_tx select_for_update
  cancel_t1_tx-persists op_id =
      rw (cancel_t1_tx, h, standing, same) (simp idle (cancel_start-persists op_id))

  cancel_t1_tx-starts :
      (op_id : Key)
      → locked {E = Failure} (returning (cancel_t1_tx request op_id w.now)) w.store
        ≡ (ok (cancel_started row (started_op op_id)), started_store op_id)
  unfolding commit apply_write
  cancel_t1_tx-starts op_id =
      locked-ok _ w.store _ _
        (ap (λ (p : CancelT1 × MemoryTx). (ok p.0, p.1)) (cancel_t1_tx-persists op_id))

  started_found :
      (op_id : Key)
      → get_by_id (started_store op_id) row.id
        ≡ some (apply_patch (start_patch (started_op op_id)) row)
  started_found op_id =
      on_row-stored row.id (start_patch (started_op op_id)) w.store row
        (get_by_id_self w.store request.booking_id row h)

  started-Held : (op_id : Key) → Held row.id (started_op op_id) row.revision (started_store op_id)
  unfolding apply_patch
  started-Held op_id = record {
    fresh = apply_patch (start_patch (started_op op_id)) row;
    current = started_op op_id;
    found = started_found op_id;
    named = refl;
    same_op = refl;
    same_gen = refl;
    same_revision = refl;
    standing = standing;
  }

  cancel_durable_booking-starts :
      let op_id = deps.ctx.uuid w.drawn in
      cancel_durable_booking deps request (quiet_with w w.store)
      ≡ run_started deps row
          (started_op op_id)
          (quiet_with (record w { drawn = w.drawn + 1 }) (started_store op_id))
  unfolding cancel_durable_booking cancel_pass cancel_once after_cancel_t1
  cancel_durable_booking-starts =
      let w1 : World C = record w { drawn = w.drawn + 1 } in
      let op_id = deps.ctx.uuid w.drawn in
      let t1 = locked_once row.host_id _ w1 _ _ (cancel_t1_tx-starts op_id) in
      bind-ok _ _ _ _ _ (read_once w w.store request.booking_id _ h)
      ∙ rw standing (bind-ok _ _ _ _ _ (new_uuid_once deps.ctx w w.store) ∙ bind-ok _ _ _ _ _ t1)

inherited_intended_ids-cancel_op :
    (row live : BookingRow) (op_id : Key) (time : ℕ)
    → inherited_intended_ids (cancel_op row op_id time) live ≡ []
unfolding inherited_intended_ids cancel_op
inherited_intended_ids-cancel_op row live op_id time = refl

started-has_eligible_reap :
    (row : BookingRow) (op : PendingOp)
    → has_eligible_reap (apply_patch (start_patch op) row) ≡ has_eligible_reap row
unfolding apply_patch eligible_reap_ids live_event_id
started-has_eligible_reap row op = refl

-- In a quiet world the cancel of a standing booking runs to its end, provided that the row has no
-- open op and no late insert to reap, that the request names its revision, that the calendar
-- answers the row's event and deletes it under the etag answered, and that the notification changes
-- nothing: the cancel answers the row as it is then stored, cancelled under the next revision, with
-- no open op and its event deleted, and the calendar is as the delete left it.
pub cancel_durable_booking-completes :
    {C : Type 0} (deps : CancelDeps C) (request : CancelRequest) (w : World C) (row : BookingRow)
    (event_id : Key) (event : CalendarEvent) (c : C) (o : DeleteOutcome) (c' : C)
    → get_by_id w.store request.booking_id ≡ some row
    → is_confirmed row.status ≡ true
    → row.pending_op ≡ none
    → row.revision == request.expected_revision ≡ true
    → has_eligible_reap row ≡ false
    → row.google_event_id ≡ some event_id
    → is_foreign row.id event.marlo_booking_id ≡ false
    → deps.ctx.client.get (live_event_input deps.ctx event_id) w.calendar ≡ (ok (some event), c)
    → deps.ctx.client.remove (live_delete_input deps.ctx event_id event.etag) c ≡ (ok o, c')
    → ((r : BookingRow) (v : World C) → deps.notify r v ≡ (ok tt, v))
    → (out : CancelOutcome) × (after : World C) × (cancel_durable_booking deps request
          (record w { turns = [] })
        ≡ (ok out, after))
      × (get_by_id after.store row.id ≡ some out.row)
      × (out.row.status ≡ cancelled)
      × (out.row.revision ≡ row.revision + 1)
      × (out.row.pending_op ≡ none)
      × (out.row.calendar_state ≡ CalendarState.deleted)
      × (after.calendar ≡ c')
unfolding run_started apply_patch cancel_op
cancel_durable_booking-completes deps request w row event_id event c o c' h standing idle same clean
      live own get remove quiet =
    let op_id = deps.ctx.uuid w.drawn in
    let op = cancel_op row op_id w.now in
    let row' = apply_patch (start_patch op) row in
    let w1 : World _ = record w { drawn = w.drawn + 1 } in
    let k = started-Held deps request w row h standing idle same op_id in
    let s = started_store deps request w row h standing idle same op_id in
    let found = started_found deps request w row h standing idle same op_id in
    let (out, t, e, g) =
      calendar_step-Gone deps quiet w1 event_id event c o c' get remove row' op row.revision s
        (started-has_eligible_reap row op ∙ clean)
        (inherited_intended_ids-cancel_op row row' op_id w.now) live own k in
    let w2 : World _ = record w1 { drawn = w1.drawn + 1; calendar = c' } in
    (
      out,
      quiet_with w2 t,
      cancel_durable_booking-starts deps request w row h standing idle same
          ∙ bind-ok _ _ _ _ _ (read_once w1 s row.id _ found)
          ∙ e,
      g.stored,
      g.done,
      g.next,
      g.idle,
      g.clear,
      refl,
    )
