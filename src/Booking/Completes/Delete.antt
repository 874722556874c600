-- ===== src/Booking/Completes/Delete.antt =====
-- lib/booking/cancel.ts: the calendar step of a cancel in a quiet world.
use marlo_scheduling.Prelude.{ℕ, ◌+◌, ◌≡◌, ◌∙◌, refl, ap, true, false, none, some, []}
use marlo_scheduling.Rows.{
  cancelled, has_eligible_reap, delete, applied, Key, BookingRow, PendingOp, CalendarState,
}
use marlo_scheduling.Store.{MemoryBookingStore, Result, ok, err, get_by_id}
use marlo_scheduling.Lifecycle.Errors.{Failure, calendar}
use marlo_scheduling.Lifecycle.World.{Context, on_calendar, World}
use marlo_scheduling.Google.{CalendarEvent, GetEventInput, DeleteEventInput, DeleteOutcome, Thrown}
use marlo_scheduling.Lifecycle.Ops.{
  new_attempt, observe_id, observed_event, present, is_foreign, write_attempt, finish_attempt,
}
use marlo_scheduling.Lifecycle.Cancel.{inherited_intended_ids, CancelDeps, CancelOutcome}
use marlo_scheduling.Lifecycle.Cancel.Calendar.{
  run_cancel_calendar_step, remove_inherited, delete_live, reap_if_eligible, delete_observed,
  remove_live, delete_live_event, finish_cancel,
}
use marlo_scheduling.Booking.Replay.{bind-ok}
use marlo_scheduling.Booking.Completes.Quiet.{
  quiet_with, catch_ok, then_ok, new_uuid_once, now_once,
}
use marlo_scheduling.Booking.Completes.Finish.{
  cancelled_store, cancelled_kept, completed_cancel, finish_cancel_once,
}
use marlo_scheduling.Booking.Completes.Held.{
  Held, Held-owns, write_attempt_once, finish_attempt_once, retire_attributed_once,
}

abbrev pub live_event_input : {C : Type 0} → Context C → Key → GetEventInput
live_event_input ctx event_id = record { calendar_id = ctx.calendar_id; event_id = event_id }

abbrev pub live_delete_input : {C : Type 0} → Context C → Key → Key → DeleteEventInput
live_delete_input ctx event_id etag = record {
  calendar_id = ctx.calendar_id;
  event_id = event_id;
  if_match = etag;
  send_updates = ctx.send_updates;
}

on_calendar_once :
    {C A : Type 0} (call : C → Result Thrown A × C) (w : World C) (s : MemoryBookingStore) (a : A)
    (c : C)
    → call w.calendar ≡ (ok a, c)
    → on_calendar call (quiet_with w s) ≡ (ok a, quiet_with (record w { calendar = c }) s)
unfolding on_calendar
on_calendar_once {C} {A} call w s a c e = ap finish e
  where
    finish : Result Thrown A × C → Result Failure A × World C
    finish (r, x) = elim r [
      | ok y ↦ (ok y, quiet_with (record w { calendar = x }) s)
      | err y ↦ (err (calendar y), quiet_with (record w { calendar = x }) s)
    ]

remove_live_once :
    {C : Type 0} (ctx : Context C) (event_id etag : Key) (w : World C) (s : MemoryBookingStore)
    (o : DeleteOutcome) (c : C)
    → ctx.client.remove (live_delete_input ctx event_id etag) w.calendar ≡ (ok o, c)
    → remove_live ctx event_id etag (quiet_with w s)
      ≡ (ok o, quiet_with (record w { calendar = c }) s)
unfolding remove_live
remove_live_once ctx event_id etag w s o c e = on_calendar_once _ w s o c e

observe_id_once :
    {C : Type 0} (ctx : Context C) (booking_id event_id : Key) (w : World C)
    (s : MemoryBookingStore) (event : CalendarEvent) (c : C)
    → is_foreign booking_id event.marlo_booking_id ≡ false
    → ctx.client.get (live_event_input ctx event_id) w.calendar ≡ (ok (some event), c)
    → observe_id ctx booking_id event_id (quiet_with w s)
      ≡ (ok (present event), quiet_with (record w { calendar = c }) s)
unfolding observe_id observed_event
observe_id_once ctx booking_id event_id w s event c own e =
    catch_ok _ _ _ _ _ (bind-ok _ _ _ _ _ (on_calendar_once _ w s (some event) c e) ∙ rw own refl)

module _ {C : Type 0} (deps : CancelDeps C) (row : BookingRow) (op : PendingOp) (revision : ℕ)
    (w : World C) (s : MemoryBookingStore) (k : Held row.id op revision s) (event_id : Key)
    (event : CalendarEvent) (o : DeleteOutcome) (c : C)
    (e : deps.ctx.client.remove (live_delete_input deps.ctx event_id event.etag) w.calendar
      ≡ (ok o, c)) where
  delete_live_event_once :
      (t : MemoryBookingStore) × (delete_live_event deps row op event_id event (quiet_with w s)
        ≡ (ok true, quiet_with (record w { drawn = w.drawn + 1; calendar = c }) t))
      × Held row.id op revision t
  unfolding delete_live_event
  delete_live_event_once =
      let w1 : World C = record w { drawn = w.drawn + 1 } in
      let w2 : World C = record w1 { calendar = c } in
      let id = deps.ctx.uuid w.drawn in
      let a = new_attempt id delete event_id op.gen w.now (some event.etag) in
      let (t1, e1, k1) = write_attempt_once row op revision w1 s k a in
      let (t2, e2, k2) = finish_attempt_once row op revision w2 t1 k1 id applied in
      let (t3, e3, k3) = retire_attributed_once row op revision w2 t2 k2 event in
      (
        t3,
        bind-ok _ _ _ _ _ (new_uuid_once deps.ctx w s)
            ∙ bind-ok _ _ _ _ _ (now_once w1 s)
            ∙ bind-ok _ _ _ _ _ e1
            ∙ catch_ok _ _ _ _ _ (
                then_ok _ _ _ _ _ (remove_live_once deps.ctx event_id event.etag w1 t1 o c e)
                ∙ then_ok _ _ _ _ _ e2
                ∙ then_ok _ _ _ _ _ e3),
        k3,
      )

-- What a completed cancel answers and leaves.
pub record Gone (id : Key) (revision : ℕ) (out : CancelOutcome) (s : MemoryBookingStore)
    : Type 0 where
  pub stored : get_by_id s id ≡ some out.row
  pub done : out.row.status ≡ cancelled
  pub next : out.row.revision ≡ revision + 1
  pub idle : out.row.pending_op ≡ none
  pub clear : out.row.calendar_state ≡ CalendarState.deleted

finish_cancel-Gone :
    {C : Type 0} (deps : CancelDeps C) (row : BookingRow) (op : PendingOp) (revision : ℕ)
    (w : World C) (s : MemoryBookingStore)
    → ((r : BookingRow) (v : World C) → deps.notify r v ≡ (ok tt, v))
    → Held row.id op revision s
    → (out : CancelOutcome) × (t : MemoryBookingStore) × (finish_cancel deps row op true
          (quiet_with w s)
        ≡ (ok out, quiet_with w t))
      × Gone row.id revision out t
finish_cancel-Gone deps row op revision w s quiet k =
    let own = Held-owns row.id op revision s k in
    let w' = quiet_with w s in
    (
      completed_cancel row op w' k.fresh k.current k.found k.named k.standing own deps,
      cancelled_store row op w' k.fresh k.current k.found k.named k.standing own,
      finish_cancel_once row op w' k.fresh k.current k.found k.named k.standing own deps quiet,
      record {
        stored = cancelled_kept row op w' k.fresh k.current k.found k.named k.standing own;
        done = refl;
        next = ap (λ n. n + 1) k.same_revision;
        idle = refl;
        clear = refl;
      },
    )

module _ {C : Type 0} (deps : CancelDeps C) (row : BookingRow) (op : PendingOp) (v : World C) where
  reap_if_eligible-skipped :
      has_eligible_reap row ≡ false → reap_if_eligible deps.ctx row v ≡ (ok tt, v)
  reap_if_eligible-skipped clean = rw clean refl

  remove_inherited-none :
      inherited_intended_ids op row ≡ []
      → remove_inherited deps row op (inherited_intended_ids op row) v ≡ (ok tt, v)
  unfolding remove_inherited
  remove_inherited-none e = rw e refl

  delete_live-present :
      (event_id : Key) (event : CalendarEvent) (v' v'' : World C)
      → op.old_event_id ≡ some event_id
      → observe_id deps.ctx row.id event_id v ≡ (ok (present event), v')
      → delete_live_event deps row op event_id event v' ≡ (ok true, v'')
      → delete_live deps row op v ≡ (ok true, v'')
  unfolding delete_live write_attempt finish_attempt
  delete_live-present event_id event v' v'' live observed deleted =
      rw live (bind-ok _ (delete_observed deps row op event_id) v v' _ observed ∙ deleted)

module _ {C : Type 0} (deps : CancelDeps C)
    (quiet : (r : BookingRow) (v : World C) → deps.notify r v ≡ (ok tt, v)) (w : World C)
    (event_id : Key) (event : CalendarEvent) (c : C) (o : DeleteOutcome) (c' : C)
    (get : deps.ctx.client.get (live_event_input deps.ctx event_id) w.calendar
      ≡ (ok (some event), c))
    (remove : deps.ctx.client.remove (live_delete_input deps.ctx event_id event.etag) c
      ≡ (ok o, c')) where
  pub calendar_step-Gone :
      (row : BookingRow) (op : PendingOp) (revision : ℕ) (s : MemoryBookingStore)
      → has_eligible_reap row ≡ false
      → inherited_intended_ids op row ≡ []
      → op.old_event_id ≡ some event_id
      → is_foreign row.id event.marlo_booking_id ≡ false
      → Held row.id op revision s
      → (out : CancelOutcome) × (t : MemoryBookingStore) × (run_cancel_calendar_step deps row op
            (quiet_with w s)
          ≡ (ok out, quiet_with (record w { drawn = w.drawn + 1; calendar = c' }) t))
        × Gone row.id revision out t
  unfolding run_cancel_calendar_step
  calendar_step-Gone row op revision s clean none_inherited live own k =
      let w1 : World C = record w { calendar = c } in
      let (t1, e1, k1) =
        delete_live_event_once deps row op revision w1 s k event_id event o c' remove in
      let w2 : World C = record w { drawn = w.drawn + 1; calendar = c' } in
      let (out, t2, e2, g) = finish_cancel-Gone deps row op revision w2 t1 quiet k1 in
      let observed = observe_id_once deps.ctx row.id event_id w s event c own get in
      (
        out,
        t2,
        then_ok _ _ _ _ _ (reap_if_eligible-skipped deps row op (quiet_with w s) clean)
            ∙ then_ok _ _ _ _ _ (remove_inherited-none deps row op (quiet_with w s) none_inherited)
            ∙ bind-ok _ _ _ _ _ (
                delete_live-present deps row op (quiet_with w s) event_id event _ _ live observed
                  e1)
            ∙ e2,
        g,
      )
