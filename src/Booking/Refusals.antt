-- ===== src/Booking/Refusals.antt =====
-- lib/booking/cancel.ts: what a cancel answers for a booking that is cancelled already, and for one
-- that it may not cancel now. No other worker commits during the call: the world is quiet.
use marlo_scheduling.Prelude.{
  ℕ, ◌+◌, ◌≡◌, ◌∙◌, inl, inr, refl, ap, true, false, not, Option, none, some, [], ◌==◌,
  if◌then◌else◌, Bool-cases, Option-cases, arith, subst,
}
use marlo_scheduling.Rows.{
  Key, BookingRow, PendingOp, is_confirmed, is_pending, is_stale_op, retry_after_seconds,
  has_eligible_reap,
}
use marlo_scheduling.Store.{MemoryTx, ok, err, commit, get_by_id, select_for_update}
use marlo_scheduling.Notify.{delivery_summary_for}
use marlo_scheduling.Lifecycle.Errors.{
  Failure, LifecycleError, lifecycle, error_of, booking_changed, in_progress,
}
use marlo_scheduling.Lifecycle.World.{World, now, on_store, take_turn, ◌>>=◌, ◌>>◌}
use marlo_scheduling.Lifecycle.Envelope.{booking_body, build_envelope}
use marlo_scheduling.Lifecycle.Reap.{read_row}
use marlo_scheduling.Lifecycle.Cancel.{
  CancelDeps, CancelRequest, cancel_durable_booking, cancel_pass, cancel_once, repeat_cancel,
  after_cancel_t1,
}
use marlo_scheduling.Lifecycle.Cancel.T1.{
  CancelT1, cancel_changed, cancel_busy, cancel_t1_tx, cancel_open,
}
use marlo_scheduling.Lifecycle.Cancel.Calendar.{cancelled_outcome}
use marlo_scheduling.Booking.Transactions.{opened, locked-ok}
use marlo_scheduling.Booking.Owned.{get_by_id_self}
use marlo_scheduling.Booking.Replay.{bind-ok}
use marlo_scheduling.Booking.Completes.Quiet.{quiet_with, locked_once, read_once, new_uuid_once}

-- In a quiet world, the cancel of a booking that is cancelled already, with no late insert to reap
-- and a calendar state other than pending, answers the booking as it stands, and nothing is
-- changed.
pub cancel_durable_booking-repeats :
    {C : Type 0} (deps : CancelDeps C) (request : CancelRequest) (w : World C) (row : BookingRow)
    → get_by_id w.store request.booking_id ≡ some row
    → is_confirmed row.status ≡ false
    → has_eligible_reap row ≡ false
    → is_pending row.calendar_state ≡ false
    → cancel_durable_booking deps request (record w { turns = [] }) ≡ (
      ok (record {
        envelope = record {
          booking = booking_body row deps.meta;
          email = delivery_summary_for w.store row.id row.revision row.latest_action;
          calendar = row.calendar_state;
        };
        row = row;
      }),
      record w { turns = [] },
    )
unfolding cancel_durable_booking cancel_pass cancel_once repeat_cancel cancelled_outcome
    build_envelope read_row ◌>>=◌ ◌>>◌ on_store take_turn
cancel_durable_booking-repeats deps request w row h done clean settled =
    simp (h, done, clean, get_by_id_self w.store request.booking_id row h, settled) refl

-- Why a standing booking cannot be cancelled now, if it cannot: the request names another revision,
-- or an operation is open and not stale.
unfoldable pub refusal_of :
    {C : Type 0} → CancelDeps C → BookingRow → CancelRequest → ℕ → Option LifecycleError
refusal_of deps row request time =
    if not (row.revision == request.expected_revision)
    then some (record (error_of booking_changed) { booking = some (booking_body row deps.meta) })
    else elim row.pending_op [
      | none ↦ none
      | some op ↦
          if is_stale_op op time then none else some (in_progress (retry_after_seconds op time))
    ]

module _ {C : Type 0} (deps : CancelDeps C) (request : CancelRequest) (w : World C)
    (row : BookingRow) (h : get_by_id w.store request.booking_id ≡ some row)
    (standing : is_confirmed row.status ≡ true) where
  from_t1 :
      (t1 : CancelT1)
      → cancel_t1_tx request (deps.ctx.uuid w.drawn) w.now (opened w.store) ≡ (t1, opened w.store)
      → cancel_durable_booking deps request (quiet_with w w.store)
        ≡ after_cancel_t1 deps
            (cancel_pass 1 deps)
            request
            t1
            (quiet_with (record w { drawn = w.drawn + 1 }) w.store)
  unfolding cancel_durable_booking cancel_pass cancel_once commit
  from_t1 t1 e =
      let w1 : World C = record w { drawn = w.drawn + 1 } in
      let run =
        locked-ok {E = Failure} _ w.store _ _ (ap (λ (p : CancelT1 × MemoryTx). (ok p.0, p.1)) e) in
      bind-ok _ _ _ _ _ (read_once w w.store request.booking_id _ h)
      ∙ rw standing (
          bind-ok _ _ _ _ _ (new_uuid_once deps.ctx w w.store)
          ∙ bind-ok _ _ _ _ _ (locked_once row.host_id _ w1 _ _ run))

  t1_changed :
      (op_id : Key)
      → row.revision == request.expected_revision ≡ false
      → cancel_t1_tx request op_id w.now (opened w.store) ≡ (cancel_changed row, opened w.store)
  unfolding select_for_update cancel_t1_tx
  t1_changed op_id e = rw (cancel_t1_tx, h, standing, e) refl

  t1_busy :
      (op_id : Key) (op : PendingOp)
      → row.revision == request.expected_revision ≡ true
      → row.pending_op ≡ some op
      → is_stale_op op w.now ≡ false
      → cancel_t1_tx request op_id w.now (opened w.store) ≡ (cancel_busy op, opened w.store)
  unfolding select_for_update cancel_open cancel_t1_tx
  t1_busy op_id op e f g = rw (cancel_t1_tx, h, standing, e) (simp (f, g) refl)

  abbrev drawn_once : World C
  drawn_once = record w { turns = []; drawn = w.drawn + 1 }

  abbrev Answers : LifecycleError → Type 0
  Answers reason =
      cancel_durable_booking deps request (quiet_with w w.store)
      ≡ (err (lifecycle reason), drawn_once)

  changed-Answers :
      row.revision == request.expected_revision ≡ false
      → Answers (record (error_of booking_changed) { booking = some (booking_body row deps.meta) })
  unfolding after_cancel_t1
  changed-Answers e = from_t1 _ (t1_changed _ e)

  busy-Answers :
      (op : PendingOp)
      → row.revision == request.expected_revision ≡ true
      → row.pending_op ≡ some op
      → is_stale_op op w.now ≡ false
      → Answers (in_progress (retry_after_seconds op w.now))
  unfolding after_cancel_t1 now ◌>>=◌
  busy-Answers op e f g = from_t1 _ (t1_busy _ op e f g)

-- In a quiet world, the cancel of a standing booking at another revision than it has is answered by
-- `booking_changed` with the booking as it stands, and one that meets an open operation that is not
-- stale is answered by `operation_in_progress` with the seconds to wait; the rows, the deliveries
-- and the calendar are as they were.
pub cancel_durable_booking-refused :
    {C : Type 0} (deps : CancelDeps C) (request : CancelRequest) (w : World C) (row : BookingRow)
    (reason : LifecycleError)
    → get_by_id w.store request.booking_id ≡ some row
    → is_confirmed row.status ≡ true
    → refusal_of deps row request w.now ≡ some reason
    → cancel_durable_booking deps request (record w { turns = [] })
      ≡ (err (lifecycle reason), record w { turns = []; drawn = w.drawn + 1 })
unfolding refusal_of
cancel_durable_booking-refused deps request w row reason h standing r =
    elim (Bool-cases (row.revision == request.expected_revision)) [
      | inl e ↦ elim (Option-cases row.pending_op) [
        | inl f ↦ ground arith
        | inr (op, f) ↦ elim (Bool-cases (is_stale_op op w.now)) [
          | inl g ↦ ground arith
          | inr g ↦
              let t = busy-Answers deps request w row h standing op e f g in
              let same : in_progress (retry_after_seconds op w.now) ≡ reason = ground arith in
              subst (Answers deps request w row h standing) same t
        ]
      ]
      | inr e ↦
          let t = changed-Answers deps request w row h standing e in
          let same : record (error_of booking_changed) {
            booking = some (booking_body row deps.meta);
          }
              ≡ reason =
            ground arith in
          subst (Answers deps request w row h standing) same t
    ]
