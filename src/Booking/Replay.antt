-- ===== src/Booking/Replay.antt =====
-- lib/booking/create.ts: what a create answers for a key that is settled already. No other worker
-- commits during the call: the world is quiet.
use marlo_scheduling.Prelude.{◌≡◌, refl, ap, ◌∙◌, true, false, none, some, [], ◌==◌, is_none}
use marlo_scheduling.Rows.{
  PendingOp, is_create, is_stale_op, retry_after_seconds, BookingRow, RejectionReason, is_pending,
}
use marlo_scheduling.Store.{Result, ok, err, commit, locked, lookup_key, lookup_rejection}
use marlo_scheduling.Lifecycle.Errors.{
  Failure, lifecycle, error_of, idempotency_key_reused, in_progress,
}
use marlo_scheduling.Lifecycle.World.{
  now, World, Step, with_host_lock, take_turn, settle_commit, on_store, ◌>>=◌,
}
use marlo_scheduling.Lifecycle.Create.{
  CreateBookingRequest, CreateDeps, create_durable_booking, after_l0, rejection_error,
  fingerprint_of, replay_or_resume,
}
use marlo_scheduling.Notify.{delivery_summary_for}
use marlo_scheduling.Lifecycle.Envelope.{booking_body, build_envelope}
use marlo_scheduling.Lifecycle.Create.Answer.{answer_row}
use marlo_scheduling.Lifecycle.Create.T1.{L0Result, l0_fenced, l0_existing, l0_tx}
use marlo_scheduling.Booking.Transactions.{opened}

-- The world without the turns of others.
abbrev quiet : {C : Type 0} → World C → World C
quiet w = record w { turns = [] }

pub bind-ok :
    {C A B : Type 0} (m : Step C A) (f : A → Step C B) (w w' : World C) (a : A)
    → m w ≡ (ok a, w')
    → (m >>= f) w ≡ f a w'
unfolding ◌>>=◌
bind-ok {C} {A} {B} m f w w' a e = ap finish e
  where
    finish : Result Failure A × World C → Result Failure B × World C
    finish (r, v) = elim r [ ok x ↦ f x v | err x ↦ (err x, v) ]

module _ {C : Type 0} (deps : CreateDeps C) (request : CreateBookingRequest) (w : World C) where
  from_l0 :
      (answer : L0Result)
      → l0_tx request (fingerprint_of deps request) (opened w.store) ≡ answer
      → create_durable_booking deps request (quiet w) ≡ after_l0 deps request answer (quiet w)
  unfolding create_durable_booking with_host_lock take_turn settle_commit locked commit
  from_l0 answer e =
      bind-ok _ (after_l0 deps request) (quiet w) (quiet w) answer (ap (λ a. (ok a, quiet w)) e)

  l0_tx-fenced :
      (reason : RejectionReason)
      → lookup_rejection
          (opened w.store)
          request.owner_id
          request.idempotency_key
          (fingerprint_of deps request)
        ≡ some reason
      → l0_tx request (fingerprint_of deps request) (opened w.store) ≡ l0_fenced reason
  unfolding l0_tx lookup_rejection
  l0_tx-fenced reason e = rw (e, l0_tx) refl

  l0_tx-existing :
      (row : BookingRow)
      → lookup_rejection
          (opened w.store)
          request.owner_id
          request.idempotency_key
          (fingerprint_of deps request)
        ≡ none
      → lookup_key (opened w.store) request.owner_id request.idempotency_key ≡ some row
      → l0_tx request (fingerprint_of deps request) (opened w.store) ≡ l0_existing row
  unfolding l0_tx lookup_rejection lookup_key
  l0_tx-existing row e f = rw (e, l0_tx) (rw f refl)

-- In a quiet world, a key that was rejected durably for this request is answered by that rejection,
-- whatever the calendar, the gate and the rows hold, and nothing is changed.
pub create_durable_booking-rejected :
    {C : Type 0} (deps : CreateDeps C) (request : CreateBookingRequest) (w : World C)
    (reason : RejectionReason)
    → lookup_rejection
        (opened w.store)
        request.owner_id
        request.idempotency_key
        (fingerprint_of deps request)
      ≡ some reason
    → create_durable_booking deps request (record w { turns = [] })
      ≡ (err (lifecycle (rejection_error reason)), record w { turns = [] })
unfolding after_l0
create_durable_booking-rejected deps request w reason e =
    from_l0 deps request w (l0_fenced reason) (l0_tx-fenced deps request w reason e)

-- In a quiet world, a key without a rejection whose row was created for another fingerprint is
-- answered by `idempotency_key_reused`, and nothing is changed.
pub create_durable_booking-reused :
    {C : Type 0} (deps : CreateDeps C) (request : CreateBookingRequest) (w : World C)
    (row : BookingRow)
    → lookup_rejection
        (opened w.store)
        request.owner_id
        request.idempotency_key
        (fingerprint_of deps request)
      ≡ none
    → lookup_key (opened w.store) request.owner_id request.idempotency_key ≡ some row
    → row.create_fingerprint == fingerprint_of deps request ≡ false
    → create_durable_booking deps request (record w { turns = [] })
      ≡ (err (lifecycle (error_of idempotency_key_reused)), record w { turns = [] })
unfolding after_l0 replay_or_resume
create_durable_booking-reused deps request w row e f other =
    from_l0 deps request w (l0_existing row) (l0_tx-existing deps request w row e f) ∙ rw other refl

-- In a quiet world, a key without a rejection whose finalized row has the same fingerprint, no open
-- op and a calendar state other than pending is answered by that row as a replay, without a change:
-- the envelope shows the row and the summary of its deliveries.
pub create_durable_booking-replays :
    {C : Type 0} (deps : CreateDeps C) (request : CreateBookingRequest) (w : World C)
    (row : BookingRow)
    → lookup_rejection
        (opened w.store)
        request.owner_id
        request.idempotency_key
        (fingerprint_of deps request)
      ≡ none
    → lookup_key (opened w.store) request.owner_id request.idempotency_key ≡ some row
    → row.create_fingerprint == fingerprint_of deps request ≡ true
    → row.pending_op ≡ none
    → is_none row.latest_action ≡ false
    → is_pending row.calendar_state ≡ false
    → create_durable_booking deps request (record w { turns = [] }) ≡ (
      ok (record {
        envelope = record {
          booking = booking_body row deps.meta;
          email = delivery_summary_for w.store row.id row.revision row.latest_action;
          calendar = row.calendar_state;
        };
        row = row;
        replayed = true;
      }),
      record w { turns = [] },
    )
unfolding after_l0 replay_or_resume answer_row build_envelope ◌>>=◌ on_store take_turn
create_durable_booking-replays deps request w row e f same idle final settled =
    from_l0 deps request w (l0_existing row) (l0_tx-existing deps request w row e f)
    ∙ simp (same, idle, final, settled) refl

-- In a quiet world, a key without a rejection whose row of the same fingerprint has an open create
-- op that is not stale is answered by `operation_in_progress` with the seconds to wait, and nothing
-- is changed.
pub create_durable_booking-in_progress :
    {C : Type 0} (deps : CreateDeps C) (request : CreateBookingRequest) (w : World C)
    (row : BookingRow) (op : PendingOp)
    → lookup_rejection
        (opened w.store)
        request.owner_id
        request.idempotency_key
        (fingerprint_of deps request)
      ≡ none
    → lookup_key (opened w.store) request.owner_id request.idempotency_key ≡ some row
    → row.create_fingerprint == fingerprint_of deps request ≡ true
    → row.pending_op ≡ some op
    → is_create op.kind ≡ true
    → is_stale_op op w.now ≡ false
    → create_durable_booking deps request (record w { turns = [] })
      ≡ (err (lifecycle (in_progress (retry_after_seconds op w.now))), record w { turns = [] })
unfolding after_l0 replay_or_resume ◌>>=◌ now
create_durable_booking-in_progress deps request w row op e f same busy kind fresh =
    from_l0 deps request w (l0_existing row) (l0_tx-existing deps request w row e f)
    ∙ simp (same, busy, kind, fresh) refl
