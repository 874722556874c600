-- ===== src/Tests/Data.antt =====
-- Concrete rows, stores, requests and a calendar for the tests.
use marlo_scheduling.Prelude.{ℕ, suc, false, none, some, List, [], ◌∷◌}
use marlo_scheduling.Rows.{
  BookingRow, PendingOp, Attempt, UnresolvedInsert, confirmed, LatestAction, CalendarState, OpKind,
  AttemptKind, AttemptOutcome, pending, slot_unavailable,
}
use marlo_scheduling.Store.{
  MemoryBookingStore, DeliveryKey, DeliveryRow, ok, err, invitee, sent, FenceEntry,
  DeliveryRecipient,
}
use marlo_scheduling.Google.{
  CalendarClient, CalendarEvent, thrown_status, InsertEventInput, event_confirmed, event_deleted,
  all_guests,
}
use marlo_scheduling.Lifecycle.World.{World, Context, Turn, answered, pure}
use marlo_scheduling.Lifecycle.Create.{CreateBookingRequest, CreateDeps}
use marlo_scheduling.Lifecycle.Create.T1.{T1Input}

-- An insert of op 30 that may have taken effect.
abbrev pub attempt_a : Attempt
attempt_a = record {
  attempt_id = 40;
  kind = AttemptKind.insert;
  event_id = 50;
  gen = 1;
  issued_at = 1_000;
  if_match = none;
  outcome = AttemptOutcome.unresolved;
  resolved_at = none;
}

abbrev pub op_a : PendingOp
op_a = record {
  kind = OpKind.create;
  op_id = 30;
  gen = 1;
  started_at = 1_000;
  event_id = some 50;
  new_start = none;
  new_end = none;
  old_event_id = none;
  fallback_event_id = none;
  etag = none;
  attempts = attempt_a ∷ [];
}

abbrev pub retained_a : UnresolvedInsert
retained_a = record {
  attempt_id = 41;
  event_id = 51;
  op_id = 29;
  gen = 1;
  issued_at = 900;
  inspect_seq = none;
  inspected_at = none;
}

-- A create that is under way.
abbrev pub row_a : BookingRow
row_a = record {
  id = 7;
  token = 70;
  idempotency_key = 2;
  create_fingerprint = 99;
  owner_id = 1;
  event_type_id = 3;
  host_id = 5;
  start = 10_000_000;
  end = 11_800_000;
  status = confirmed;
  revision = 1;
  latest_action = none;
  google_event_id = some 50;
  google_event_etag = none;
  calendar_state = pending;
  rescheduled_from = none;
  reserved_start = none;
  reserved_end = none;
  pending_op = some op_a;
  unfinished_create = none;
  unresolved_inserts = retained_a ∷ record retained_a { attempt_id = 42; event_id = 52 } ∷ [];
  reap_cursor = 0;
  invitee_name = 80;
  invitee_email = 81;
  notes = none;
  metadata = 0;
  created_at = 1_000;
}

-- The same booking, finalized.
abbrev pub row_done : BookingRow
row_done = record row_a {
  latest_action = some LatestAction.confirm;
  calendar_state = CalendarState.created;
  pending_op = none;
}

abbrev pub empty_store : MemoryBookingStore
empty_store = record {
  rows = [];
  by_token = [];
  by_idempotency_key = [];
  rejected_keys = [];
  deliveries = [];
  lock_unavailable = false;
}

abbrev pub store_with : BookingRow → MemoryBookingStore
store_with row = record empty_store {
  rows = row ∷ [];
  by_token = record { token = row.token; id = row.id } ∷ [];
  by_idempotency_key =
      record { owner_id = row.owner_id; idempotency_key = row.idempotency_key; id = row.id } ∷ [];
}

abbrev pub fence_a : FenceEntry
fence_a = record {
  owner_id = 1;
  idempotency_key = 2;
  create_fingerprint = 99;
  reason = slot_unavailable;
}

abbrev pub request_a : CreateBookingRequest
request_a = record {
  owner_id = 1;
  host_id = 5;
  event_type_id = 3;
  event_name = 4;
  duration_minutes = 30;
  start = 10_000_000;
  invitee_name = 80;
  invitee_email = 81;
  notes = none;
  metadata = 0;
  idempotency_key = 2;
}

abbrev pub input_a : T1Input
input_a = record {
  fingerprint = 99;
  gated = none;
  external = [];
  intended_id = 50;
  op_id = 30;
  booking_id = 7;
  token = 70;
  attempt_id = 40;
}

abbrev inserted_event : InsertEventInput → CalendarEvent
inserted_event input = record {
  id = input.id;
  status = event_confirmed;
  start = input.start;
  end = input.end;
  etag = 1;
  summary = some input.summary;
  transparency = none;
  attendees = input.attendees;
  marlo_booking_id = some input.booking_id;
  marlo_attempt_id = some input.attempt_id;
  marlo_op_gen = none;
}

-- A calendar without events that accepts every insert; its state counts the inserts.
abbrev pub calendar_a : CalendarClient ℕ
calendar_a = record {
  insert = λ input c. (ok (inserted_event input), suc c);
  get = λ input c. (ok none, c);
  patch = λ input c. (err (thrown_status 404), c);
  remove = λ input c. (ok event_deleted, c);
  list = λ input c. (ok [], c);
}

abbrev pub context_a : Context ℕ
context_a = record {
  client = calendar_a;
  calendar_id = 6;
  send_updates = all_guests;
  uuid = λ n. suc n;
}

abbrev pub deps_a : CreateDeps ℕ
deps_a = record {
  ctx = context_a;
  meta = record { owner_slug = 1; event_slug = 2; host_first_name = 3 };
  notify = λ row. pure tt;
  gate = pure none;
  on_finalize = λ row. ok tt;
  fingerprint = λ event_type start email. 99;
}

-- Another worker commits nothing, and a second passes.
abbrev pub turn_a : Turn
turn_a = record { others = λ s. s; delay = 1_000; fate = answered }

abbrev pub world_with : MemoryBookingStore → List Turn → World ℕ
world_with store turns = record {
  store = store;
  calendar = 0;
  now = 5_000;
  drawn = 0;
  turns = turns;
}

abbrev pub delivery_a : DeliveryKey
delivery_a = record {
  booking_id = 7;
  revision = 1;
  action = LatestAction.confirm;
  recipient = invitee;
}

abbrev pub sent_to : DeliveryRecipient → DeliveryRow
sent_to who = record {
  booking_id = 7;
  revision = 1;
  action = LatestAction.confirm;
  recipient = who;
  state = sent;
  claimed_at = 0;
  attempts = 1;
}
