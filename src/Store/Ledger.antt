-- ===== src/Store/Ledger.antt =====
-- lib/booking/memory-store.ts: the reads of the store, its reap marks and its delivery ledger.
use marlo_scheduling.Prelude.{
  ℕ, ◌+◌, Bool, true, false, not, ◌&&◌, ◌||◌, Option, none, some, List, [], ◌∷◌, ◌++◌, ltb, ◌==◌,
  if◌then◌else◌, is_key, any, filter, find, put, adjust, flat_map,
}
use marlo_scheduling.Rows.{
  Key, Instant, BookingRow, UnresolvedInsert, LatestAction, Interval, is_confirmed, overlaps,
  claim_stale_ms,
}
use marlo_scheduling.Store.Types.{
  MemoryBookingStore, OccupancyQuery, DeliveryRow, DeliveryKey, DeliveryRecipient, DeliveryState,
  TokenEntry, invitee, owner, claimed, sent, failed,
}

abbrev pub empty_store : MemoryBookingStore
empty_store = record {
  rows = [];
  by_token = [];
  by_idempotency_key = [];
  rejected_keys = [];
  deliveries = [];
  lock_unavailable = false;
}

abbrev reset : MemoryBookingStore → MemoryBookingStore
reset store = empty_store

abbrev set_lock_unavailable : Bool → MemoryBookingStore → MemoryBookingStore
set_lock_unavailable value store = record store { lock_unavailable = value }

abbrev pub has_id : Key → BookingRow → Bool
has_id id row = row.id == id

unfoldable pub get_by_id : MemoryBookingStore → Key → Option BookingRow
get_by_id store id = find (has_id id) store.rows

abbrev pub has_token : Key → TokenEntry → Bool
has_token token entry = entry.token == token

unfoldable pub get_by_token : MemoryBookingStore → Key → Option BookingRow
unfolding get_by_id
get_by_token store token = elim (find (has_token token) store.by_token) [
  | none ↦ none
  | some entry ↦ get_by_id store entry.id
]

-- The two pushes of one round of `occupancySync`.
unfoldable pub confirmed_busy : BookingRow → Interval → List Interval
unfolding overlaps
confirmed_busy row window =
    let interval : Interval = record { start = row.start; end = row.end } in
    if is_confirmed row.status && overlaps interval window then interval ∷ [] else []

unfoldable pub reserved_busy : BookingRow → Interval → List Interval
unfolding overlaps
reserved_busy row window = elim row.reserved_start [
  | none ↦ []
  | some start ↦ elim row.reserved_end [
    | none ↦ []
    | some end ↦
        let reserved : Interval = record { start = start; end = end } in
        if overlaps reserved window then reserved ∷ [] else []
  ]
]

unfoldable pub row_busy : OccupancyQuery → BookingRow → List Interval
unfolding confirmed_busy reserved_busy
row_busy query row =
    if not (row.host_id == query.host_id) || is_key query.exclude_booking_id row.id
    then []
    else confirmed_busy row query.window ++ reserved_busy row query.window

unfoldable pub occupancy_sync : MemoryBookingStore → OccupancyQuery → List Interval
unfolding row_busy
occupancy_sync store query = flat_map (row_busy query) store.rows

unfoldable pub names_event : Key → BookingRow → Bool
names_event event_id row =
    is_key row.google_event_id event_id
    || any (λ (entry : UnresolvedInsert). entry.event_id == event_id) row.unresolved_inserts

unfoldable pub find_by_google_event_id : MemoryBookingStore → Key → Option BookingRow
unfolding names_event
find_by_google_event_id store event_id = find (names_event event_id) store.rows

unfoldable pub drop_attempt : Key → BookingRow → BookingRow
drop_attempt attempt_id row = record row {
  unresolved_inserts =
      filter (λ (entry : UnresolvedInsert). not (entry.attempt_id == attempt_id))
        row.unresolved_inserts;
}

unfoldable pub retire_attempt : MemoryBookingStore → Key → Key → MemoryBookingStore
unfolding drop_attempt
retire_attempt store booking_id attempt_id = record store {
  rows = adjust (has_id booking_id) (drop_attempt attempt_id) store.rows;
}

-- The inner loop of `stampReapBatch`.
unfoldable pub mark_entries : Key → ℕ → Instant → List UnresolvedInsert → List UnresolvedInsert
mark_entries event_id seq inspected_at [] = []
mark_entries event_id seq inspected_at (entry ∷ rest) =
    (if entry.event_id == event_id
      then record entry { inspect_seq = some seq; inspected_at = some inspected_at }
      else entry)
    ∷ mark_entries event_id seq inspected_at rest

unfoldable pub stamp_one : Key → Instant → BookingRow → BookingRow
unfolding mark_entries
stamp_one event_id inspected_at row = record row {
  reap_cursor = row.reap_cursor + 1;
  unresolved_inserts =
      mark_entries event_id (row.reap_cursor + 1) inspected_at row.unresolved_inserts;
}

unfoldable pub stamp_row : List Key → Instant → BookingRow → BookingRow
unfolding stamp_one
stamp_row [] inspected_at row = row
stamp_row (event_id ∷ rest) inspected_at row =
    stamp_row rest inspected_at (stamp_one event_id inspected_at row)

-- The marks that the outer loop hands out from the cursor.
unfoldable pub stamps_from : ℕ → List Key → List ℕ
stamps_from cursor [] = []
stamps_from cursor (event_id ∷ rest) = (cursor + 1) ∷ stamps_from (cursor + 1) rest

unfoldable pub stamp_reap_batch :
    MemoryBookingStore → Key → List Key → Instant → List ℕ × MemoryBookingStore
unfolding get_by_id stamp_row stamps_from
stamp_reap_batch store booking_id event_ids inspected_at = elim (get_by_id store booking_id) [
  | none ↦ ([], store)
  | some row ↦ (
    stamps_from row.reap_cursor event_ids,
    record store {
      rows = adjust (has_id booking_id) (stamp_row event_ids inspected_at) store.rows;
    },
  )
]

abbrev pub same_action : LatestAction → LatestAction → Bool
same_action LatestAction.confirm LatestAction.confirm = true
same_action LatestAction.reschedule LatestAction.reschedule = true
same_action LatestAction.cancel LatestAction.cancel = true
same_action _ _ = false

abbrev pub same_recipient : DeliveryRecipient → DeliveryRecipient → Bool
same_recipient invitee invitee = true
same_recipient owner owner = true
same_recipient _ _ = false

-- `deliveryKey`: two rows have one key when the four parts agree.
unfoldable pub has_delivery_key : DeliveryKey → DeliveryRow → Bool
has_delivery_key key row =
    (row.booking_id == key.booking_id)
    && (row.revision == key.revision)
    && same_action row.action key.action
    && same_recipient row.recipient key.recipient

-- `claimedAt < nowMs - CLAIM_STALE_MS`, with the subtraction moved to the other side.
unfoldable pub is_reclaimable : DeliveryRow → ℕ → Bool
is_reclaimable row now = elim row.state [
  | failed ↦ true
  | claimed ↦ ltb (row.claimed_at + claim_stale_ms) now
  | sent ↦ false
]

abbrev pub reclaim : ℕ → DeliveryRow → DeliveryRow
reclaim now row = record row { state = claimed; claimed_at = now; attempts = row.attempts + 1 }

abbrev pub first_claim : DeliveryKey → ℕ → DeliveryRow
first_claim key now = record {
  booking_id = key.booking_id;
  revision = key.revision;
  action = key.action;
  recipient = key.recipient;
  state = claimed;
  claimed_at = now;
  attempts = 1;
}

-- `some gen` is the claim, `none` the refusal.
unfoldable pub claim_delivery : MemoryBookingStore → DeliveryKey → ℕ → Option ℕ × MemoryBookingStore
unfolding has_delivery_key is_reclaimable
claim_delivery store key now = elim (find (has_delivery_key key) store.deliveries) [
  | none ↦ (
    some 1,
    record store { deliveries = put (has_delivery_key key) (first_claim key now) store.deliveries },
  )
  | some row ↦
      if is_reclaimable row now
      then (
        some (row.attempts + 1),
        record store { deliveries = adjust (has_delivery_key key) (reclaim now) store.deliveries },
      )
      else (none, store)
]

abbrev is_claimed : DeliveryState → Bool
is_claimed claimed = true
is_claimed _ = false

unfoldable pub may_finalize : DeliveryRow → ℕ → Bool
may_finalize row gen = is_claimed row.state && (row.attempts == gen)

unfoldable pub finalize_delivery :
    MemoryBookingStore → DeliveryKey → ℕ → DeliveryState → Bool × MemoryBookingStore
unfolding has_delivery_key may_finalize
finalize_delivery store key gen state = elim (find (has_delivery_key key) store.deliveries) [
  | none ↦ (false, store)
  | some row ↦
      if may_finalize row gen
      then (
        true,
        record store {
          deliveries =
              adjust (has_delivery_key key) (λ (r : DeliveryRow). record r { state = state })
                store.deliveries;
        },
      )
      else (false, store)
]

unfoldable pub delivery_rows : MemoryBookingStore → Key → ℕ → LatestAction → List DeliveryRow
delivery_rows store booking_id revision action =
    filter
      (λ (row : DeliveryRow).
        (row.booking_id == booking_id)
        && (row.revision == revision)
        && same_action row.action action)
      store.deliveries
