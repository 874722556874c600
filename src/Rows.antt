-- ===== src/Rows.antt =====
-- lib/booking/rows.ts: the pure predicates over a booking row.
mod Types
pub mod Order
pub mod Marks
pub mod Retained
pub mod Fair
pub mod Eligible
pub mod Stale
unfoldable pub use Types.*
use marlo_scheduling.Prelude.{
  ℕ, ◌+◌, ◌-◌, ◌/◌, Bool, true, false, not, ◌&&◌, ◌||◌, Option, none, some, List, [], ◌∷◌, ◌++◌,
  ltb, ◌==◌, if◌then◌else◌, same, is_key, is_none, any, filter, find, take, put,
}
use Order.{sort_marked}

abbrev pub op_stale_ms : ℕ
op_stale_ms = 120_000

abbrev pub reap_max_per_request : ℕ
reap_max_per_request = 5

abbrev pub claim_stale_ms : ℕ
claim_stale_ms = 120_000

abbrev pub is_confirmed : BookingRowStatus → Bool
is_confirmed confirmed = true
is_confirmed cancelled = false

abbrev pub is_pending : CalendarState → Bool
is_pending pending = true
is_pending _ = false

abbrev pub is_insert : AttemptKind → Bool
is_insert insert = true
is_insert _ = false

abbrev pub is_unresolved : AttemptOutcome → Bool
is_unresolved unresolved = true
is_unresolved _ = false

abbrev pub is_create : OpKind → Bool
is_create OpKind.create = true
is_create _ = false

-- `nowMs - startedAt > OP_STALE_MS`, with the subtraction moved to the other side.
unfoldable pub is_stale_op : PendingOp → ℕ → Bool
is_stale_op op now = ltb (op.started_at + op_stale_ms) now

-- `max(1, ceil((OP_STALE_MS - (nowMs - startedAt)) / 1000))`; below 0 the maximum answers 1.
unfoldable pub retry_after_seconds : PendingOp → ℕ → ℕ
retry_after_seconds op now =
    let seconds = (op.started_at + op_stale_ms - now + 999) / 1000 in
    if ltb seconds 1 then 1 else seconds

unfoldable pub live_event_id : BookingRow → Option Key
live_event_id row = if is_confirmed row.status then row.google_event_id else none

unfoldable pub is_live_id : BookingRow → Key → Bool
unfolding live_event_id
is_live_id row event_id = is_key (live_event_id row) event_id

present_id : Option Key → List Key
present_id none = []
present_id (some id) = if id == 0 then [] else id ∷ []

unfoldable pub open_op_intended_ids : BookingRow → List Key
unfolding present_id
open_op_intended_ids row = elim row.pending_op [
  | none ↦ []
  | some op ↦
      present_id op.event_id ++ present_id op.fallback_event_id ++ present_id op.old_event_id
]

-- The loop of `eligibleReapIds`, with the set of the ids seen so far.
unfoldable pub eligible_loop : Option Key → List Key → List UnresolvedInsert → List Key
eligible_loop live seen [] = []
eligible_loop live seen (entry ∷ rest) =
    let skip = eligible_loop live seen rest in
    let kept = eligible_loop live (entry.event_id ∷ seen) rest in
    if is_key live entry.event_id || any (λ (id : Key). id == entry.event_id) seen
    then skip
    else entry.event_id ∷ kept

unfoldable pub eligible_reap_ids : BookingRow → List Key
unfolding eligible_loop live_event_id
eligible_reap_ids row = eligible_loop (live_event_id row) [] row.unresolved_inserts

unfoldable pub order_reap_candidates : BookingRow → List Key → List Key
unfolding sort_marked
order_reap_candidates row eligible = sort_marked row.unresolved_inserts eligible

unfoldable pub select_reap_batch : BookingRow → ℕ → List Key
unfolding order_reap_candidates eligible_reap_ids
select_reap_batch row max = take max (order_reap_candidates row (eligible_reap_ids row))

abbrev pub has_eligible_reap : BookingRow → Bool
has_eligible_reap row = elim (eligible_reap_ids row) [ [] ↦ false | id ∷ ids ↦ true ]

unfoldable pub is_unresolved_insert : Attempt → Bool
is_unresolved_insert attempt = is_insert attempt.kind && is_unresolved attempt.outcome

unfoldable pub unresolved_insert_attempts : Option PendingOp → List Attempt
unfolding is_unresolved_insert
unresolved_insert_attempts none = []
unresolved_insert_attempts (some op) = filter is_unresolved_insert op.attempts

unfoldable pub retain : Attempt → UnresolvedInsert
retain attempt = record {
  attempt_id = attempt.attempt_id;
  event_id = attempt.event_id;
  op_id = 0;
  gen = attempt.gen;
  issued_at = attempt.issued_at;
  inspect_seq = none;
  inspected_at = none;
}

abbrev pub names_attempt : Key → UnresolvedInsert → Bool
names_attempt id entry = entry.attempt_id == id

-- `new Map(existing.map((entry) => [entry.attemptId, entry]))`: a later entry takes the place of an
-- earlier one with its attempt id.
unfoldable pub by_attempt : List UnresolvedInsert → List UnresolvedInsert → List UnresolvedInsert
by_attempt table [] = table
by_attempt table (entry ∷ rest) = by_attempt (put (names_attempt entry.attempt_id) entry table) rest

-- One round of the loop over the attempts.
unfoldable pub retain_step : List UnresolvedInsert → Attempt → List UnresolvedInsert
unfolding is_unresolved_insert retain
retain_step table attempt =
    if is_unresolved_insert attempt && is_none (find (names_attempt attempt.attempt_id) table)
    then table ++ retain attempt ∷ []
    else table

unfoldable pub retain_loop : List UnresolvedInsert → List Attempt → List UnresolvedInsert
unfolding retain_step
retain_loop table [] = table
retain_loop table (attempt ∷ rest) = retain_loop (retain_step table attempt) rest

unfoldable pub retained_from : List UnresolvedInsert → List Attempt → List UnresolvedInsert
unfolding by_attempt retain_loop
retained_from existing attempts = retain_loop (by_attempt [] existing) attempts

unfoldable pub holds_cf1 : BookingRow → Bool
holds_cf1 row = same (is_pending row.calendar_state) (is_none row.latest_action)

unfoldable pub holds_cf2 : BookingRow → Bool
holds_cf2 row = not (is_none row.pending_op) || not (is_none row.latest_action)

unfoldable pub holds_cf3 : BookingRow → Bool
holds_cf3 row = is_none row.unfinished_create || is_none row.latest_action

-- `assertInvariants` returns exactly where this holds.
unfoldable pub holds_invariants : BookingRow → Bool
unfolding holds_cf1 holds_cf2 holds_cf3
holds_invariants row = holds_cf1 row && holds_cf2 row && holds_cf3 row

unfoldable pub overlaps : Interval → Interval → Bool
overlaps a b = ltb a.start b.end && ltb b.start a.end
