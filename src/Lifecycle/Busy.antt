-- ===== src/Lifecycle/Busy.antt =====
-- lib/booking/occupancy.ts: which calendar items make a host busy, and the read of them.
use marlo_scheduling.Prelude.{
  ℕ, ◌-◌, Bool, true, false, not, ◌&&◌, ◌||◌, Option, none, some, List, [], ◌∷◌, ◌++◌, leb, ◌==◌,
  if◌then◌else◌, any, find, map, put, is_key, length,
}
use marlo_scheduling.Rows.{
  Key, BookingRow, Interval, UnresolvedInsert, is_confirmed, overlaps, reap_max_per_request,
}
use marlo_scheduling.Google.{CalendarEvent, is_managed, is_busy_candidate}
use marlo_scheduling.Lifecycle.Errors.{no_availability}
use marlo_scheduling.Lifecycle.World.{Step, Context, pure, throw, catch, ◌>>=◌, ◌>>◌, on_calendar}
use marlo_scheduling.Lifecycle.Superseded.{retire_step}
use marlo_scheduling.Lifecycle.Reap.{read_row, remove_event, select_listed_batch}

pub record ReapCandidate : Type 0 where
  pub booking_id : Key
  pub host_id : Key
  pub event_id : Key
  pub etag : Key
  pub attempt_id : Option Key

pub record ClassifiedBusy : Type 0 where
  pub busy : List Interval
  pub reap_candidates : List ReapCandidate

unfoldable pub is_retired_id : BookingRow → Key → Bool
is_retired_id row event_id =
    if is_confirmed row.status && is_key row.google_event_id event_id
    then false
    else any (λ (entry : UnresolvedInsert). entry.event_id == event_id) row.unresolved_inserts

unfoldable pub accounts_for : BookingRow → Interval → Bool
accounts_for row interval =
    ((row.start == interval.start) && (row.end == interval.end))
    || (is_key row.reserved_start interval.start && is_key row.reserved_end interval.end)

-- What the loop of `classifyBusy` does with one item.
pub data ItemClass : Type 0 where
  not_busy : ItemClass
  is_busy : ItemClass
  retired_busy : BookingRow → ItemClass

abbrev interval_of_event : CalendarEvent → Interval
interval_of_event item = record { start = item.start; end = item.end }

unfoldable pub classify_managed : CalendarEvent → Option Key → Option BookingRow → ItemClass
unfolding is_retired_id accounts_for
classify_managed item exclude none = is_busy
classify_managed item exclude (some row) =
    if is_retired_id row item.id
    then retired_busy row
    else if is_key exclude row.id
    then not_busy
    else if not (is_confirmed row.status)
    then is_busy
    else if accounts_for row (interval_of_event item)
    then not_busy
    else is_busy

abbrev pub booking_id_of : CalendarEvent → Key
booking_id_of item = elim item.marlo_booking_id [ none ↦ 0 | some id ↦ id ]

unfoldable pub classify_item : (Key → Option BookingRow) → Option Key → CalendarEvent → ItemClass
unfolding classify_managed
classify_item resolve exclude item =
    if not (is_busy_candidate item)
    then not_busy
    else if not (is_managed item)
    then is_busy
    else classify_managed item exclude (resolve (booking_id_of item))

abbrev candidate_of : CalendarEvent → BookingRow → ReapCandidate
candidate_of item row = record {
  booking_id = row.id;
  host_id = row.host_id;
  event_id = item.id;
  etag = item.etag;
  attempt_id = item.marlo_attempt_id;
}

abbrev add_item : CalendarEvent → ItemClass → ClassifiedBusy → ClassifiedBusy
add_item item not_busy rest = rest
add_item item is_busy rest = record rest { busy = interval_of_event item ∷ rest.busy }
add_item item (retired_busy row) rest = record {
  busy = interval_of_event item ∷ rest.busy;
  reap_candidates = candidate_of item row ∷ rest.reap_candidates;
}

unfoldable pub classify_busy :
    List CalendarEvent → (Key → Option BookingRow) → Option Key → ClassifiedBusy
unfolding classify_item
classify_busy [] resolve exclude = record { busy = []; reap_candidates = [] }
classify_busy (item ∷ items) resolve exclude =
    add_item item (classify_item resolve exclude item) (classify_busy items resolve exclude)

unfoldable pub busy_overlaps : Interval → List Interval → Bool
unfolding overlaps
busy_overlaps window busy = any (λ (interval : Interval). overlaps interval window) busy

-- The `Map` of the rows that were read, by booking id.
pub record ReadRow : Type 0 where
  pub booking_id : Key
  pub row : Option BookingRow

abbrev of_booking : Key → ReadRow → Bool
of_booking id entry = entry.booking_id == id

abbrev pub resolve_in : List ReadRow → Key → Option BookingRow
resolve_in rows id = elim (find (of_booking id) rows) [ none ↦ none | some entry ↦ entry.row ]

-- The reap candidates of one row, in the order of the listed items.
pub record RowGroup : Type 0 where
  pub booking_id : Key
  pub candidates : List ReapCandidate

abbrev group_of : Key → RowGroup → Bool
group_of id group = group.booking_id == id

abbrev group_with : List RowGroup → ReapCandidate → List RowGroup
group_with groups candidate = elim (find (group_of candidate.booking_id) groups) [
  | none ↦ groups ++ record { booking_id = candidate.booking_id; candidates = candidate ∷ [] } ∷ []
  | some group ↦
      put (group_of candidate.booking_id)
        (record group { candidates = group.candidates ++ candidate ∷ [] }) groups
]

unfoldable pub by_row : List RowGroup → List ReapCandidate → List RowGroup
by_row groups [] = groups
by_row groups (candidate ∷ rest) = by_row (group_with groups candidate) rest

-- The candidates of a group that a batch names, in the order of the batch.
unfoldable pub pick : List ReapCandidate → List Key → List ReapCandidate
pick candidates [] = []
pick candidates (event_id ∷ rest) =
    let others = pick candidates rest in
    elim (find (λ (c : ReapCandidate). c.event_id == event_id) candidates) [
      | none ↦ others
      | some c ↦ c ∷ others
    ]

module _ {C : Type 0} where
  unfoldable pub choose : ℕ → List ReapCandidate → List RowGroup → Step C (List ReapCandidate)
  unfolding pick
  choose max chosen [] = pure chosen
  choose max chosen (group ∷ rest) = elim (leb max (length chosen)) [
    | true ↦ pure chosen
    | false ↦
        select_listed_batch group.booking_id
          (map (λ (c : ReapCandidate). c.event_id) group.candidates) (max - length chosen)
        >>= λ batch. choose max (chosen ++ pick group.candidates batch) rest
  ]

  abbrev pub after_removal : ReapCandidate → List Key → Step C (List Key)
  after_removal candidate deleted = elim candidate.attempt_id [
    | none ↦ pure (deleted ++ candidate.event_id ∷ [])
    | some attempt_id ↦ do
      retire_step candidate.booking_id attempt_id
      pure (deleted ++ candidate.event_id ∷ [])
  ]

  -- The loop over the chosen candidates; a refused delete is left for the next observing call.
  unfoldable pub remove_chosen : Context C → List Key → List ReapCandidate → Step C (List Key)
  remove_chosen ctx deleted [] = pure deleted
  remove_chosen ctx deleted (candidate ∷ rest) = do
    removed ←
        catch (do remove_event ctx candidate.event_id candidate.etag; pure true) (λ e. pure false)
    next ← (if removed then after_removal candidate deleted else pure deleted)
    remove_chosen ctx next rest

  unfoldable pub reap_listed_items : Context C → List ReapCandidate → ℕ → Step C (List Key)
  unfolding by_row choose remove_chosen
  reap_listed_items ctx candidates max = do
    chosen ← choose max [] (by_row [] candidates)
    remove_chosen ctx [] chosen

  unfoldable pub read_rows : List ReadRow → List CalendarEvent → Step C (List ReadRow)
  read_rows rows [] = pure rows
  read_rows rows (item ∷ items) =
      if is_managed item
        && elim (find (of_booking (booking_id_of item)) rows) [ none ↦ true | some entry ↦ false ]
      then (do
        row ← read_row (booking_id_of item)
        read_rows (rows ++ record { booking_id = booking_id_of item; row = row } ∷ []) items)
      else read_rows rows items

  -- Every failure of the read is answered as an unknown availability.
  unfoldable pub external_busy : Context C → Interval → Option Key → Step C (List Interval)
  unfolding read_rows classify_busy reap_listed_items
  external_busy ctx window exclude = do
    items ←
        catch
          (on_calendar (
            ctx.client.list (record {
              calendar_id = ctx.calendar_id;
              time_min = window.start;
              time_max = window.end;
            })))
          (λ e. throw no_availability)
    rows ← read_rows [] items
    reap_listed_items ctx (classify_busy items (resolve_in rows) exclude).reap_candidates
        reap_max_per_request
    pure (classify_busy items (resolve_in rows) exclude).busy
