-- ===== src/Lifecycle/Cancel/Types.antt =====
-- lib/booking/cancel.ts: the request, the collaborators and the outcome of a cancel, and the event
-- ids that an operation intends.
use marlo_scheduling.Prelude.{
  ℕ, not, Option, none, some, List, [], ◌∷◌, ◌++◌, ◌==◌, if◌then◌else◌, any, filter, either_of,
  is_key,
}
use marlo_scheduling.Rows.{Key, BookingRow, PendingOp}
use marlo_scheduling.Lifecycle.World.{Step, Context}
use marlo_scheduling.Lifecycle.Envelope.{BookingEnvelope, EnvelopeMeta}

pub record CancelRequest : Type 0 where
  pub booking_id : Key
  pub expected_revision : ℕ

-- `complete_inherited` is the hook that the caller gives; `notify` sends the messages.
pub record CancelDeps (C : Type 0) : Type 0 where
  pub ctx : Context C
  pub meta : EnvelopeMeta
  pub notify : BookingRow → Step C (Unit {0})
  pub complete_inherited : BookingRow → PendingOp → Step C (Unit {0})

pub record CancelOutcome : Type 0 where
  pub envelope : BookingEnvelope
  pub row : BookingRow

-- `typeof id === 'string' && id !== ''`
abbrev pub string_id : Option Key → List Key
string_id none = []
string_id (some id) = if id == 0 then [] else id ∷ []

-- `[...new Set(ids)]`, given the ids seen so far.
unfoldable pub unique_ids : List Key → List Key → List Key
unique_ids seen [] = []
unique_ids seen (id ∷ rest) =
    let skip = unique_ids seen rest in
    let kept = unique_ids (id ∷ seen) rest in
    if any (λ (x : Key). x == id) seen then skip else id ∷ kept

-- The event that the booking has now: the one that the op replaces, else the row's.
abbrev pub live_id_of : PendingOp → BookingRow → Option Key
live_id_of op row = either_of op.old_event_id row.google_event_id

unfoldable pub intended_ids : PendingOp → BookingRow → List Key
unfolding unique_ids
intended_ids op row =
    unique_ids []
      (string_id op.event_id ++ string_id op.fallback_event_id ++ string_id (live_id_of op row))

-- The ids that a cancel inherited, without the live one, which it deletes itself.
unfoldable pub inherited_intended_ids : PendingOp → BookingRow → List Key
inherited_intended_ids op row =
    filter (λ (id : Key). not (is_key (live_id_of op row) id))
      (string_id op.event_id ++ string_id op.fallback_event_id)
