-- ===== src/Notify.antt =====
-- lib/notify/ledger.ts: the summary of the deliveries of a booking's revision. `claim` and
-- `finalize` of that file pass their arguments on to the store.
pub mod Summary
use marlo_scheduling.Prelude.{
  ℕ, Bool, true, false, ◌&&◌, Option, none, some, List, [], ◌∷◌, any, filter, map, if◌then◌else◌,
}
use marlo_scheduling.Rows.{Key, LatestAction}
use marlo_scheduling.Store.{
  MemoryBookingStore, DeliveryRow, DeliveryRecipient, DeliveryState, invitee, owner, claimed, sent,
  failed, same_recipient, delivery_rows,
}

pub data DeliverySummary : Type 0 where
  summary_sent summary_failed summary_pending : DeliverySummary

abbrev pub required_recipients : List DeliveryRecipient
required_recipients = invitee ∷ owner ∷ []

abbrev pub is_failed : DeliveryState → Bool
is_failed failed = true
is_failed _ = false

abbrev pub is_sent : DeliveryState → Bool
is_sent sent = true
is_sent _ = false

abbrev pub every : {A : Type 0} → (A → Bool) → List A → Bool
every p [] = true
every p (x ∷ xs) = p x && every p xs

-- `sent.has(recipient)`
unfoldable pub has_sent : List DeliveryRow → DeliveryRecipient → Bool
has_sent rows recipient =
    any (λ (row : DeliveryRow). is_sent row.state && same_recipient row.recipient recipient) rows

unfoldable pub summarize_delivery : List DeliveryRow → List DeliveryRecipient → DeliverySummary
unfolding has_sent
summarize_delivery rows required =
    if any (λ (row : DeliveryRow). is_failed row.state) rows
    then summary_failed
    else if every (has_sent rows) required
    then summary_sent
    else summary_pending

unfoldable pub delivery_summary_for :
    MemoryBookingStore → Key → ℕ → Option LatestAction → DeliverySummary
unfolding summarize_delivery delivery_rows
delivery_summary_for store booking_id revision none = summary_pending
delivery_summary_for store booking_id revision (some action) =
    summarize_delivery (delivery_rows store booking_id revision action) required_recipients
