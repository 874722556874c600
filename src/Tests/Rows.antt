-- ===== src/Tests/Rows.antt =====
-- Runs of lib/booking/rows.ts, lib/google/errors.ts and lib/notify/ledger.ts.
use marlo_scheduling.Prelude.{
  ℕ, ◌+◌, ◌-◌, ◌*◌, ◌≤◌, ◌≡◌, ◌≢◌, ◌↔◌, ◌⊎◌, refl, arith, true, false, List, [], ◌∷◌, find,
  find_last, either_of, In, is_key, length, inl, inr,
}
use mathlib.Core.List.{Perm}
use marlo_scheduling.Rows.{
  is_stale_op, retry_after_seconds, eligible_reap_ids, order_reap_candidates, select_reap_batch,
  retained_from, names_attempt, live_event_id,
}
use marlo_scheduling.Rows.Marks.{Before}
use marlo_scheduling.Rows.Fair.{IsFair, order_reap_candidates-IsFair, select_reap_batch-fair}
use marlo_scheduling.Rows.Eligible.{Names, Distinct, eligible_reap_ids-exact}
use marlo_scheduling.Rows.Retained.{Unrepeated, retained_attempt, retained_from-find}
use marlo_scheduling.Rows.Stale.{retry_after_seconds-exact}
use marlo_scheduling.Google.{
  Thrown, thrown_status, classify_calendar_error, is_absence_status, class_definite,
}
use marlo_scheduling.Google.Outcomes.{classify_calendar_error-definite}
use marlo_scheduling.Store.{invitee, owner, DeliveryRow}
use marlo_scheduling.Notify.{summarize_delivery, summary_sent, summary_failed, required_recipients}
use marlo_scheduling.Notify.Summary.{Failed, SentTo, summarize_delivery-exact}
use marlo_scheduling.Tests.Data.{op_a, row_a, retained_a, sent_to}

retry_after_seconds-exact_example :
    (1 ≤ retry_after_seconds op_a 31_500)
    × (retry_after_seconds op_a 31_500 ≤ 120)
    × (is_stale_op op_a (31_500 + (retry_after_seconds op_a 31_500 - 1) * 1_000) ≡ false)
    × (is_stale_op op_a (31_500 + retry_after_seconds op_a 31_500 * 1_000 + 1) ≡ true)
retry_after_seconds-exact_example =
    retry_after_seconds-exact op_a 31_500 (omega arith) (unfold is_stale_op in refl)

select_reap_batch-fair_example :
    (length (select_reap_batch row_a 1) ≤ 1)
    × In 51 (eligible_reap_ids row_a)
    × Before row_a.unresolved_inserts 51 52
select_reap_batch-fair_example =
    select_reap_batch-fair row_a 1 51 52 (unfold select_reap_batch in inl refl)
      (unfold eligible_reap_ids in inr (inl refl)) (unfold select_reap_batch in ground arith)

order_reap_candidates-IsFair_example :
    Perm (order_reap_candidates row_a (52 ∷ 51 ∷ [])) (52 ∷ 51 ∷ [])
    × IsFair row_a.unresolved_inserts (order_reap_candidates row_a (52 ∷ 51 ∷ []))
order_reap_candidates-IsFair_example = order_reap_candidates-IsFair row_a (52 ∷ 51 ∷ [])

retained_from-find_example :
    (find (names_attempt 40) (retained_from (retained_a ∷ []) op_a.attempts)
      ≡ either_of
          (find_last (names_attempt 40) (retained_a ∷ []))
          (retained_attempt 40 op_a.attempts))
    × Unrepeated (retained_from (retained_a ∷ []) op_a.attempts)
retained_from-find_example = retained_from-find 40 (retained_a ∷ []) op_a.attempts

eligible_reap_ids-exact_example :
    (In 51 (eligible_reap_ids row_a)
      ↔ (Names 51 row_a.unresolved_inserts × (is_key (live_event_id row_a) 51 ≡ false)))
    × Distinct (eligible_reap_ids row_a)
eligible_reap_ids-exact_example = eligible_reap_ids-exact row_a 51

abbrev gone : ℕ
gone = 410

abbrev gone_error : Thrown
gone_error = thrown_status 410

classify_calendar_error-definite_example :
    ((classify_calendar_error gone_error ≡ class_definite)
      ↔ ((400 ≤ gone) × (gone ≤ 499) × (gone ≢ 409) × (gone ≢ 412) × (gone ≢ 429)))
    × ((is_absence_status gone_error ≡ true) ↔ ((gone ≡ 404) ⊎ (gone ≡ 410)))
classify_calendar_error-definite_example = classify_calendar_error-definite gone_error gone refl

abbrev both_sent : List DeliveryRow
both_sent = sent_to invitee ∷ sent_to owner ∷ []

summarize_delivery-exact_example :
    ((summarize_delivery both_sent required_recipients ≡ summary_sent)
      ↔ ((¬ Failed both_sent) × SentTo both_sent invitee × SentTo both_sent owner))
    × ((summarize_delivery both_sent required_recipients ≡ summary_failed) ↔ Failed both_sent)
summarize_delivery-exact_example = summarize_delivery-exact both_sent
