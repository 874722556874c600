-- ===== src/Tests/Store.antt =====
-- Runs of lib/booking/memory-store.ts.
use marlo_scheduling.Prelude.{◌<◌, ◌≡◌, ◌↔◌, refl, arith, true, false, none, some, In, is_key}
use marlo_scheduling.Rows.{BookingRow, Interval, overlaps}
use marlo_scheduling.Store.{
  MemoryBookingStore, OccupancyQuery, ok, locked, get_by_id, take_over, append_attempt, update,
  claim_delivery, finalize_delivery, occupancy_sync, sent, failed,
}
use marlo_scheduling.Store.Claims.{
  ClaimedRow, generation_at, claim_delivery-granted, claim_delivery-exclusive,
  finalize_delivery-fenced, finalize_delivery-settles,
}
use marlo_scheduling.Store.Fences.{one_call, renewed, owned_update, take_over-fences}
use marlo_scheduling.Store.Occupancy.{Occupies, occupancy_sync-exact}
use marlo_scheduling.Lifecycle.Create.T2.{empty_patch}
use marlo_scheduling.Tests.Data.{attempt_a, op_a, row_a, empty_store, store_with, delivery_a}

abbrev first_claim : MemoryBookingStore
first_claim = (claim_delivery empty_store delivery_a 5_000).1

claim_delivery-granted_example :
    ClaimedRow first_claim delivery_a 5_000 1 × (generation_at empty_store delivery_a < 1)
claim_delivery-granted_example =
    claim_delivery-granted empty_store delivery_a 5_000 1 (unfold claim_delivery in refl)

claim_delivery-exclusive_example :
    claim_delivery first_claim delivery_a 125_000 ≡ (none, first_claim)
claim_delivery-exclusive_example =
    claim_delivery-exclusive empty_store delivery_a 5_000 125_000 1 (unfold claim_delivery in refl)
      (omega arith)

finalize_delivery-fenced_example :
    let second = (claim_delivery first_claim delivery_a 125_001).1 in
    (1 < 2)
    × (finalize_delivery second delivery_a 1 sent ≡ (false, second))
    × ((finalize_delivery second delivery_a 2 sent).0 ≡ true)
finalize_delivery-fenced_example =
    finalize_delivery-fenced empty_store delivery_a 5_000 125_001 1 2 sent
      (unfold claim_delivery in refl) (unfold claim_delivery in refl)

finalize_delivery-settles_example :
    let done = (finalize_delivery first_claim delivery_a 1 sent).1 in
    let refused = (finalize_delivery first_claim delivery_a 1 failed).1 in
    (claim_delivery done delivery_a 900_000 ≡ (none, done))
    × ((claim_delivery refused delivery_a 900_000).0 ≡ some 2)
finalize_delivery-settles_example =
    finalize_delivery-settles empty_store delivery_a 5_000 900_000 1 (unfold claim_delivery in refl)

take_over-fences_example :
    let after = (locked (one_call (take_over 7 30 1 200_000)) (store_with row_a)).1 in
    (get_by_id after 7 ≡ some (renewed row_a op_a 2 200_000))
    × (locked (one_call (append_attempt 7 30 1 attempt_a)) after ≡ (ok false, after))
    × (locked (one_call (update (owned_update 7 30 1 1 true empty_patch))) after
        ≡ (ok false, after))
    × (locked (one_call (take_over 7 30 1 201_000)) after ≡ (ok false, after))
take_over-fences_example =
    take_over-fences (store_with row_a) row_a op_a 7 200_000 201_000 attempt_a 1 true empty_patch
      (unfold get_by_id in refl) refl

abbrev half_hour : OccupancyQuery
half_hour = record {
  host_id = 5;
  window = record { start = 11_000_000; end = 12_000_000 };
  exclude_booking_id = none;
}

abbrev booked : Interval
booked = record { start = 10_000_000; end = 11_800_000 }

occupancy_sync-exact_example : In booked (occupancy_sync (store_with row_a) half_hour) ↔ (
    (row : BookingRow) × In row (store_with row_a).rows
    × (row.host_id ≡ 5)
    × (is_key none row.id ≡ false)
    × Occupies row booked
    × (overlaps booked half_hour.window ≡ true))
occupancy_sync-exact_example = occupancy_sync-exact (store_with row_a) half_hour booked
