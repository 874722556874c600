-- ===== src/Store/Occupancy.antt =====
-- What `occupancySync` of lib/booking/memory-store.ts reports.
use marlo_scheduling.Prelude.{
  ◌≡◌, ◌↔◌, ◌⊎◌, true, false, some, arith, In, In-flat_map, flat_map-In, is_key,
}
use marlo_scheduling.Rows.{BookingRow, Interval, confirmed, overlaps}
use marlo_scheduling.Store.{MemoryBookingStore, OccupancyQuery, row_busy, occupancy_sync}

-- The interval is the row's own while it is confirmed, or its durable reservation.
unfoldable pub Occupies : BookingRow → Interval → Type 0
Occupies row i =
    ((row.status ≡ confirmed) × (i.start ≡ row.start) × (i.end ≡ row.end))
    ⊎ ((row.reserved_start ≡ some i.start) × (row.reserved_end ≡ some i.end))

In-row_busy :
    (query : OccupancyQuery) (row : BookingRow) (i : Interval)
    → In i (row_busy query row) ↔ (
        (row.host_id ≡ query.host_id)
        × (is_key query.exclude_booking_id row.id ≡ false)
        × Occupies row i
        × (overlaps i query.window ≡ true))
unfolding row_busy Occupies
In-row_busy query row i = ground arith

-- The occupancy of a host in a window is exactly the intervals that its rows occupy and that
-- overlap the window: the interval of each confirmed row and each durable reservation, of every
-- row but the excluded one.
pub occupancy_sync-exact :
    (store : MemoryBookingStore) (query : OccupancyQuery) (i : Interval)
    → In i (occupancy_sync store query) ↔ (
        (row : BookingRow) × In row store.rows
        × (row.host_id ≡ query.host_id)
        × (is_key query.exclude_booking_id row.id ≡ false)
        × Occupies row i
        × (overlaps i query.window ≡ true))
unfolding occupancy_sync
occupancy_sync-exact store query i = (
  λ h.
      let (row, m, k) = flat_map-In (row_busy query) i store.rows h in
      let b = (In-row_busy query row i).0 k in (row, m, b.0, b.1, b.2, b.3),
  λ t.
      In-flat_map (row_busy query) t.0 i store.rows t.1
        ((In-row_busy query t.0 i).1 (t.2, t.3, t.4, t.5)),
)
