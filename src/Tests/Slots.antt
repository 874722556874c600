-- ===== src/Tests/Slots.antt =====
-- A run of lib/availability/slots.ts.
use marlo_scheduling.Prelude.{ℕ, ◌≡◌, ◌↔◌, List, [], ◌∷◌, In, arith}
use marlo_scheduling.Rows.{Interval}
use marlo_scheduling.Store.{ok}
use marlo_scheduling.Slots.{Grid, list_available_times}
use marlo_scheduling.Slots.Offered.{Fits, list_available_times-exact}

-- Half-hour meetings from 0:00 to 4:00, with a busy hour from 1:00.
abbrev half_hours : Grid
half_hours = record {
  duration_ms = 1_800_000;
  increment_ms = 1_800_000;
  time_min = 0;
  time_max = 14_400_000;
  busy = record { start = 3_600_000; end = 7_200_000 } ∷ [];
}

abbrev morning : List Interval
morning = record { start = 0; end = 9_000_000 } ∷ []

list_available_times-exact_example :
    (starts : List ℕ) × (list_available_times half_hours morning ≡ ok starts)
    × (In 7_200_000 starts
        ↔ ((window : Interval) × In window morning × Fits half_hours window 7_200_000))
list_available_times-exact_example =
    list_available_times-exact half_hours morning 7_200_000 (omega arith) (omega arith)
