-- ===== src/Slots.antt =====
-- lib/availability/slots.ts: the starts that a grid offers. The windows of a schedule or of a
-- one-off meeting are given: their expansion from dates and time zones is not modelled.
pub mod Offered
use marlo_scheduling.Prelude.{
  ℕ, suc, zero, ◌+◌, ◌-◌, ◌*◌, Bool, not, ◌&&◌, ◌||◌, List, [], ◌∷◌, ◌++◌, leb, ltb, ◌==◌, any,
  filter, if◌then◌else◌,
}
use marlo_scheduling.Rows.{Interval}
use marlo_scheduling.Store.{Result, ok, err}

pub data SlotsError : Type 0 where
  invalid_range invalid_increment : SlotsError

pub record Grid : Type 0 where
  pub duration_ms : ℕ
  pub increment_ms : ℕ
  pub time_min : ℕ
  pub time_max : ℕ
  pub busy : List Interval

unfoldable pub overlaps_busy : ℕ → ℕ → List Interval → Bool
overlaps_busy start end busy = any (λ (b : Interval). ltb start b.end && ltb b.start end) busy

-- The two tests of the loop's body; a start that fails one is passed over.
unfoldable pub is_offered : Grid → ℕ → Bool
unfolding overlaps_busy
is_offered grid start =
    leb grid.time_min start
    && leb (start + grid.duration_ms) grid.time_max
    && not (overlaps_busy start (start + grid.duration_ms) grid.busy)

-- The inner loop, on fuel.
unfoldable pub step_loop : Grid → ℕ → ℕ → ℕ → List ℕ
unfolding is_offered
step_loop grid end zero start = []
step_loop grid end (suc fuel) start =
    let rest = step_loop grid end fuel (start + grid.increment_ms) in
    if leb (start + grid.duration_ms) end
    then (if is_offered grid start then start ∷ rest else rest)
    else []

-- Each round of the loop moves the start by at least 1, so this fuel is enough.
unfoldable pub window_starts : Grid → Interval → List ℕ
unfolding step_loop
window_starts grid window = step_loop grid window.end (suc (window.end - window.start)) window.start

unfoldable pub all_starts : Grid → List Interval → List ℕ
unfolding window_starts
all_starts grid [] = []
all_starts grid (window ∷ rest) = window_starts grid window ++ all_starts grid rest

unfoldable pub list_available_times : Grid → List Interval → Result SlotsError (List ℕ)
unfolding all_starts
list_available_times grid windows =
    if leb grid.time_max grid.time_min
    then err invalid_range
    else if grid.increment_ms == 0
    then err invalid_increment
    else ok (all_starts grid windows)
