-- ===== src/Slots/Offered.antt =====
-- lib/availability/slots.ts: exactly which starts are offered.
use marlo_scheduling.Prelude.{
  ℕ, suc, zero, ◌+◌, ◌-◌, ◌*◌, ◌≤◌, ◌<◌, ◌≡◌, ◌↔◌, ◌⊎◌, refl, sym, subst, inl, inr, true, false,
  List, [], ◌∷◌, arith, leb, In, Bool-cases, In-append, All, All-In, All-intro, In-append_left,
  In-append_right, any-In, any-witness, ltb, ◌&&◌, false,
}
use marlo_scheduling.Rows.{Interval}
use marlo_scheduling.Store.{ok}
use marlo_scheduling.Slots.{
  Grid, overlaps_busy, is_offered, step_loop, window_starts, all_starts, list_available_times,
}

-- The loop over the window reaches the start and offers it.
pub record Reached (grid : Grid) (window : Interval) (start : ℕ) : Type 0 where
  pub steps : ℕ
  pub on_grid : start ≡ window.start + steps * grid.increment_ms
  pub inside : start + grid.duration_ms ≤ window.end
  pub offered : is_offered grid start ≡ true

module _ (grid : Grid) (end : ℕ) where
  abbrev At : ℕ → ℕ → Type 0
  At from t = Reached grid (record { start = from; end = end }) t

  next : (from t : ℕ) → At (from + grid.increment_ms) t → At from t
  next from t f = record {
    steps = suc f.steps;
    on_grid = grind arith;
    inside = f.inside;
    offered = f.offered;
  }

  here : (from : ℕ) → from + grid.duration_ms ≤ end → is_offered grid from ≡ true → At from from
  here from e o = record { steps = 0; on_grid = grind arith; inside = e; offered = o }

  step_loop_sound : (fuel from t : ℕ) → In t (step_loop grid end fuel from) → At from t
  unfolding step_loop
  step_loop_sound zero from t h = elim h [ ]
  step_loop_sound (suc fuel) from t h = elim (Bool-cases (leb (from + grid.duration_ms) end)) [
    | inr f ↦ absurd (rw (f, step_loop) at h)
    | inl e ↦ elim (Bool-cases (is_offered grid from)) [
      | inr o ↦
          next from t
            (step_loop_sound fuel (from + grid.increment_ms) t (rw (e, o, step_loop) at h))
      | inl o ↦
          elim (first from (step_loop grid end fuel (from + grid.increment_ms)) t
            (rw (e, o, step_loop) at h)) [
              | inl p ↦ subst (At from) p (here from (ground arith) o)
              | inr k ↦ next from t (step_loop_sound fuel (from + grid.increment_ms) t k)
            ]
    ]
  ]
    where
      first : (x : ℕ) (xs : List ℕ) (t : ℕ) → In t (x ∷ xs) → (x ≡ t) ⊎ In t xs
      first x xs t h = h

  below :
      (from steps t : ℕ)
      → t ≡ from + steps * grid.increment_ms
      → t + grid.duration_ms ≤ end
      → end < from
      → ⊥
  below from steps t e i out = grind arith

  step_loop_complete :
      (fuel from steps t : ℕ)
      → 1 ≤ grid.increment_ms
      → end < from + fuel
      → t ≡ from + steps * grid.increment_ms
      → t + grid.duration_ms ≤ end
      → is_offered grid t ≡ true
      → In t (step_loop grid end fuel from)
  unfolding step_loop
  step_loop_complete zero from steps t pos enough e i o =
      absurd (below from steps t e i (grind arith))
  step_loop_complete (suc fuel) from zero t pos enough e i o =
      let same : t ≡ from = grind arith in
      let fits : leb (from + grid.duration_ms) end ≡ true = ground arith in
      let offered : is_offered grid from ≡ true = rw same at o in
      rw (fits, offered, step_loop) (inl (sym same))
  step_loop_complete (suc fuel) from (suc steps) t pos enough e i o =
      let rest =
        step_loop_complete fuel (from + grid.increment_ms) steps t pos (omega arith) (grind arith) i
          o in
      let before : from ≤ t = grind arith in
      let fits : leb (from + grid.duration_ms) end ≡ true = ground arith in
      elim (Bool-cases (is_offered grid from)) [
        | inl offered ↦ rw (fits, offered, step_loop) (inr rest)
        | inr offered ↦ rw (fits, offered, step_loop) rest
      ]

-- The start is a whole number of increments into the window, the meeting lies within the window and
-- the range, and it overlaps no busy interval.
pub record Fits (grid : Grid) (window : Interval) (start : ℕ) : Type 0 where
  pub steps : ℕ
  pub on_grid : start ≡ window.start + steps * grid.increment_ms
  pub inside : start + grid.duration_ms ≤ window.end
  pub not_before : grid.time_min ≤ start
  pub not_after : start + grid.duration_ms ≤ grid.time_max
  pub is_free :
      All (λ (b : Interval). (b.end ≤ start) ⊎ (start + grid.duration_ms ≤ b.start)) grid.busy

free-busy :
    (start end : ℕ) (busy : List Interval)
    → (overlaps_busy start end busy ≡ false)
      ↔ ((b : Interval) → In b busy → (b.end ≤ start) ⊎ (end ≤ b.start))
unfolding overlaps_busy
free-busy start end busy = (
  λ h b m. elim (Bool-cases (ltb start b.end && ltb b.start end)) [
    | inr f ↦ ground arith
    | inl t ↦
        let hit = any-In (λ (x : Interval). ltb start x.end && ltb x.start end) b busy m t in cc
  ],
  λ h. elim (Bool-cases (overlaps_busy start end busy)) [
    | inr f ↦ f
    | inl t ↦
        let (b, m, hit) =
          any-witness (λ (x : Interval). ltb start x.end && ltb x.start end) busy t in
        let apart = h b m in ground arith
  ],
)

offered-tests :
    (grid : Grid) (start : ℕ)
    → (is_offered grid start ≡ true) ↔ (
        (grid.time_min ≤ start)
        × (start + grid.duration_ms ≤ grid.time_max)
        × (overlaps_busy start (start + grid.duration_ms) grid.busy ≡ false))
unfolding is_offered
offered-tests grid start = ground arith

Reached-Fits :
    (grid : Grid) (window : Interval) (t : ℕ) → Reached grid window t → Fits grid window t
Reached-Fits grid window t r =
    let (low, high, free) = (offered-tests grid t).0 r.offered in
    record {
      steps = r.steps;
      on_grid = r.on_grid;
      inside = r.inside;
      not_before = low;
      not_after = high;
      is_free = All-intro _ grid.busy ((free-busy t (t + grid.duration_ms) grid.busy).0 free);
    }

window_starts-Fits :
    (grid : Grid) (window : Interval) (t : ℕ)
    → 1 ≤ grid.increment_ms
    → In t (window_starts grid window) ↔ Fits grid window t
unfolding window_starts
window_starts-Fits grid window t step = (
  λ h.
      Reached-Fits grid window t
        (step_loop_sound grid window.end (suc (window.end - window.start)) window.start t h),
  λ f.
      step_loop_complete grid window.end (suc (window.end - window.start)) window.start f.steps t
        step (omega arith) f.on_grid f.inside
        ((offered-tests grid t).1 (
          f.not_before,
          f.not_after,
          (free-busy t (t + grid.duration_ms) grid.busy).1 (λ b m.
              All-In (λ (x : Interval). (x.end ≤ t) ⊎ (t + grid.duration_ms ≤ x.start)) b grid.busy
                f.is_free m),
        )),
)

all_starts-Fits :
    (grid : Grid) (windows : List Interval) (t : ℕ)
    → 1 ≤ grid.increment_ms
    → In t (all_starts grid windows) ↔ ((w : Interval) × In w windows × Fits grid w t)
unfolding all_starts
all_starts-Fits grid [] t step = (λ h. elim h [ ], λ h. elim h.1 [ ])
all_starts-Fits grid (w ∷ ws) t step = (
  λ h. elim (In-append t (window_starts grid w) (all_starts grid ws) h) [
    | inl k ↦ (w, inl refl, (window_starts-Fits grid w t step).0 k)
    | inr k ↦ let (v, m, f) = (all_starts-Fits grid ws t step).0 k in (v, inr m, f)
  ],
  λ (v, m, f). elim m [
    | inl e ↦
        In-append_left t (window_starts grid w) (all_starts grid ws)
          ((window_starts-Fits grid w t step).1 (rw e f))
    | inr k ↦
        In-append_right t (window_starts grid w) (all_starts grid ws)
          ((all_starts-Fits grid ws t step).1 (v, k, f))
  ],
)

-- With a proper range and increment listAvailableTimes returns a list of starts, and a start is on
-- it exactly when it is a whole number of increments into one of the windows, the meeting lies
-- within that window and the range, and it overlaps no busy interval.
pub list_available_times-exact :
    (grid : Grid) (windows : List Interval) (t : ℕ)
    → grid.time_min < grid.time_max
    → 1 ≤ grid.increment_ms
    → (starts : List ℕ) × (list_available_times grid windows ≡ ok starts)
      × (In t starts ↔ ((window : Interval) × In window windows × Fits grid window t))
unfolding list_available_times
list_available_times-exact grid windows t range step =
    (all_starts grid windows, ground arith, all_starts-Fits grid windows t step)
