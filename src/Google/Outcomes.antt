-- ===== src/Google/Outcomes.antt =====
-- What the classification of lib/google/errors.ts says of a status.
use marlo_scheduling.Prelude.{ℕ, ◌≤◌, ◌≡◌, ◌≢◌, ◌↔◌, ◌⊎◌, true, some, arith}
use marlo_scheduling.Google.{
  Thrown, status_of, classify_calendar_error, is_absence_status, class_definite,
}

-- A value that carries a status is a definite refusal exactly for the statuses 400 to 499 other
-- than 409, 412 and 429; so a rate limit, a server error and a success never are. It proves an
-- absence exactly for the statuses 404 and 410.
pub classify_calendar_error-definite :
    (thrown : Thrown) (status : ℕ)
    → status_of thrown ≡ some status
    → ((classify_calendar_error thrown ≡ class_definite)
        ↔ ((400 ≤ status) × (status ≤ 499) × (status ≢ 409) × (status ≢ 412) × (status ≢ 429)))
      × ((is_absence_status thrown ≡ true) ↔ ((status ≡ 404) ⊎ (status ≡ 410)))
unfolding classify_calendar_error is_absence_status
classify_calendar_error-definite thrown status e =
    rw (e, classify_calendar_error, is_absence_status) (ground arith)
