-- ===== src/Google/Errors.antt =====
-- lib/google/errors.ts: what a thrown value of a Google call proves. A status is a natural number;
-- `thrown_other` is every other value, such as a timeout, a socket error or a malformed body.
use marlo_scheduling.Prelude.{
  ℕ, Bool, true, false, ◌&&◌, ◌||◌, Option, none, some, leb, ◌==◌, if◌then◌else◌,
}

pub data CalendarOutcomeClass : Type 0 where
  class_applied class_definite class_already_exists class_precondition_failed class_ambiguous :
      CalendarOutcomeClass

pub data Thrown : Type 0 where
  thrown_status : ℕ → Thrown
  thrown_host_not_connected : Thrown
  thrown_calendar_error : CalendarOutcomeClass → Option ℕ → Thrown
  thrown_other : Thrown

abbrev pub status_of : Thrown → Option ℕ
status_of (thrown_status n) = some n
status_of (thrown_calendar_error outcome status) = status
status_of _ = none

unfoldable pub classify_status : ℕ → CalendarOutcomeClass
classify_status status =
    if (status == 200) || (status == 201) || (status == 202) || (status == 204)
    then class_applied
    else if status == 409
    then class_already_exists
    else if status == 412
    then class_precondition_failed
    else if status == 429
    then class_ambiguous
    else if leb 400 status && leb status 499
    then class_definite
    else class_ambiguous

abbrev classify_value : Thrown → CalendarOutcomeClass
classify_value thrown_host_not_connected = class_definite
classify_value (thrown_calendar_error outcome status) = outcome
classify_value _ = class_ambiguous

unfoldable pub classify_calendar_error : Thrown → CalendarOutcomeClass
unfolding classify_status
classify_calendar_error thrown = elim (status_of thrown) [
  | some status ↦ classify_status status
  | none ↦ classify_value thrown
]

unfoldable pub is_absence_status : Thrown → Bool
is_absence_status thrown = elim (status_of thrown) [
  | none ↦ false
  | some status ↦ (status == 404) || (status == 410)
]

abbrev pub is_definite : CalendarOutcomeClass → Bool
is_definite class_definite = true
is_definite _ = false

-- `classifyGmailError` is `classifyCalendarError`.
unfoldable pub is_definite_refusal : Thrown → Bool
unfolding classify_calendar_error
is_definite_refusal thrown = is_definite (classify_calendar_error thrown)
