-- ===== src/Lifecycle/Errors.antt =====
-- lib/booking/errors.ts: the error codes of the lifecycle, each with its status.
use marlo_scheduling.Prelude.{ℕ, Bool, true, false, Option, none, some}
use marlo_scheduling.Rows.{Key, Instant, BookingRowStatus, LatestAction}
use marlo_scheduling.Google.{Thrown}

pub data ErrorCode : Type 0 where
  slot_unavailable session_full booking_changed operation_in_progress operation_superseded
        stale_revision idempotency_key_required idempotency_key_reused notify_request_invalid
        availability_unknown booking_outcome_unknown calendar_patch_failed calendar_delete_failed
        reschedule_failed repair_failed booking_failed token_required booking_not_found
        owner_not_found owner_required event_type_not_found links_not_supported group_not_supported
        collective_not_supported store_not_migrated :
      ErrorCode

-- The booking in a response body: `bookingBody` of lib/booking/envelope.ts.
pub record PublicBookingBody : Type 0 where
  pub id : Key
  pub token : Key
  pub owner_slug : Key
  pub event_slug : Key
  pub event_type_id : Key
  pub start : Instant
  pub end : Instant
  pub status : BookingRowStatus
  pub revision : ℕ
  pub host_first_name : Key
  pub invitee_name : Key
  pub invitee_email : Key
  pub rescheduled_from : Option Instant
  pub notes : Option Key

-- `retry_after_seconds`, `booking` and `pair` are the members that the body may have.
pub record LifecycleError : Type 0 where
  pub code : ErrorCode
  pub status : ℕ
  pub retry_after_seconds : Option ℕ
  pub booking : Option PublicBookingBody
  pub pair : Option (ℕ × Option LatestAction)

-- The status that each class of the file passes to its base class. No class of the file has the
-- code `store_not_migrated`; 0 stands for its missing status.
unfoldable pub status_of_code : ErrorCode → ℕ
status_of_code slot_unavailable = 409
status_of_code session_full = 409
status_of_code booking_changed = 409
status_of_code operation_in_progress = 409
status_of_code operation_superseded = 409
status_of_code stale_revision = 409
status_of_code idempotency_key_required = 400
status_of_code idempotency_key_reused = 422
status_of_code notify_request_invalid = 400
status_of_code availability_unknown = 503
status_of_code booking_outcome_unknown = 503
status_of_code calendar_patch_failed = 502
status_of_code calendar_delete_failed = 502
status_of_code reschedule_failed = 500
status_of_code repair_failed = 500
status_of_code booking_failed = 500
status_of_code token_required = 401
status_of_code booking_not_found = 404
status_of_code owner_not_found = 404
status_of_code owner_required = 404
status_of_code event_type_not_found = 404
status_of_code links_not_supported = 501
status_of_code group_not_supported = 501
status_of_code collective_not_supported = 501
status_of_code store_not_migrated = 0

unfoldable pub error_of : ErrorCode → LifecycleError
unfolding status_of_code
error_of code = record {
  code = code;
  status = status_of_code code;
  retry_after_seconds = none;
  booking = none;
  pair = none;
}

unfoldable pub in_progress : ℕ → LifecycleError
unfolding error_of
in_progress seconds = record (error_of operation_in_progress) { retry_after_seconds = some seconds }

unfoldable pub outcome_unknown : LifecycleError
unfolding error_of
outcome_unknown = record (error_of booking_outcome_unknown) { retry_after_seconds = some 5 }

unfoldable pub superseded_by : Option PublicBookingBody → LifecycleError
unfolding error_of
superseded_by booking = record (error_of operation_superseded) { booking = booking }

unfoldable pub is_terminal_for_key : ErrorCode → Bool
is_terminal_for_key slot_unavailable = true
is_terminal_for_key session_full = true
is_terminal_for_key idempotency_key_required = true
is_terminal_for_key idempotency_key_reused = true
is_terminal_for_key _ = false

-- What a lifecycle step can throw.
pub data Failure : Type 0 where
  lifecycle : LifecycleError → Failure
  calendar : Thrown → Failure
  no_availability : Failure
  unknown_commit : Failure
  outcome_unresolved : Failure
  superseded_worker : Failure
  broken : Failure
