-- ===== src/Lifecycle/Create/Types.antt =====
-- lib/booking/create.ts: the request, the collaborators and the outcome of a create. The fixed text
-- of the request's start is its instant; the fingerprint's hash is a function of what it hashes.
use marlo_scheduling.Prelude.{ℕ, ◌+◌, ◌*◌, Bool, Option}
use marlo_scheduling.Rows.{
  Key, Instant, BookingRow, PendingOp, Interval, RejectionReason, slot_unavailable, session_full,
}
use marlo_scheduling.Store.{Result}
use marlo_scheduling.Lifecycle.Errors.{Failure, LifecycleError, error_of}
use marlo_scheduling.Lifecycle.Errors
use marlo_scheduling.Lifecycle.World.{Step, Context}
use marlo_scheduling.Lifecycle.Envelope.{BookingEnvelope, EnvelopeMeta}

pub record CreateBookingRequest : Type 0 where
  pub owner_id : Key
  pub host_id : Key
  pub event_type_id : Key
  pub event_name : Key
  pub duration_minutes : ℕ
  pub start : Instant
  pub invitee_name : Key
  pub invitee_email : Key
  pub notes : Option Key
  pub metadata : Key
  pub idempotency_key : Key

pub record CreateOutcome : Type 0 where
  pub envelope : BookingEnvelope
  pub row : BookingRow
  pub replayed : Bool

-- `gate` is the call of `gateNewSubmission`, `on_finalize` the hook that runs inside T2 and may
-- throw, `fingerprint` the hash of an event type, a start and an invitee's address.
pub record CreateDeps (C : Type 0) : Type 0 where
  pub ctx : Context C
  pub meta : EnvelopeMeta
  pub notify : BookingRow → Step C (Unit {0})
  pub gate : Step C (Option RejectionReason)
  pub on_finalize : BookingRow → Result Failure (Unit {0})
  pub fingerprint : Key → Instant → Key → Key

pub data T1Result : Type 0 where
  inserted : BookingRow → PendingOp → Key → T1Result
  existing : BookingRow → T1Result
  rejected : RejectionReason → T1Result
  fenced : RejectionReason → T1Result
  failed : T1Result

unfoldable pub interval_of : CreateBookingRequest → Interval
interval_of request = record {
  start = request.start;
  end = request.start + request.duration_minutes * 60_000;
}

unfoldable pub rejection_error : RejectionReason → LifecycleError
unfolding error_of
rejection_error slot_unavailable = error_of Errors.slot_unavailable
rejection_error session_full = error_of Errors.session_full

abbrev pub fingerprint_of : {C : Type 0} → CreateDeps C → CreateBookingRequest → Key
fingerprint_of deps request =
    deps.fingerprint request.event_type_id request.start request.invitee_email
