-- ===== src/Store/Types.antt =====
-- lib/booking/store.ts: the types of the store's interface, and the state of the memory store.
-- A `Map` whose key is a text joined with NUL characters has the parts of that text as its key; an
-- absent field of a patch is `none`, and `null` is `some none`.
use marlo_scheduling.Prelude.{ℕ, Bool, Option, List}
use marlo_scheduling.Rows.{
  Key, Instant, Attempt, PendingOp, UnresolvedInsert, UnfinishedCreate, BookingRow, CalendarState,
  LatestAction, RejectionReason, AttemptOutcome, Interval,
}

pub data DeliveryRecipient : Type 0 where
  invitee owner : DeliveryRecipient

pub data DeliveryState : Type 0 where
  claimed sent failed : DeliveryState

pub record DeliveryRow : Type 0 where
  pub booking_id : Key
  pub revision : ℕ
  pub action : LatestAction
  pub recipient : DeliveryRecipient
  pub state : DeliveryState
  pub claimed_at : Instant
  pub attempts : ℕ

-- The four columns that identify a delivery row.
pub record DeliveryKey : Type 0 where
  pub booking_id : Key
  pub revision : ℕ
  pub action : LatestAction
  pub recipient : DeliveryRecipient

pub record NewBookingRow : Type 0 where
  pub id : Key
  pub token : Key
  pub idempotency_key : Key
  pub create_fingerprint : Key
  pub owner_id : Key
  pub event_type_id : Key
  pub host_id : Key
  pub start : Instant
  pub end : Instant
  pub google_event_id : Key
  pub pending_op : PendingOp
  pub invitee_name : Key
  pub invitee_email : Key
  pub notes : Option Key
  pub metadata : Key
  pub created_at : Instant

-- `cancels` is the presence of `status: 'cancelled'`, the one status that a patch can write.
pub record RowPatch : Type 0 where
  pub start : Option Instant
  pub end : Option Instant
  pub cancels : Bool
  pub latest_action : Option LatestAction
  pub calendar_state : Option CalendarState
  pub google_event_id : Option Key
  pub google_event_etag : Option (Option Key)
  pub rescheduled_from : Option (Option Instant)
  pub reserved_start : Option (Option Instant)
  pub reserved_end : Option (Option Instant)
  pub pending_op : Option (Option PendingOp)
  pub unfinished_create : Option (Option UnfinishedCreate)
  pub unresolved_inserts : Option (List UnresolvedInsert)
  pub bump_revision : Bool

pub record OwnedUpdate : Type 0 where
  pub id : Key
  pub expected_revision : ℕ
  pub require_confirmed : Bool
  pub op_id : Option Key
  pub gen : Option ℕ
  pub patch : RowPatch

pub record OccupancyQuery : Type 0 where
  pub host_id : Key
  pub window : Interval
  pub exclude_booking_id : Option Key

pub record TokenEntry : Type 0 where
  pub token : Key
  pub id : Key

pub record IdempotencyEntry : Type 0 where
  pub owner_id : Key
  pub idempotency_key : Key
  pub id : Key

pub record FenceEntry : Type 0 where
  pub owner_id : Key
  pub idempotency_key : Key
  pub create_fingerprint : Key
  pub reason : RejectionReason

-- The rows are in the order of insertion and each stands under its own id. The mutexes have no
-- field: a locked transaction is one step of the model.
pub record MemoryBookingStore : Type 0 where
  pub rows : List BookingRow
  pub by_token : List TokenEntry
  pub by_idempotency_key : List IdempotencyEntry
  pub rejected_keys : List FenceEntry
  pub deliveries : List DeliveryRow
  pub lock_unavailable : Bool

-- The deferred writes of a transaction, one constructor for each method that queues one.
pub data Write : Type 0 where
  set_rejection : FenceEntry → Write
  set_booking : BookingRow → Write
  patch_row : Key → RowPatch → Write
  renew_op : Key → Key → ℕ → Instant → Write
  push_attempt : Key → Key → Attempt → Write
  settle_attempt : Key → Key → AttemptOutcome → Instant → Write

pub record MemoryTx : Type 0 where
  pub store : MemoryBookingStore
  pub writes : List Write
