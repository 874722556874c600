-- ===== src/Rows/Types.antt =====
-- The durable booking row: the types of lib/booking/rows.ts.
-- An identifier (a row's id, a token, an event id, an attempt id) is only compared, copied and, in
-- one place, ordered, so it is a number, `Key`; the empty string is the key 0. An instant is its
-- epoch milliseconds: every text that reaches a row went through `toISOString`.
use marlo_scheduling.Prelude.{ℕ, Option, List}

abbrev pub Key : Type 0
Key = ℕ

abbrev pub Instant : Type 0
Instant = ℕ

pub data BookingRowStatus : Type 0 where
  confirmed cancelled : BookingRowStatus

pub data CalendarState : Type 0 where
  pending created failed deleted : CalendarState

pub data LatestAction : Type 0 where
  confirm reschedule cancel : LatestAction

pub data OpKind : Type 0 where
  create reschedule cancel calendar_repair : OpKind

pub data AttemptKind : Type 0 where
  insert patch delete bump : AttemptKind

pub data AttemptOutcome : Type 0 where
  unresolved applied rejected : AttemptOutcome

pub data RejectionReason : Type 0 where
  slot_unavailable session_full : RejectionReason

pub record Attempt : Type 0 where
  pub attempt_id : Key
  pub kind : AttemptKind
  pub event_id : Key
  pub gen : ℕ
  pub issued_at : Instant
  pub if_match : Option Key
  pub outcome : AttemptOutcome
  pub resolved_at : Option Instant

pub record PendingOp : Type 0 where
  pub kind : OpKind
  pub op_id : Key
  pub gen : ℕ
  pub started_at : Instant
  pub event_id : Option Key
  pub new_start : Option Instant
  pub new_end : Option Instant
  pub old_event_id : Option Key
  pub fallback_event_id : Option Key
  pub etag : Option Key
  pub attempts : List Attempt

pub record UnresolvedInsert : Type 0 where
  pub attempt_id : Key
  pub event_id : Key
  pub op_id : Key
  pub gen : ℕ
  pub issued_at : Instant
  pub inspect_seq : Option ℕ
  pub inspected_at : Option Instant

pub record UnfinishedCreate : Type 0 where
  pub op_id : Key
  pub gen : ℕ
  pub event_id : Key
  pub started_at : Instant
  pub attempts : List Attempt

pub record BookingRow : Type 0 where
  pub id : Key
  pub token : Key
  pub idempotency_key : Key
  pub create_fingerprint : Key
  pub owner_id : Key
  pub event_type_id : Key
  pub host_id : Key
  pub start : Instant
  pub end : Instant
  pub status : BookingRowStatus
  pub revision : ℕ
  pub latest_action : Option LatestAction
  pub google_event_id : Option Key
  pub google_event_etag : Option Key
  pub calendar_state : CalendarState
  pub rescheduled_from : Option Instant
  pub reserved_start : Option Instant
  pub reserved_end : Option Instant
  pub pending_op : Option PendingOp
  pub unfinished_create : Option UnfinishedCreate
  pub unresolved_inserts : List UnresolvedInsert
  pub reap_cursor : ℕ
  pub invitee_name : Key
  pub invitee_email : Key
  pub notes : Option Key
  pub metadata : Key
  pub created_at : Instant

pub record Interval : Type 0 where
  pub start : Instant
  pub end : Instant
