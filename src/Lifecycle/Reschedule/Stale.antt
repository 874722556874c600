-- ===== src/Lifecycle/Reschedule/Stale.antt =====
-- lib/booking/reschedule.ts: the reconciliation of a stale operation that a reschedule took over,
-- and the completion of a reschedule that another operation inherited.
use marlo_scheduling.Prelude.{
  true, not, ◌||◌, is_none, Option, none, some, if◌then◌else◌, or_else, is_key,
}
use marlo_scheduling.Rows.{Key, BookingRow, PendingOp, OpKind}
use marlo_scheduling.Lifecycle.Errors.{error_of, in_progress, outcome_unknown, booking_changed}
use marlo_scheduling.Lifecycle.World.{Step, Context, pure, throw_error, ◌>>=◌, ◌>>◌}
use marlo_scheduling.Lifecycle.Ops.{
  Observation, present, unobserved, BumpResult, bumped, bump_absent, bump_ambiguous, observe_id,
  bump_version,
}
use marlo_scheduling.Lifecycle.Envelope.{booking_body}
use marlo_scheduling.Lifecycle.Reap.{read_row}
use marlo_scheduling.Lifecycle.Cancel.{live_id_of, has_start, is_present, observe_optional}
use marlo_scheduling.Lifecycle.Cancel
use marlo_scheduling.Lifecycle.Reschedule.Types.{
  RescheduleRequest, RescheduleDeps, RescheduleOutcome, interval_for,
}
use marlo_scheduling.Lifecycle.Reschedule.T2.{Resulting, complete_reschedule, abandon_reschedule}
use marlo_scheduling.Lifecycle.Reschedule.Answer.{rescheduled_outcome}

-- The etag of a fallback event that was observed and bumped; `none` when nothing was achieved
-- there.
abbrev pub etag_of : Observation → Option Key
etag_of (present event) = some event.etag
etag_of _ = none

abbrev pub resulting_from : PendingOp → Option Key → Option Key → Option Key → Resulting
resulting_from op target old_etag (some etag) = record {
  event_id = op.fallback_event_id;
  etag = some etag;
}
resulting_from op target old_etag none = record { event_id = target; etag = old_etag }

-- The event that an inherited reschedule moved: the old one at the target, else the fallback.
abbrev pub old_achieved : PendingOp → Observation → Option Resulting
old_achieved op observed =
    if has_start observed op.new_start
    then some (record { event_id = op.old_event_id; etag = etag_of observed })
    else none

abbrev pub fallback_achieved : PendingOp → Observation → Option Resulting
fallback_achieved op observed =
    if is_present observed
    then some (record { event_id = op.fallback_event_id; etag = etag_of observed })
    else none

module _ {C : Type 0} where
  abbrev pub bumped_etag : BumpResult → Step C (Option Key)
  bumped_etag (bumped etag) = pure (some etag)
  bumped_etag bump_absent = pure none
  bumped_etag bump_ambiguous = throw_error outcome_unknown

  -- The predecessor's version of the target is bumped first.
  abbrev pub bump_target : Context C → BookingRow → PendingOp → Option Key → Step C (Unit {0})
  bump_target ctx row op none = pure tt
  bump_target ctx row op (some event_id) =
      bump_version ctx row op event_id >>= Cancel.unless_ambiguous

  -- The version of a fallback event that is present is bumped too.
  abbrev pub bump_fallback : Context C → BookingRow → PendingOp → Observation → Step C (Option Key)
  bump_fallback ctx row op observed = elim observed [
    | present event ↦ elim op.fallback_event_id [
      | none ↦ pure (some event.etag)
      | some event_id ↦ bump_version ctx row op event_id >>= bumped_etag
    ]
    | _ ↦ pure none
  ]

  -- The completed move is this request, or it stands and the request is refused.
  abbrev pub recovered_or_changed :
      RescheduleDeps C
      → RescheduleRequest
      → PendingOp
      → BookingRow
      → Step C (Option RescheduleOutcome)
  recovered_or_changed deps request op fresh =
      if is_key op.new_start (interval_for request).start
      then (do outcome ← rescheduled_outcome deps fresh true; pure (some outcome))
      else throw_error
          (record (error_of booking_changed) { booking = some (booking_body fresh deps.meta) })

  unfoldable pub complete_stale :
      RescheduleDeps C
      → RescheduleRequest
      → BookingRow
      → PendingOp
      → Resulting
      → Step C (Option RescheduleOutcome)
  unfolding complete_reschedule read_row rescheduled_outcome
  complete_stale deps request row op resulting = do
    completed ← complete_reschedule deps.ctx row op resulting none
    if completed.superseded then throw_error (in_progress 1) else (do
      deps.notify completed.row row.start
      found ← read_row row.id
      recovered_or_changed deps request op (or_else found completed.row))

  -- From the two observations: complete the move that was achieved, or abandon it.
  unfoldable pub reconcile_observed :
      RescheduleDeps C
      → RescheduleRequest
      → BookingRow
      → PendingOp
      → Option Key
      → Observation
      → Observation
      → Step C (Option RescheduleOutcome)
  unfolding bump_version complete_stale abandon_reschedule
  reconcile_observed deps request row op target old fallback = do
    fallback_etag ← bump_fallback deps.ctx row op fallback
    if has_start old op.new_start || not (is_none fallback_etag)
        then complete_stale deps request row op
            (resulting_from op target (etag_of old) fallback_etag)
        else (do abandon_reschedule row op; pure none)

  unfoldable pub reconcile_stale_reschedule :
      RescheduleDeps C
      → RescheduleRequest
      → BookingRow
      → PendingOp
      → Step C (Option RescheduleOutcome)
  unfolding bump_version observe_id unobserved reconcile_observed
  reconcile_stale_reschedule deps request row op = do
    let target = live_id_of op row
    bump_target deps.ctx row op target
    old ← observe_optional deps.ctx row.id target
    fallback ← observe_optional deps.ctx row.id op.fallback_event_id
    if unobserved old || unobserved fallback
        then throw_error outcome_unknown
        else reconcile_observed deps request row op target old fallback

  -- `none` lets the request proceed as a new op.
  unfoldable pub reconcile_stale :
      RescheduleDeps C
      → RescheduleRequest
      → BookingRow
      → PendingOp
      → Step C (Option RescheduleOutcome)
  unfolding reconcile_stale_reschedule
  reconcile_stale deps request row op = elim op.kind [
    | OpKind.create ↦ do deps.complete_inherited row op; pure none
    | OpKind.calendar_repair ↦ do deps.complete_inherited row op; pure none
    | _ ↦ reconcile_stale_reschedule deps request row op
  ]

  unfoldable pub achieved_move : Context C → BookingRow → PendingOp → Step C (Option Resulting)
  unfolding observe_id
  achieved_move ctx row op = do
    old ← observe_optional ctx row.id op.old_event_id
    elim (old_achieved op old) [
      | some resulting ↦ pure (some resulting)
      | none ↦ do
        fallback ← observe_optional ctx row.id op.fallback_event_id
        pure (fallback_achieved op fallback)
    ]

  unfoldable pub complete_inherited_reschedule :
      RescheduleDeps C → BookingRow → PendingOp → Step C (Unit {0})
  unfolding achieved_move complete_reschedule
  complete_inherited_reschedule deps row op = do
    achieved ← achieved_move deps.ctx row op
    elim achieved [
      | none ↦ pure tt
      | some resulting ↦ do
        completed ← complete_reschedule deps.ctx row op resulting none
        if completed.superseded then pure tt else deps.notify completed.row row.start
    ]
