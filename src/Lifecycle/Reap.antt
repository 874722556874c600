-- ===== src/Lifecycle/Reap.antt =====
-- lib/booking/reap.ts: the bounded removal of events that late inserts left on the calendar.
use marlo_scheduling.Prelude.{
  ℕ, Bool, true, false, not, ◌||◌, Option, none, some, List, [], ◌∷◌, ◌++◌, ◌==◌, filter, any,
  if◌then◌else◌, take, is_key,
}
use marlo_scheduling.Rows.{Key, BookingRow, eligible_reap_ids, order_reap_candidates}
use marlo_scheduling.Store.{MemoryTx, get_by_id, select_for_update, stamp_reap_batch}
use marlo_scheduling.Google.{CalendarEvent, DeleteOutcome, class_precondition_failed, no_guests}
use marlo_scheduling.Lifecycle.Errors.{Failure}
use marlo_scheduling.Lifecycle.World.{
  Step, Context, pure, catch, ◌>>=◌, ◌>>◌, on_store, on_calendar, with_host_lock,
}
use marlo_scheduling.Lifecycle.Ops.{classify_failure, returning, is_foreign}
use marlo_scheduling.Lifecycle.Superseded.{retire_step}

pub record ReapReport : Type 0 where
  pub inspected : List Key
  pub deleted : List Key
  pub retired : List Key
  pub stamped : List ℕ

-- `tx.stampReapBatch`: the store is written at once.
unfoldable pub stamp_tx : Key → List Key → ℕ → MemoryTx → List ℕ × MemoryTx
stamp_tx booking_id batch time tx =
    let (stamped, store) = stamp_reap_batch tx.store booking_id batch time in
    (stamped, record tx { store = store })

-- The ids that a batch is drawn from, `eligible`, in the fair order.
unfoldable pub stamp_batch :
    BookingRow → List Key → ℕ → ℕ → MemoryTx → (List Key × List ℕ) × MemoryTx
unfolding stamp_tx
stamp_batch fresh [] max time tx = (([], []), tx)
stamp_batch fresh (id ∷ ids) max time tx =
    let batch : List Key = take max (order_reap_candidates fresh (id ∷ ids)) in
    let (stamped, tx') = stamp_tx fresh.id batch time tx in ((batch, stamped), tx')

unfoldable pub select_batch_tx : Key → ℕ → ℕ → MemoryTx → (List Key × List ℕ) × MemoryTx
unfolding stamp_batch
select_batch_tx booking_id max time tx = elim (select_for_update tx booking_id) [
  | none ↦ (([], []), tx)
  | some fresh ↦ stamp_batch fresh (eligible_reap_ids fresh) max time tx
]

abbrev listed_in : List Key → Key → Bool
listed_in listed id = any (λ (x : Key). x == id) listed

unfoldable pub select_listed_tx : Key → List Key → ℕ → ℕ → MemoryTx → List Key × MemoryTx
unfolding stamp_batch
select_listed_tx booking_id listed max time tx = elim (select_for_update tx booking_id) [
  | none ↦ ([], tx)
  | some fresh ↦
      let (result, tx') =
        stamp_batch fresh (filter (listed_in listed) (eligible_reap_ids fresh)) max time tx in
      (result.0, tx')
]

abbrev same_attribution : Option Key → Option Key → Bool
same_attribution none none = true
same_attribution none (some b) = false
same_attribution (some a) b = is_key b a

module _ {C : Type 0} where
  unfoldable pub read_row : Key → Step C (Option BookingRow)
  read_row id = on_store (λ store. (get_by_id store id, store))

  unfoldable pub select_batch : Key → ℕ → Step C (List Key × List ℕ)
  unfolding read_row select_batch_tx
  select_batch booking_id max = do
    row ← read_row booking_id
    elim row [
      | none ↦ pure ([], [])
      | some r ↦ with_host_lock r.host_id (λ time. returning (select_batch_tx booking_id max time))
    ]

  unfoldable pub select_listed_batch : Key → List Key → ℕ → Step C (List Key)
  unfolding read_row select_listed_tx
  select_listed_batch booking_id listed max =
      if (max == 0) || elim listed [ [] ↦ true | _ ↦ false ] then pure [] else (do
        row ← read_row booking_id
        elim row [
          | none ↦ pure []
          | some r ↦
              with_host_lock r.host_id
                (λ time. returning (select_listed_tx booking_id listed max time))
        ])

  unfoldable pub remove_event : Context C → Key → Key → Step C DeleteOutcome
  remove_event ctx event_id etag = on_calendar (
      ctx.client.remove (record {
        calendar_id = ctx.calendar_id;
        event_id = event_id;
        if_match = etag;
        send_updates = no_guests;
      }))

  unfoldable pub get_event : Context C → Key → Step C (Option CalendarEvent)
  get_event ctx event_id =
      on_calendar (ctx.client.get (record { calendar_id = ctx.calendar_id; event_id = event_id }))

  unfoldable pub retire : Key → Option Key → ReapReport → Step C ReapReport
  retire booking_id none report = pure report
  retire booking_id (some attempt_id) report = do
    retire_step booking_id attempt_id
    pure (record report { retired = report.retired ++ attempt_id ∷ [] })

  -- A delete and the retirement that follows it; the failure of either is handed on.
  delete_and_retire : Context C → Key → Key → Key → Option Key → ReapReport → Step C ReapReport
  unfolding remove_event retire
  delete_and_retire ctx booking_id event_id etag attributed_to report = do
    remove_event ctx event_id etag
    retire booking_id attributed_to (record report { deleted = report.deleted ++ event_id ∷ [] })

  abbrev after_second_get :
      Context C → Key → Key → Option Key → ReapReport → Option CalendarEvent → Step C ReapReport
  after_second_get ctx booking_id event_id attributed_to report none =
      retire booking_id attributed_to report
  after_second_get ctx booking_id event_id attributed_to report (some again) =
      if not (same_attribution again.marlo_attempt_id attributed_to)
      then retire booking_id attributed_to report
      else catch (delete_and_retire ctx booking_id event_id again.etag attributed_to report)
          (λ e. pure report)

  abbrev after_first_delete :
      Context C → Key → Key → Option Key → ReapReport → Failure → Step C ReapReport
  after_first_delete ctx booking_id event_id attributed_to report e = elim (classify_failure e) [
    | class_precondition_failed ↦ do
      again ← catch (do event ← get_event ctx event_id; pure (some event)) (λ e. pure none)
      elim again [
        | none ↦ pure report
        | some event ↦ after_second_get ctx booking_id event_id attributed_to report event
      ]
    | _ ↦ pure report
  ]

  reap_event : Context C → Key → Key → ReapReport → Option CalendarEvent → Step C ReapReport
  unfolding delete_and_retire
  reap_event ctx booking_id event_id report none = pure report
  reap_event ctx booking_id event_id report (some observed) =
      if is_foreign booking_id observed.marlo_booking_id
      then pure report
      else catch
          (delete_and_retire ctx booking_id event_id observed.etag observed.marlo_attempt_id report)
          (after_first_delete ctx booking_id event_id observed.marlo_attempt_id report)

  unfoldable pub reap_one : Context C → Key → Key → ReapReport → Step C ReapReport
  unfolding reap_event get_event
  reap_one ctx booking_id event_id report = do
    observed ← catch (do event ← get_event ctx event_id; pure (some event)) (λ e. pure none)
    elim observed [
      | none ↦ pure report
      | some event ↦ reap_event ctx booking_id event_id report event
    ]

  unfoldable pub reap_loop : Context C → Key → List Key → ReapReport → Step C ReapReport
  unfolding reap_one
  reap_loop ctx booking_id [] report = pure report
  reap_loop ctx booking_id (event_id ∷ rest) report =
      reap_one ctx booking_id event_id report >>= reap_loop ctx booking_id rest

  unfoldable pub reap_retired_ids : Context C → Key → ℕ → Step C ReapReport
  unfolding select_batch reap_loop
  reap_retired_ids ctx booking_id max = do
    chosen ← select_batch booking_id max
    reap_loop ctx booking_id chosen.0
        (record { inspected = chosen.0; deleted = []; retired = []; stamped = chosen.1 })
