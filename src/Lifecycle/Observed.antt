-- ===== src/Lifecycle/Observed.antt =====
-- lib/booking/ops.ts and superseded.ts: what an observation of the calendar proves, and which event
-- a superseded worker may delete.
use marlo_scheduling.Prelude.{
  sym, ap, ◌∙◌, ◌≡◌, ◌↔◌, ◌⊎◌, refl, true, false, Option, none, some, List, ◌==◌, arith, Bool-cases,
  inl, inr, In, any, any-In, any-witness, ==→≡, ==-refl,
}
use marlo_scheduling.Rows.{
  Key, BookingRow, PendingOp, UnresolvedInsert, is_live_id, open_op_intended_ids, names_attempt,
}
use marlo_scheduling.Store.{Result-cases, Result, ok, err}
use marlo_scheduling.Google.{CalendarEvent, Thrown, is_absence_status}
use marlo_scheduling.Lifecycle.Errors.{calendar}
use marlo_scheduling.Lifecycle.World.{World, Context, on_calendar, catch, ◌>>=◌}
use marlo_scheduling.Lifecycle.Ops.{
  classify_failure, is_absence_failure, absent, observe_id, observed_event, observed_failure,
  is_foreign,
}
use marlo_scheduling.Lifecycle.Superseded.{OwnInsertRef, cleanup_eligible, eligible_id}

eligible_id-tests :
    (row : BookingRow) (op : PendingOp) (own : OwnInsertRef)
    → (cleanup_eligible row op (some own) ≡ true) ↔ (
        (is_live_id row own.event_id ≡ false)
        × (any (λ (id : Key). id == own.event_id) (open_op_intended_ids row) ≡ false)
        × (any (names_attempt own.attempt_id) row.unresolved_inserts ≡ true))
unfolding cleanup_eligible eligible_id
eligible_id-tests row op own = ground arith

any_key-In :
    (id : Key) (ids : List Key) → (any (λ (x : Key). x == id) ids ≡ false) ↔ (In id ids → ⊥)
any_key-In id ids = (
  λ h m. let t = any-In (λ (x : Key). x == id) id ids m (==-refl id) in cc,
  λ h. elim (Bool-cases (any (λ (x : Key). x == id) ids)) [
    | inr f ↦ f
    | inl t ↦
        let (x, m, e) = any-witness (λ (y : Key). y == id) ids t in
        absurd (h (rw (==→≡ x id e) at m))
  ],
)

-- A superseded worker may delete the event of its own insert exactly when the event is neither the
-- row's live event nor intended by the row's open op, and the row still retains the worker's
-- attempt as unresolved.
pub cleanup_eligible-exact :
    (row : BookingRow) (op : PendingOp) (own : OwnInsertRef)
    → (cleanup_eligible row op (some own) ≡ true) ↔ (
        (is_live_id row own.event_id ≡ false)
        × (In own.event_id (open_op_intended_ids row) → ⊥)
        × ((entry : UnresolvedInsert) × In entry row.unresolved_inserts
            × (entry.attempt_id ≡ own.attempt_id)))
cleanup_eligible-exact row op own = (
  λ h.
      let (live, open_op, kept) = (eligible_id-tests row op own).0 h in
      let (entry, m, e) = any-witness (names_attempt own.attempt_id) row.unresolved_inserts kept in
      (
        live,
        (any_key-In own.event_id (open_op_intended_ids row)).0 open_op,
        (entry, m, ==→≡ entry.attempt_id own.attempt_id e),
      ),
  λ (live, open_op, (entry, m, e)). (eligible_id-tests row op own).1 (
    live,
    (any_key-In own.event_id (open_op_intended_ids row)).1 open_op,
    any-In (names_attempt own.attempt_id) entry row.unresolved_inserts m
        (rw e (==-refl own.attempt_id)),
  ),
)

observed_event-absent :
    (booking_id : Key) (event : Option CalendarEvent)
    → observed_event booking_id event ≡ absent
    → (event ≡ none)
      ⊎ ((e : CalendarEvent) × (event ≡ some e) × (is_foreign booking_id e.marlo_booking_id ≡ true))
unfolding observed_event
observed_event-absent booking_id none h = inl refl
observed_event-absent booking_id (some e) h =
    elim (Bool-cases (is_foreign booking_id e.marlo_booking_id)) [
      | inl t ↦ inr (e, refl, t)
      | inr f ↦ ground arith
    ]

observed_failure-absent :
    (thrown : Thrown)
    → observed_failure (calendar thrown) ≡ absent
    → is_absence_status thrown ≡ true
unfolding observed_failure classify_failure is_absence_failure
observed_failure-absent thrown h = ground arith

ok-inj : {E A : Type 0} (default : A) (a b : A) → ◌≡◌ {A = Result E A} (ok a) (ok b) → a ≡ b
ok-inj default a b p = ap (λ r. elim r [ ok x ↦ x | err e ↦ default ]) p

observe_id-answer :
    {C : Type 0} (ctx : Context C) (booking_id event_id : Key) (w : World C)
    (event : Option CalendarEvent)
    → (ctx.client.get (record { calendar_id = ctx.calendar_id; event_id = event_id }) w.calendar).0
      ≡ ok event
    → (observe_id ctx booking_id event_id w).0 ≡ ok (observed_event booking_id event)
unfolding observe_id on_calendar catch ◌>>=◌
observe_id-answer ctx booking_id event_id w event e =
    rw (e, observe_id, on_calendar, ◌>>=◌, catch) refl

observe_id-refusal :
    {C : Type 0} (ctx : Context C) (booking_id event_id : Key) (w : World C) (thrown : Thrown)
    → (ctx.client.get (record { calendar_id = ctx.calendar_id; event_id = event_id }) w.calendar).0
      ≡ err thrown
    → (observe_id ctx booking_id event_id w).0 ≡ ok (observed_failure (calendar thrown))
unfolding observe_id on_calendar catch ◌>>=◌
observe_id-refusal ctx booking_id event_id w thrown e =
    rw (e, observe_id, on_calendar, ◌>>=◌, catch) refl

-- An id is observed as absent only if the calendar answered that it has no event, or an event that
-- names another booking, or refused with a status that proves the absence.
pub observe_id-absent :
    {C : Type 0} (ctx : Context C) (booking_id event_id : Key) (w : World C)
    → (observe_id ctx booking_id event_id w).0 ≡ ok absent
    → let answer =
        (ctx.client.get
          (record { calendar_id = ctx.calendar_id; event_id = event_id })
          w.calendar).0 in
      (answer ≡ ok none)
      ⊎ ((event : CalendarEvent) × (answer ≡ ok (some event))
          × (is_foreign booking_id event.marlo_booking_id ≡ true))
      ⊎ ((thrown : Thrown) × (answer ≡ err thrown) × (is_absence_status thrown ≡ true))
observe_id-absent ctx booking_id event_id w h =
    elim (Result-cases
      (ctx.client.get (record { calendar_id = ctx.calendar_id; event_id = event_id })
        w.calendar).0) [
          | inl (event, e) ↦
              elim (observed_event-absent booking_id event (
                ok-inj absent _ _
                  (sym (observe_id-answer ctx booking_id event_id w event e) ∙ h))) [
                    | inl n ↦ inl (e ∙ ap ok n)
                    | inr (x, n, f) ↦ inr (inl (x, e ∙ ap ok n, f))
                  ]
          | inr (thrown, e) ↦ inr (
              inr (
                thrown,
                e,
                observed_failure-absent thrown (
                    ok-inj absent _ _
                      (sym (observe_id-refusal ctx booking_id event_id w thrown e) ∙ h)),
              ))
        ]
