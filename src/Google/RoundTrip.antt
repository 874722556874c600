-- ===== src/Google/RoundTrip.antt =====
-- lib/google/mock-calendar.ts: what is inserted into the memory calendar is read back, and can be
-- deleted under its etag.
use marlo_scheduling.Prelude.{
  ◌≡◌, refl, ap, ◌∙◌, sym, subst, Bool, false, not, ◌||◌, ◌==◌, none, some, List, [], put,
  Bool-cases, inl, inr, ==-refl, find-put_self,
}
use marlo_scheduling.Rows.{Key}
use marlo_scheduling.Store.{ok}
use marlo_scheduling.Google.{
  CalendarEvent, InsertEventInput, GetEventInput, DeleteEventInput, event_deleted,
}
use marlo_scheduling.Google.Mock.{
  MockCalendar, StoredEvent, CalendarCall, id_record, get_call, delete_call, is_cancelled,
  has_event_id, live_in, begin_call, take_scripted, insert_call, unless_cancelled, store_event,
  next_etag, apply_insert, inserted_event, insert_or_hold, mock_insert, mock_get, mock_remove,
  insert_record, collides,
}

-- An insert that applies stores the event of its input under the next etag.
apply_insert-applied :
    (input : InsertEventInput) (c : MockCalendar) (event : CalendarEvent)
    → (apply_insert input c).0 ≡ ok event
    → (apply_insert input c ≡ (
      ok (inserted_event input (next_etag c)).event,
      store_event (inserted_event input (next_etag c)) c,
    ))
      × ((inserted_event input (next_etag c)).event ≡ event)
unfolding apply_insert
apply_insert-applied input c event r = elim (Bool-cases (collides c input.id)) [
  | inl t ↦ let q = rw t at r in cc
  | inr t ↦ let q = rw t at r in rw t (refl, cc)
]

begin_call-quiet :
    (call : CalendarCall) (c : MockCalendar) → c.scripted ≡ [] → (begin_call call c).0 ≡ none
unfolding begin_call take_scripted
begin_call-quiet call c quiet = ap (λ q. (take_scripted call.kind q).0) quiet

mock_get-stored :
    (stored : StoredEvent) (input : GetEventInput) (c : MockCalendar)
    → c.scripted ≡ []
    → live_in c.events input.event_id ≡ some stored
    → (mock_get input c).0 ≡ ok (some stored.event)
unfolding mock_get
mock_get-stored stored input c quiet l =
    let e = begin_call-quiet (id_record get_call input.calendar_id input.event_id none) c quiet in
    rw (e, mock_get) (unfold begin_call in rw l refl)

mock_remove-stored :
    (stored : StoredEvent) (input : DeleteEventInput) (c : MockCalendar)
    → c.scripted ≡ []
    → live_in c.events input.event_id ≡ some stored
    → input.if_match ≡ stored.event.etag
    → (mock_remove input c).0 ≡ ok event_deleted
unfolding mock_remove
mock_remove-stored stored input c quiet l m =
    let call = id_record delete_call input.calendar_id input.event_id (some input.if_match) in
    let e = begin_call-quiet call c quiet in
    rw (e, mock_remove) (unfold begin_call in simp (l, m, ==-refl stored.event.etag) refl)

live_in-put :
    (stored : StoredEvent) (events : List StoredEvent)
    → is_cancelled stored ≡ false
    → live_in (put (has_event_id stored.event.id) stored events) stored.event.id ≡ some stored
live_in-put stored events n =
    ap unless_cancelled
      (find-put_self (has_event_id stored.event.id) stored events (==-refl stored.event.id))
    ∙ rw n refl

-- The insert of a calendar without scripted outcomes and without a hold goes to the events.
mock_insert-applied :
    (valid : Key → Bool) (input : InsertEventInput) (c : MockCalendar) (event : CalendarEvent)
    → c.scripted ≡ []
    → c.hold_next ≡ none
    → (mock_insert valid input c).0 ≡ ok event
    → let c' = (begin_call (insert_record input) c).1 in
      let stored = inserted_event input (next_etag c) in
      ((mock_insert valid input c).1 ≡ store_event stored c') × (stored.event ≡ event)
unfolding mock_insert
mock_insert-applied valid input c event quiet unheld r =
    elim (Bool-cases (not (valid input.id) || (input.attempt_id == 0))) [
      | inl t ↦ let q = rw (t, mock_insert) at r in cc
      | inr t ↦
          let e = begin_call-quiet (insert_record input) c quiet in
          let c' = (begin_call (insert_record input) c).1 in
          let held : c'.hold_next ≡ none = unfold begin_call in unheld in
          let q = rw (t, e, mock_insert) at r in
          let applied =
            apply_insert-applied input c' event
              (subst (λ h. (insert_or_hold h input c').0 ≡ ok event) held q) in
          rw (t, e, mock_insert)
            (
              subst
                  (λ h.
                    (insert_or_hold h input c').1
                    ≡ store_event (inserted_event input (next_etag c)) c')
                  (sym held) (ap (λ p. p.1) applied.0),
              applied.1,
            )
    ]

-- An insert that the memory calendar answers with an event, in a calendar that has no scripted
-- outcome and holds no insert, is read back: `get` answers the same event, with the times, the
-- booking and the attempt of the input, and a delete under the event's etag applies.
pub mock_insert-get :
    (valid : Key → Bool) (input : InsertEventInput) (read : GetEventInput)
    (removal : DeleteEventInput) (c : MockCalendar) (event : CalendarEvent)
    → c.scripted ≡ []
    → c.hold_next ≡ none
    → (mock_insert valid input c).0 ≡ ok event
    → read.event_id ≡ input.id
    → removal.event_id ≡ input.id
    → removal.if_match ≡ event.etag
    → let after = (mock_insert valid input c).1 in
      ((mock_get read after).0 ≡ ok (some event))
      × (event.start ≡ input.start)
      × (event.end ≡ input.end)
      × (event.marlo_booking_id ≡ some input.booking_id)
      × (event.marlo_attempt_id ≡ some input.attempt_id)
      × ((mock_remove removal after).0 ≡ ok event_deleted)
unfolding store_event inserted_event begin_call take_scripted
mock_insert-get valid input read removal c event quiet unheld r a b d =
    let (stores, same) = mock_insert-applied valid input c event quiet unheld r in
    let stored = inserted_event input (next_etag c) in
    let c' = (begin_call (insert_record input) c).1 in
    let after = store_event stored c' in
    let silent : after.scripted ≡ [] = ap (λ q. (take_scripted insert_call q).1) quiet in
    let live = live_in-put stored c.events refl in
    let got =
      mock_get-stored stored read after silent
        (subst (λ k. live_in after.events k ≡ some stored) (sym a) live) in
    let gone =
      mock_remove-stored stored removal after silent
        (subst (λ k. live_in after.events k ≡ some stored) (sym b) live)
        (d ∙ ap (λ (e : CalendarEvent). e.etag) (sym same)) in
    rw stores (
      got ∙ ap (λ (e : CalendarEvent). ok (some e)) same,
      ap (λ (e : CalendarEvent). e.start) (sym same),
      ap (λ (e : CalendarEvent). e.end) (sym same),
      ap (λ (e : CalendarEvent). e.marlo_booking_id) (sym same),
      ap (λ (e : CalendarEvent). e.marlo_attempt_id) (sym same),
      gone,
    )
