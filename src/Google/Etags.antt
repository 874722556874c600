-- ===== src/Google/Etags.antt =====
-- lib/google/mock-calendar.ts: what the calls of the memory calendar do to the etags of its events.
use marlo_scheduling.Prelude.{
  ℕ, ◌+◌, ◌*◌, ◌≤◌, ◌≡◌, refl, Bool, true, false, not, ◌||◌, Option, none, some, List, [], ◌∷◌,
  arith, find, put, All, All-put, All-map, Bool-cases, Option-cases, inl, inr, ◌==◌,
}
use marlo_scheduling.Rows.{Key}
use marlo_scheduling.Google.{
  InsertEventInput, GetEventInput, PatchEventInput, DeleteEventInput, ListEventsInput,
}
use marlo_scheduling.Google.Mock.{
  MockCalendar, StoredEvent, CalendarCall, has_event_id, begin_call, store_event, next_etag,
  apply_insert, inserted_event, execute_insert, capture_insert, insert_or_hold, mock_insert,
  mock_get, mock_patch, patch_live, patched_event, mock_remove, remove_stored, removed_event,
  mock_list, insert_record, collides, id_record, get_call, patch_call, delete_call, list_record,
  scripted_absence, has_attempt,
}
use marlo_scheduling.Google.Control.{SeededEvent, seed_event, execute_held}

-- The etag under an id, of a deleted event too; 0 if there is none.
abbrev pub etag_under : List StoredEvent → Key → ℕ
etag_under events id = elim (find (has_event_id id) events) [ none ↦ 0 | some s ↦ s.event.etag ]

abbrev pub Below : ℕ → StoredEvent → Type 0
Below n stored = stored.event.etag ≤ n

-- Every stored etag was drawn.
pub record EtagInv (c : MockCalendar) : Type 0 where
  pub drawn : All (Below (2 * c.etag_seq)) c.events

-- What every call does to the etags: none is forgotten, and the one under an id never goes back.
pub record Advances (c c' : MockCalendar) : Type 0 where
  pub kept : EtagInv c'
  pub later : (id : Key) → etag_under c.events id ≤ etag_under c'.events id

etag_under-put :
    (n : ℕ) (stored : StoredEvent) (events : List StoredEvent) (id : Key)
    → All (Below n) events
    → n ≤ stored.event.etag
    → etag_under events id ≤ etag_under (put (has_event_id stored.event.id) stored events) id
etag_under-put n stored [] id h le = omega arith
etag_under-put n stored (x ∷ xs) id h le = ground (arith, h.0, etag_under-put n stored xs id h.1 le)

-- The event that was just stored has its own etag.
pub etag_under-put_self :
    (stored : StoredEvent) (events : List StoredEvent)
    → etag_under (put (has_event_id stored.event.id) stored events) stored.event.id
      ≡ stored.event.etag
etag_under-put_self stored [] = ground arith
etag_under-put_self stored (x ∷ xs) = ground (arith, etag_under-put_self stored xs)

store_event-Advances :
    (stored : StoredEvent) (c : MockCalendar)
    → stored.event.etag ≡ next_etag c
    → EtagInv c
    → Advances c (store_event stored c)
unfolding store_event
store_event-Advances stored c e v = record {
  kept = record {
    drawn =
        All-put (Below (2 * (c.etag_seq + 1))) (has_event_id stored.event.id) stored c.events
          (All-map (λ (x : StoredEvent) (le : Below (2 * c.etag_seq) x). omega arith) c.events
            v.drawn)
          (omega arith);
  };
  later = λ id. etag_under-put (2 * c.etag_seq) stored c.events id v.drawn (omega arith);
}

-- A calendar with the same events and the same counter.
pub record SameEvents (c c' : MockCalendar) : Type 0 where
  pub events_same : c'.events ≡ c.events
  pub seq_same : c'.etag_seq ≡ c.etag_seq

pub Advances-same : (c c' : MockCalendar) → SameEvents c c' → EtagInv c → Advances c c'
Advances-same c c' e v = record {
  kept = record { drawn = rw (e.events_same, e.seq_same) v.drawn };
  later = λ id. rw e.events_same (omega arith);
}

Advances-trans : {a b c : MockCalendar} → Advances a b → Advances b c → Advances a c
Advances-trans {a} {b} {c} p q = record {
  kept = q.kept;
  later = λ id. omega (arith, p.later id, q.later id);
}

-- A step that leaves the etags as they are, and one more.
after_same :
    (a b c : MockCalendar) → SameEvents a b → (EtagInv b → Advances b c) → EtagInv a → Advances a c
after_same a b c e f v = let p = Advances-same a b e v in Advances-trans p (f p.kept)

pub begin_call-same : (call : CalendarCall) (c : MockCalendar) → SameEvents c (begin_call call c).1
unfolding begin_call
begin_call-same call c = record { events_same = refl; seq_same = refl }

unchanged : (c : MockCalendar) → EtagInv c → Advances c c
unchanged c v = Advances-same c c (record { events_same = refl; seq_same = refl }) v

apply_insert-Advances :
    (input : InsertEventInput) (c : MockCalendar) → EtagInv c → Advances c (apply_insert input c).1
unfolding apply_insert inserted_event
apply_insert-Advances input c v = elim (Bool-cases (collides c input.id)) [
  | inl t ↦ rw t (unchanged c v)
  | inr t ↦ rw t (store_event-Advances (inserted_event input (next_etag c)) c refl v)
]

execute_insert-Advances :
    (input : InsertEventInput) (c : MockCalendar)
    → EtagInv c
    → Advances c (execute_insert input c).1
unfolding execute_insert
execute_insert-Advances input c v = apply_insert-Advances input c v

-- The bookkeeping after a step keeps what the step did.
relabel : (a b c : MockCalendar) → SameEvents b c → Advances a b → Advances a c
relabel a b c e p = Advances-trans p (Advances-same b c e p.kept)

capture_insert-Advances :
    (input : InsertEventInput) (execute : Bool) (c : MockCalendar)
    → EtagInv c
    → Advances c (capture_insert input execute c)
unfolding capture_insert
capture_insert-Advances input true c v =
    relabel c (execute_insert input c).1 _ (record { events_same = refl; seq_same = refl })
      (execute_insert-Advances input c v)
capture_insert-Advances input false c v =
    Advances-same c _ (record { events_same = refl; seq_same = refl }) v

insert_or_hold-Advances :
    (hold : Option Bool) (input : InsertEventInput) (c : MockCalendar)
    → EtagInv c
    → Advances c (insert_or_hold hold input c).1
insert_or_hold-Advances none input c v = apply_insert-Advances input c v
insert_or_hold-Advances (some execute) input c v = capture_insert-Advances input execute c v

mock_insert-Advances :
    (valid : Key → Bool) (input : InsertEventInput) (c : MockCalendar)
    → EtagInv c
    → Advances c (mock_insert valid input c).1
unfolding mock_insert
mock_insert-Advances valid input c v =
    elim (Bool-cases (not (valid input.id) || (input.attempt_id == 0))) [
      | inl t ↦ rw t (Advances-same c _ (record { events_same = refl; seq_same = refl }) v)
      | inr t ↦
          let c' = (begin_call (insert_record input) c).1 in
          let same = begin_call-same (insert_record input) c in
          elim (Option-cases (begin_call (insert_record input) c).0) [
            | inr (o, e) ↦ rw (t, e, mock_insert) (Advances-same c c' same v)
            | inl e ↦
                rw (t, e, mock_insert)
                  (after_same c c' _ same (insert_or_hold-Advances c'.hold_next input c') v)
          ]
    ]

mock_get-Advances :
    (input : GetEventInput) (c : MockCalendar) → EtagInv c → Advances c (mock_get input c).1
unfolding mock_get
mock_get-Advances input c v =
    let call = id_record get_call input.calendar_id input.event_id none in
    let same = begin_call-same call c in
    elim (Option-cases (begin_call call c).0) [
      | inl e ↦ rw (e, mock_get) (Advances-same c _ same v)
      | inr (o, e) ↦ elim (Bool-cases (scripted_absence o)) [
        | inl b ↦ rw (e, b, mock_get) (Advances-same c _ same v)
        | inr b ↦ rw (e, b, mock_get) (Advances-same c _ same v)
      ]
    ]

patch_live-Advances :
    (input : PatchEventInput) (c : MockCalendar) (found : Option StoredEvent)
    → EtagInv c
    → Advances c (patch_live input c found).1
unfolding patched_event
patch_live-Advances input c none v = unchanged c v
patch_live-Advances input c (some found) v =
    elim (Bool-cases (found.event.etag == input.if_match)) [
      | inl t ↦ rw t (store_event-Advances (patched_event input found (next_etag c)) c refl v)
      | inr t ↦ rw t (unchanged c v)
    ]

pub mock_patch-Advances :
    (input : PatchEventInput) (c : MockCalendar) → EtagInv c → Advances c (mock_patch input c).1
unfolding mock_patch
mock_patch-Advances input c v =
    let call = id_record patch_call input.calendar_id input.event_id (some input.if_match) in
    let c' = (begin_call call c).1 in
    let same = begin_call-same call c in
    elim (Option-cases (begin_call call c).0) [
      | inr (o, e) ↦ rw (e, mock_patch) (Advances-same c c' same v)
      | inl e ↦ rw (e, mock_patch) (after_same c c' _ same (patch_live-Advances input c' _) v)
    ]

remove_stored-Advances :
    (input : DeleteEventInput) (c : MockCalendar) (found : Option StoredEvent)
    → EtagInv c
    → Advances c (remove_stored input c found).1
unfolding removed_event
remove_stored-Advances input c none v = unchanged c v
remove_stored-Advances input c (some found) v =
    elim (Bool-cases (found.event.etag == input.if_match)) [
      | inl t ↦ rw t (store_event-Advances (removed_event found (next_etag c)) c refl v)
      | inr t ↦ rw t (unchanged c v)
    ]

mock_remove-Advances :
    (input : DeleteEventInput) (c : MockCalendar) → EtagInv c → Advances c (mock_remove input c).1
unfolding mock_remove
mock_remove-Advances input c v =
    let call = id_record delete_call input.calendar_id input.event_id (some input.if_match) in
    let c' = (begin_call call c).1 in
    let same = begin_call-same call c in
    elim (Option-cases (begin_call call c).0) [
      | inl e ↦ rw (e, mock_remove) (after_same c c' _ same (remove_stored-Advances input c' _) v)
      | inr (o, e) ↦ elim (Bool-cases (scripted_absence o)) [
        | inl b ↦ rw (e, b, mock_remove) (Advances-same c c' same v)
        | inr b ↦ rw (e, b, mock_remove) (Advances-same c c' same v)
      ]
    ]

mock_list-Advances :
    (input : ListEventsInput) (c : MockCalendar) → EtagInv c → Advances c (mock_list input c).1
unfolding mock_list
mock_list-Advances input c v = elim (Option-cases c.list_failure) [
  | inr (o, e) ↦
      simp (e, mock_list) (Advances-same c _ (record { events_same = refl; seq_same = refl }) v)
  | inl e ↦ elim (Option-cases (begin_call (list_record input) c).0) [
    | inl k ↦
        simp (e, k, mock_list)
          (Advances-same c _ (record { events_same = refl; seq_same = refl }) v)
    | inr (o, k) ↦
        simp (e, k, mock_list)
          (Advances-same c _ (record { events_same = refl; seq_same = refl }) v)
  ]
]

execute_held-Advances :
    (attempt_id : Key) (c : MockCalendar) → EtagInv c → Advances c (execute_held attempt_id c)
unfolding execute_held
execute_held-Advances attempt_id c v = elim (Option-cases (find (has_attempt attempt_id) c.held)) [
  | inl e ↦ rw (e, execute_held) (unchanged c v)
  | inr (held, e) ↦ elim (Bool-cases held.executed) [
    | inl b ↦ rw (e, b, execute_held) (unchanged c v)
    | inr b ↦
        rw (e, b, execute_held)
          (relabel c (execute_insert held.input c).1 _
            (record { events_same = refl; seq_same = refl })
            (execute_insert-Advances held.input c v))
  ]
]

-- What anybody may ask of the calendar: its calls, an event that is planted, and the late execution
-- of an insert that was held.
pub data Call : Type 0 where
  call_insert : InsertEventInput → Call
  call_get : GetEventInput → Call
  call_patch : PatchEventInput → Call
  call_remove : DeleteEventInput → Call
  call_list : ListEventsInput → Call
  call_seed : SeededEvent → Call
  call_execute : Key → Call

unfoldable pub perform : (Key → Bool) → Call → MockCalendar → MockCalendar
unfolding mock_insert mock_get mock_patch mock_remove mock_list seed_event execute_held
perform valid (call_insert input) c = (mock_insert valid input c).1
perform valid (call_get input) c = (mock_get input c).1
perform valid (call_patch input) c = (mock_patch input c).1
perform valid (call_remove input) c = (mock_remove input c).1
perform valid (call_list input) c = (mock_list input c).1
perform valid (call_seed seeded) c = seed_event seeded c
perform valid (call_execute attempt_id) c = execute_held attempt_id c

unfoldable pub perform_all : (Key → Bool) → List Call → MockCalendar → MockCalendar
unfolding perform
perform_all valid [] c = c
perform_all valid (call ∷ rest) c = perform_all valid rest (perform valid call c)

perform-Advances :
    (valid : Key → Bool) (call : Call) (c : MockCalendar)
    → EtagInv c
    → Advances c (perform valid call c)
unfolding perform
perform-Advances valid (call_insert input) c v = mock_insert-Advances valid input c v
perform-Advances valid (call_get input) c v = mock_get-Advances input c v
perform-Advances valid (call_patch input) c v = mock_patch-Advances input c v
perform-Advances valid (call_remove input) c v = mock_remove-Advances input c v
perform-Advances valid (call_list input) c v = mock_list-Advances input c v
perform-Advances valid (call_seed seeded) c v = unfold seed_event in store_event-Advances _ c refl v
perform-Advances valid (call_execute attempt_id) c v = execute_held-Advances attempt_id c v

pub perform_all-Advances :
    (valid : Key → Bool) (calls : List Call) (c : MockCalendar)
    → EtagInv c
    → Advances c (perform_all valid calls c)
unfolding perform_all
perform_all-Advances valid [] c v = unchanged c v
perform_all-Advances valid (call ∷ rest) c v =
    let p = perform-Advances valid call c v in
    Advances-trans p (perform_all-Advances valid rest (perform valid call c) p.kept)
