-- ===== src/Google/Fencing.antt =====
-- lib/google/mock-calendar.ts: the etags of the memory calendar fence off a worker whose version of
-- an event has been replaced.
use marlo_scheduling.Prelude.{
  ℕ, ◌+◌, ◌*◌, ◌≤◌, ◌<◌, ◌≡◌, ◌≢◌, refl, Bool, false, Option, none, some, List, [], ◌∷◌, arith, All,
  Bool-cases, Option-cases, inl, inr, ◌==◌,
}
use marlo_scheduling.Rows.{Key}
use marlo_scheduling.Store.{ok}
use marlo_scheduling.Google.{CalendarEvent, PatchEventInput, DeleteEventInput, event_deleted}
use marlo_scheduling.Google.Mock.{
  MockCalendar, StoredEvent, live_in, begin_call, store_event, next_etag, mock_patch, patch_live,
  patched_event, mock_remove, remove_stored, is_applied, id_record, patch_call, delete_call,
  scripted_absence,
}
use marlo_scheduling.Google.Etags.{
  EtagInv, Below, etag_under, Advances-same, etag_under-put_self, begin_call-same,
  mock_patch-Advances, perform_all-Advances, Call, perform_all,
}

remove_stored-stale :
    (late : DeleteEventInput) (c : MockCalendar)
    → late.if_match < etag_under c.events late.event_id
    → ((remove_stored late c (live_in c.events late.event_id)).0 ≢ ok event_deleted)
      × ((remove_stored late c (live_in c.events late.event_id)).1.events ≡ c.events)
remove_stored-stale late c h = ground arith

patch_live-stale :
    (late : PatchEventInput) (c : MockCalendar)
    → late.if_match < etag_under c.events late.event_id
    → (is_applied (patch_live late c (live_in c.events late.event_id)).0 ≡ false)
      × ((patch_live late c (live_in c.events late.event_id)).1.events ≡ c.events)
patch_live-stale late c h = ground arith

-- A delete under an etag that is behind the one stored is refused or finds nothing.
mock_remove-stale :
    (late : DeleteEventInput) (c : MockCalendar)
    → late.if_match < etag_under c.events late.event_id
    → ((mock_remove late c).0 ≢ ok event_deleted) × ((mock_remove late c).1.events ≡ c.events)
unfolding mock_remove
mock_remove-stale late c h =
    let call = id_record delete_call late.calendar_id late.event_id (some late.if_match) in
    elim (Option-cases (begin_call call c).0) [
      | inr (o, e) ↦ elim (Bool-cases (scripted_absence o)) [
        | inl b ↦ rw (e, b, mock_remove) (λ q. cc, refl)
        | inr b ↦ rw (e, b, mock_remove) (λ q. cc, refl)
      ]
      | inl e ↦ rw (e, mock_remove) (remove_stored-stale late (begin_call call c).1 h)
    ]

mock_patch-stale :
    (late : PatchEventInput) (c : MockCalendar)
    → late.if_match < etag_under c.events late.event_id
    → (is_applied (mock_patch late c).0 ≡ false) × ((mock_patch late c).1.events ≡ c.events)
unfolding mock_patch
mock_patch-stale late c h =
    let call = id_record patch_call late.calendar_id late.event_id (some late.if_match) in
    elim (Option-cases (begin_call call c).0) [
      | inr (o, e) ↦ rw (e, mock_patch) (refl, refl)
      | inl e ↦ rw (e, mock_patch) (patch_live-stale late (begin_call call c).1 h)
    ]

live_in-found :
    (events : List StoredEvent) (id : Key) (found : StoredEvent) (n : ℕ)
    → live_in events id ≡ some found
    → All (Below n) events
    → (found.event.id ≡ id) × (found.event.etag ≤ n)
live_in-found [] id found n e h = cc
live_in-found (x ∷ xs) id found n e h =
    ground (arith, h.0, λ (k : live_in xs id ≡ some found). live_in-found xs id found n k h.1)

patch_live-renews :
    (bump : PatchEventInput) (c : MockCalendar) (found : Option StoredEvent) (event : CalendarEvent)
    → live_in c.events bump.event_id ≡ found
    → EtagInv c
    → (patch_live bump c found).0 ≡ ok event
    → bump.if_match < etag_under (patch_live bump c found).1.events bump.event_id
unfolding store_event patched_event
patch_live-renews bump c none event l v r = cc
patch_live-renews bump c (some found) event l v r =
    elim (Bool-cases (found.event.etag == bump.if_match)) [
      | inr t ↦ cc
      | inl t ↦
          let (same, le) = live_in-found c.events bump.event_id found (2 * c.etag_seq) l v.drawn in
          let updated = patched_event bump found (next_etag c) in
          let own = etag_under-put_self updated c.events in
          let fresh : bump.if_match < 2 * (c.etag_seq + 1) = ground arith in
          rw (t, ← same) (omega (arith, own, fresh))
    ]

mock_patch-renews :
    (bump : PatchEventInput) (c : MockCalendar) (event : CalendarEvent)
    → EtagInv c
    → (mock_patch bump c).0 ≡ ok event
    → bump.if_match < etag_under (mock_patch bump c).1.events bump.event_id
unfolding mock_patch
mock_patch-renews bump c event v r =
    let call = id_record patch_call bump.calendar_id bump.event_id (some bump.if_match) in
    let c' = (begin_call call c).1 in
    elim (Option-cases (begin_call call c).0) [
      | inr (o, e) ↦ let r' = rw (e, mock_patch) at r in cc
      | inl e ↦
          let r' = rw (e, mock_patch) at r in
          rw (e, mock_patch)
            (patch_live-renews bump c' (live_in c'.events bump.event_id) event refl
              (Advances-same c c' (begin_call-same call c) v).kept r')
    ]

-- Once a patch under an etag is applied, that etag is spent: after any calls of anybody, planted
-- events and late executions of held inserts, a delete or a patch of the event under the same etag
-- never applies, and leaves the events as they are.
pub mock_patch-fences :
    (valid : Key → Bool) (calls : List Call) (bump late : PatchEventInput)
    (removal : DeleteEventInput) (c : MockCalendar) (event : CalendarEvent)
    → EtagInv c
    → (mock_patch bump c).0 ≡ ok event
    → late.event_id ≡ bump.event_id
    → late.if_match ≡ bump.if_match
    → removal.event_id ≡ bump.event_id
    → removal.if_match ≡ bump.if_match
    → let after = perform_all valid calls (mock_patch bump c).1 in
      ((mock_remove removal after).0 ≢ ok event_deleted)
      × ((mock_remove removal after).1.events ≡ after.events)
      × (is_applied (mock_patch late after).0 ≡ false)
      × ((mock_patch late after).1.events ≡ after.events)
mock_patch-fences valid calls bump late removal c event v r a b d e =
    let patched = (mock_patch bump c).1 in
    let after = perform_all valid calls patched in
    let renewed = mock_patch-renews bump c event v r in
    let kept = (mock_patch-Advances bump c v).kept in
    let later = (perform_all-Advances valid calls patched kept).later bump.event_id in
    let behind : bump.if_match < etag_under after.events bump.event_id =
      omega (arith, renewed, later) in
    let first = mock_remove-stale removal after (rw (d, e) behind) in
    let second = mock_patch-stale late after (rw (a, b) behind) in
    (first.0, first.1, second.0, second.1)
