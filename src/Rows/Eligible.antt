-- ===== src/Rows/Eligible.antt =====
-- What `eligibleReapIds` of lib/booking/rows.ts selects.
use marlo_scheduling.Prelude.{
  ◌≡◌, refl, ◌↔◌, ◌⊎◌, Bool, false, Option, List, [], ◌∷◌, arith, ==→≡, ==-refl, is_key, any, In,
  ◌==◌,
}
use marlo_scheduling.Rows.Types.{Key, UnresolvedInsert, BookingRow}
use marlo_scheduling.Rows.{eligible_loop, eligible_reap_ids, live_event_id}

-- An entry of the list names the id.
abbrev pub Names : Key → List UnresolvedInsert → Type 0
Names id [] = ⊥
Names id (entry ∷ rest) = (entry.event_id ≡ id) ⊎ Names id rest

abbrev pub Distinct : List Key → Type 0
Distinct [] = Unit
Distinct (x ∷ xs) = (In x xs → ⊥) × Distinct xs

abbrev seen_test : Key → List Key → Bool
seen_test id seen = any (λ (x : Key). x == id) seen

eligible_loop_sound :
    (live : Option Key) (seen : List Key) (entries : List UnresolvedInsert) (id : Key)
    → In id (eligible_loop live seen entries)
    → Names id entries × (is_key live id ≡ false) × (seen_test id seen ≡ false)
unfolding eligible_loop
eligible_loop_sound live seen [] id h = elim h [ ]
eligible_loop_sound live seen (entry ∷ rest) id h = ground (
  arith,
  eligible_loop_sound live seen rest id,
  eligible_loop_sound live (entry.event_id ∷ seen) rest id,
)

eligible_loop_complete :
    (live : Option Key) (seen : List Key) (entries : List UnresolvedInsert) (id : Key)
    → Names id entries
    → is_key live id ≡ false
    → seen_test id seen ≡ false
    → In id (eligible_loop live seen entries)
unfolding eligible_loop
eligible_loop_complete live seen [] id n l s = elim n [ ]
eligible_loop_complete live seen (entry ∷ rest) id n l s = ground (
  arith,
  eligible_loop_complete live seen rest id,
  eligible_loop_complete live (entry.event_id ∷ seen) rest id,
  ==→≡ entry.event_id id,
)

eligible_loop-Distinct :
    (live : Option Key) (seen : List Key) (entries : List UnresolvedInsert)
    → Distinct (eligible_loop live seen entries)
unfolding eligible_loop
eligible_loop-Distinct live seen [] = tt
eligible_loop-Distinct live seen (entry ∷ rest) = ground (
  arith,
  eligible_loop-Distinct live seen rest,
  eligible_loop-Distinct live (entry.event_id ∷ seen) rest,
  λ (h : In entry.event_id (eligible_loop live (entry.event_id ∷ seen) rest)).
      eligible_loop_sound live (entry.event_id ∷ seen) rest entry.event_id h,
  ==-refl entry.event_id,
)

-- An id is eligible exactly when a retained insert names it and it is not the live id, whether or
-- not the open op intends it; and the list of the eligible ids has each once.
pub eligible_reap_ids-exact :
    (row : BookingRow) (id : Key)
    → (In id (eligible_reap_ids row)
        ↔ (Names id row.unresolved_inserts × (is_key (live_event_id row) id ≡ false)))
      × Distinct (eligible_reap_ids row)
unfolding eligible_reap_ids
eligible_reap_ids-exact row id = (
  (
    λ h.
        let s = eligible_loop_sound (live_event_id row) [] row.unresolved_inserts id h in
        (s.0, s.1),
    λ h. eligible_loop_complete (live_event_id row) [] row.unresolved_inserts id h.0 h.1 refl,
  ),
  eligible_loop-Distinct (live_event_id row) [] row.unresolved_inserts,
)
