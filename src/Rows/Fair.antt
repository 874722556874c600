-- ===== src/Rows/Fair.antt =====
-- The fair order of lib/booking/rows.ts is a total order, and the sort follows the documented
-- order.
use mathlib.Core.List.{Perm}
use mathlib.Core.List.Perm
use marlo_scheduling.Prelude.{
  ℕ, zero, suc, ◌≤◌, ◌≡◌, ◌↔◌, ◌⊎◌, inl, inr, true, false, List, [], ◌∷◌, arith, Bool-cases, All,
  All-In, In, take, length, length-take, In-take,
}
use marlo_scheduling.Rows.Types.{Key, UnresolvedInsert, BookingRow}
use marlo_scheduling.Rows.{order_reap_candidates, eligible_reap_ids, select_reap_batch}
use marlo_scheduling.Rows.Marks.{Before, in_order-Before}
use marlo_scheduling.Rows.Order.{
  Mark, after, compare_marked, in_order, insert_marked, sort_marked, mark_of,
}

-- Every id may stand before all that follow it in the documented order.
abbrev pub IsFair : List UnresolvedInsert → List Key → Type 0
IsFair entries [] = Unit
IsFair entries (a ∷ as_) = All (Before entries a) as_ × IsFair entries as_

-- Every id may stand before all that follow it by the comparator.
abbrev IsSorted : List UnresolvedInsert → List Key → Type 0
IsSorted entries [] = Unit
IsSorted entries (a ∷ as_) = All (λ b. in_order entries a b ≡ true) as_ × IsSorted entries as_

IsSorted-IsFair :
    (entries : List UnresolvedInsert) (ids : List Key) → IsSorted entries ids → IsFair entries ids
IsSorted-IsFair entries [] s = tt
IsSorted-IsFair entries (a ∷ as_) s = (all_before as_ s.0, IsSorted-IsFair entries as_ s.1)
  where
    all_before :
        (bs : List Key) → All (λ b. in_order entries a b ≡ true) bs → All (Before entries a) bs
    all_before [] h = tt
    all_before (b ∷ bs) h = (in_order-Before entries a b h.0, all_before bs h.1)

compare_marked-total :
    (l r : Mark) (a b : Key) → compare_marked l a r b ≡ after → compare_marked r b l a ≡ after → ⊥
unfolding compare_marked
compare_marked-total l r a b h k = ground arith

in_order-total :
    (entries : List UnresolvedInsert) (a b : Key)
    → in_order entries a b ≡ false
    → in_order entries b a ≡ true
unfolding in_order
in_order-total entries a b h =
    ground (arith, compare_marked-total (mark_of entries a) (mark_of entries b) a b)

compare_marked_trans :
    (l m r : Mark) (a b c : Key)
    → compare_marked l a r c ≡ after
    → (compare_marked l a m b ≡ after) ⊎ (compare_marked m b r c ≡ after)
unfolding compare_marked
compare_marked_trans l m r a b c h = ground arith

in_order_trans :
    (entries : List UnresolvedInsert) (a b c : Key)
    → in_order entries a b ≡ true
    → in_order entries b c ≡ true
    → in_order entries a c ≡ true
unfolding in_order
in_order_trans entries a b c h k =
    ground (
      arith,
      compare_marked_trans (mark_of entries a) (mark_of entries b) (mark_of entries c) a b c,
    )

All-in_order :
    (entries : List UnresolvedInsert) (a b : Key) (bs : List Key)
    → in_order entries a b ≡ true
    → All (λ c. in_order entries b c ≡ true) bs
    → All (λ c. in_order entries a c ≡ true) bs
All-in_order entries a b [] h k = tt
All-in_order entries a b (c ∷ cs) h k =
    (in_order_trans entries a b c h k.0, All-in_order entries a b cs h k.1)

All-insert_marked :
    (P : Key → Type 0) (entries : List UnresolvedInsert) (a : Key) (bs : List Key)
    → P a
    → All P bs
    → All P (insert_marked entries a bs)
unfolding insert_marked
All-insert_marked P entries a [] p h = (p, tt)
All-insert_marked P entries a (b ∷ bs) p h = ground (arith, All-insert_marked P entries a bs p h.1)

insert_marked-IsSorted :
    (entries : List UnresolvedInsert) (a : Key) (bs : List Key)
    → IsSorted entries bs
    → IsSorted entries (insert_marked entries a bs)
unfolding insert_marked
insert_marked-IsSorted entries a [] f = (tt, tt)
insert_marked-IsSorted entries a (b ∷ bs) f = elim (Bool-cases (in_order entries a b)) [
  | inl h ↦ rw h ((h, All-in_order entries a b bs h f.0), f)
  | inr h ↦ rw h (
    All-insert_marked (λ c. in_order entries b c ≡ true) entries a bs (in_order-total entries a b h)
        f.0,
    insert_marked-IsSorted entries a bs f.1,
  )
]

insert_marked-perm :
    (entries : List UnresolvedInsert) (a : Key) (bs : List Key)
    → Perm (insert_marked entries a bs) (a ∷ bs)
unfolding insert_marked
insert_marked-perm entries a [] = Perm.refl (a ∷ [])
insert_marked-perm entries a (b ∷ bs) = elim (Bool-cases (in_order entries a b)) [
  | inl h ↦ rw h (Perm.refl (a ∷ b ∷ bs))
  | inr h ↦ rw h (Perm.trans (Perm.cons b (insert_marked-perm entries a bs)) (Perm.swap a b bs))
]

sort_marked-IsSorted :
    (entries : List UnresolvedInsert) (ids : List Key) → IsSorted entries (sort_marked entries ids)
unfolding sort_marked
sort_marked-IsSorted entries [] = tt
sort_marked-IsSorted entries (a ∷ as_) =
    insert_marked-IsSorted entries a (sort_marked entries as_) (sort_marked-IsSorted entries as_)

sort_marked-perm :
    (entries : List UnresolvedInsert) (ids : List Key) → Perm (sort_marked entries ids) ids
unfolding sort_marked
sort_marked-perm entries [] = Perm.refl []
sort_marked-perm entries (a ∷ as_) =
    Perm.trans (insert_marked-perm entries a (sort_marked entries as_))
      (Perm.cons a (sort_marked-perm entries as_))

In-insert_marked :
    (entries : List UnresolvedInsert) (c a : Key) (bs : List Key)
    → In c (insert_marked entries a bs) ↔ ((a ≡ c) ⊎ In c bs)
unfolding insert_marked
In-insert_marked entries c a [] = (λ h. h, λ h. h)
In-insert_marked entries c a (b ∷ bs) = ground (arith, In-insert_marked entries c a bs)

In-sort_marked :
    (entries : List UnresolvedInsert) (c : Key) (ids : List Key)
    → In c (sort_marked entries ids) ↔ In c ids
unfolding sort_marked
In-sort_marked entries c [] = (λ h. h, λ h. h)
In-sort_marked entries c (a ∷ as_) =
    ground
      (arith, In-insert_marked entries c a (sort_marked entries as_), In-sort_marked entries c as_)

-- In a fair list what the first n leave out may not stand before one of them.
take-fair :
    (entries : List UnresolvedInsert) (n : ℕ) (ids : List Key) (a b : Key)
    → IsSorted entries ids
    → In a (take n ids)
    → In b ids
    → (In b (take n ids) → ⊥)
    → in_order entries a b ≡ true
take-fair entries zero ids a b f ha hb out = absurd ha
take-fair entries (suc n) [] a b f ha hb out = elim hb [ ]
take-fair entries (suc n) (x ∷ xs) a b f ha (inl e) out = absurd (out (inl e))
take-fair entries (suc n) (x ∷ xs) a b f (inl e) (inr k) out =
    rw e at (All-In (λ c. in_order entries x c ≡ true) b xs f.0 k)
take-fair entries (suc n) (x ∷ xs) a b f (inr h) (inr k) out =
    take-fair entries n xs a b f.1 h k (λ i. out (inr i))

-- The candidates are put in the documented order: none is lost, added or repeated, and each may
-- stand before all that follow it: ids with an entry never inspected first, then the smallest
-- `inspectSeq`, ties by the first issue and then by the id.
pub order_reap_candidates-IsFair :
    (row : BookingRow) (eligible : List Key)
    → Perm (order_reap_candidates row eligible) eligible
      × IsFair row.unresolved_inserts (order_reap_candidates row eligible)
unfolding order_reap_candidates
order_reap_candidates-IsFair row eligible = (
  sort_marked-perm row.unresolved_inserts eligible,
  IsSorted-IsFair row.unresolved_inserts (sort_marked row.unresolved_inserts eligible)
      (sort_marked-IsSorted row.unresolved_inserts eligible),
)

-- A batch has at most `max` ids. An id that it takes is eligible, and it may stand before every
-- eligible id that the batch leaves out in the documented order: ids with an entry never inspected
-- first, then the smallest `inspectSeq`, ties by the first issue and then by the id.
pub select_reap_batch-fair :
    (row : BookingRow) (max : ℕ) (a b : Key)
    → In a (select_reap_batch row max)
    → In b (eligible_reap_ids row)
    → (In b (select_reap_batch row max) → ⊥)
    → (length (select_reap_batch row max) ≤ max)
      × In a (eligible_reap_ids row)
      × Before row.unresolved_inserts a b
unfolding select_reap_batch order_reap_candidates
select_reap_batch-fair row max a b ha hb out =
    let entries = row.unresolved_inserts in
    let ids = eligible_reap_ids row in
    (
      length-take max (sort_marked entries ids),
      (In-sort_marked entries a ids).0 (In-take a max (sort_marked entries ids) ha),
      in_order-Before entries a b (
          take-fair entries max (sort_marked entries ids) a b (sort_marked-IsSorted entries ids) ha
            ((In-sort_marked entries b ids).1 hb) out),
    )
