-- ===== src/Rows/Marks.antt =====
-- The documented order of `orderReapCandidates` in lib/booking/rows.ts, said of the retained
-- inserts of an id themselves: the smallest `inspectSeq` first, `null` before all, ties by
-- `issuedAt`, then by id.
use marlo_scheduling.Prelude.{
  ℕ, ◌≤◌, ◌<◌, ◌≡◌, ◌≢◌, refl, ◌⊎◌, inl, inr, true, none, some, List, [], ◌∷◌, ◌==◌, arith, filter,
  Option-cases, ltb, if◌then◌else◌,
}
use marlo_scheduling.Rows.Types.{Key, Instant, UnresolvedInsert}
use marlo_scheduling.Rows.Order.{Mark, after, mark_loop, mark_of, compare_marked, in_order}

-- The retained inserts that name an id.
abbrev pub own_entries : List UnresolvedInsert → Key → List UnresolvedInsert
own_entries entries id = filter (λ (entry : UnresolvedInsert). entry.event_id == id) entries

-- One of the entries has that `inspectSeq`, or was issued at that time.
abbrev pub Inspected : ℕ → List UnresolvedInsert → Type 0
Inspected n [] = ⊥
Inspected n (entry ∷ rest) = (entry.inspect_seq ≡ some n) ⊎ Inspected n rest

abbrev pub Issued : Instant → List UnresolvedInsert → Type 0
Issued t [] = ⊥
Issued t (entry ∷ rest) = (entry.issued_at ≡ t) ⊎ Issued t rest

-- Each entry was inspected, at `n` or later; each was issued at `t` or later.
abbrev pub InspectedFrom : ℕ → List UnresolvedInsert → Type 0
InspectedFrom n [] = Unit
InspectedFrom n (entry ∷ rest) =
    ((m : ℕ) × (entry.inspect_seq ≡ some m) × (n ≤ m)) × InspectedFrom n rest

abbrev pub IssuedFrom : Instant → List UnresolvedInsert → Type 0
IssuedFrom t [] = Unit
IssuedFrom t (entry ∷ rest) = (t ≤ entry.issued_at) × IssuedFrom t rest

abbrev pub WasInspected : UnresolvedInsert → Type 0
WasInspected entry = (k : ℕ) × (entry.inspect_seq ≡ some k)

-- Of the entries up to the first that was never inspected, which is there, one was issued at `t`;
-- and each was issued at `t` or later.
abbrev pub WaitsIssued : Instant → List UnresolvedInsert → Type 0
WaitsIssued t [] = ⊥
WaitsIssued t (entry ∷ rest) = (entry.issued_at ≡ t) ⊎ (WasInspected entry × WaitsIssued t rest)

abbrev pub WaitsFrom : Instant → List UnresolvedInsert → Type 0
WaitsFrom t [] = ⊥
WaitsFrom t (entry ∷ rest) =
    (t ≤ entry.issued_at) × ((entry.inspect_seq ≡ none) ⊎ (WasInspected entry × WaitsFrom t rest))

-- Where an id ranks: it has no entry; one was never inspected, with the first issue up to it; or
-- all were inspected, with the smallest `inspectSeq` and the first issue.
pub data Rank : Type 0 where
  unnamed : Rank
  waiting : Instant → Rank
  inspected : ℕ → Instant → Rank

abbrev pub Ranked : List UnresolvedInsert → Rank → Type 0
Ranked entries unnamed = entries ≡ []
Ranked entries (waiting t) = WaitsIssued t entries × WaitsFrom t entries
Ranked entries (inspected n t) =
    Inspected n entries × InspectedFrom n entries × Issued t entries × IssuedFrom t entries

-- Ties by the issue, then by the id.
abbrev pub Tie : Instant → Key → Instant → Key → Type 0
Tie t a u b = (t < u) ⊎ ((t ≡ u) × (a ≤ b))

abbrev pub Precedes : Rank → Key → Rank → Key → Type 0
Precedes unnamed a unnamed b = a ≤ b
Precedes unnamed a _ b = Unit
Precedes (waiting t) a unnamed b = ⊥
Precedes (waiting t) a (waiting u) b = Tie t a u b
Precedes (waiting t) a (inspected m u) b = Unit
Precedes (inspected n t) a unnamed b = ⊥
Precedes (inspected n t) a (waiting u) b = ⊥
Precedes (inspected n t) a (inspected m u) b = (n < m) ⊎ ((n ≡ m) × Tie t a u b)

-- `a` may stand before `b` in the documented order.
abbrev pub Before : List UnresolvedInsert → Key → Key → Type 0
Before entries a b =
    (r q : Rank) × Ranked (own_entries entries a) r
    × Ranked (own_entries entries b) q
    × Precedes r a q b

abbrev mark_for : Rank → Mark
mark_for unnamed = record { seq = none; issued_at = none }
mark_for (waiting t) = record { seq = none; issued_at = some t }
mark_for (inspected n t) = record { seq = some n; issued_at = some t }

-- What the loop of `markOf` makes of a running minimum, if all entries were inspected or if one was
-- not.
record Ends (s : ℕ) (i : Instant) (es : List UnresolvedInsert) (m : Mark) : Type 0 where
  least : ℕ
  first : Instant
  is_mark : m ≡ mark_for (inspected least first)
  seq_from : (least ≡ s) ⊎ Inspected least es
  seq_below : least ≤ s
  seq_all : InspectedFrom least es
  issued_from : (first ≡ i) ⊎ Issued first es
  issued_below : first ≤ i
  issued_all : IssuedFrom first es

record Stops (i : Instant) (es : List UnresolvedInsert) (m : Mark) : Type 0 where
  first : Instant
  is_mark : m ≡ mark_for (waiting first)
  issued_from : (first ≡ i) ⊎ WaitsIssued first es
  issued_below : first ≤ i
  issued_all : WaitsFrom first es

abbrev smaller : ℕ → ℕ → ℕ
smaller a b = if ltb b a then b else a

module _ (s i k : ℕ) (entry : UnresolvedInsert) (rest : List UnresolvedInsert) (m : Mark)
    (e : entry.inspect_seq ≡ some k) where
  Ends-step : Ends (smaller s k) (smaller i entry.issued_at) rest m → Ends s i (entry ∷ rest) m
  Ends-step r =
      let a = r.seq_from in
      let b = r.seq_below in
      let c = r.issued_from in
      let d = r.issued_below in
      record {
        least = r.least;
        first = r.first;
        is_mark = r.is_mark;
        seq_from = ground arith;
        seq_below = ground arith;
        seq_all = ((k, e, ground arith), r.seq_all);
        issued_from = ground arith;
        issued_below = ground arith;
        issued_all = (ground arith, r.issued_all);
      }

  Stops-step : Stops (smaller i entry.issued_at) rest m → Stops i (entry ∷ rest) m
  Stops-step r =
      let c = r.issued_from in
      let d = r.issued_below in
      record {
        first = r.first;
        is_mark = r.is_mark;
        issued_from = elim c [ inl f ↦ ground arith | inr f ↦ inr (inr ((k, e), f)) ];
        issued_below = ground arith;
        issued_all = (ground arith, inr ((k, e), r.issued_all));
      }

mark_loop_cases :
    (s i : ℕ) (es : List UnresolvedInsert)
    → Stops i es (mark_loop (record { seq = some s; issued_at = some i }) es)
      ⊎ Ends s i es (mark_loop (record { seq = some s; issued_at = some i }) es)
unfolding mark_loop
mark_loop_cases s i [] = inr (record {
  least = s;
  first = i;
  is_mark = refl;
  seq_from = inl refl;
  seq_below = omega arith;
  seq_all = tt;
  issued_from = inl refl;
  issued_below = omega arith;
  issued_all = tt;
})
mark_loop_cases s i (entry ∷ rest) = elim (Option-cases entry.inspect_seq) [
  | inl e ↦ inl (record {
    first = smaller i entry.issued_at;
    is_mark = simp e refl;
    issued_from = ground arith;
    issued_below = ground arith;
    issued_all = (ground arith, inl e);
  })
  | inr (k, e) ↦ elim (mark_loop_cases (smaller s k) (smaller i entry.issued_at) rest) [
    | inl r ↦ inl (simp e (Stops-step s i k entry rest _ e r))
    | inr r ↦ inr (simp e (Ends-step s i k entry rest _ e r))
  ]
]

-- The mark of the entries of an id is that of their rank.
mark_loop-Ranked :
    (es : List UnresolvedInsert)
    → (r : Rank) × (mark_loop (mark_for unnamed) es ≡ mark_for r) × Ranked es r
unfolding mark_loop
mark_loop-Ranked [] = (unnamed, refl, refl)
mark_loop-Ranked (entry ∷ rest) = elim (Option-cases entry.inspect_seq) [
  | inl e ↦ (waiting entry.issued_at, simp e refl, (inl refl, (omega arith, inl e)))
  | inr (k, e) ↦ elim (mark_loop_cases k entry.issued_at rest) [
    | inl r ↦
        let c = r.issued_from in
        let d = r.issued_below in
        let from : (entry.issued_at ≡ r.first) ⊎ (WasInspected entry × WaitsIssued r.first rest) =
          elim c [ inl f ↦ ground arith | inr f ↦ inr ((k, e), f) ] in
        (waiting r.first, simp e r.is_mark, (from, (d, inr ((k, e), r.issued_all))))
    | inr r ↦
        let a = r.seq_from in
        let b = r.seq_below in
        let c = r.issued_from in
        let d = r.issued_below in
        (
          inspected r.least r.first,
          simp e r.is_mark,
          (ground arith, ((k, e, b), r.seq_all), ground arith, (d, r.issued_all)),
        )
  ]
]

compare_marked-Precedes :
    (r q : Rank) (a b : Key)
    → compare_marked (mark_for r) a (mark_for q) b ≢ after
    → Precedes r a q b
unfolding compare_marked
compare_marked-Precedes unnamed unnamed a b h = ground arith
compare_marked-Precedes unnamed (waiting u) a b h = tt
compare_marked-Precedes unnamed (inspected m u) a b h = tt
compare_marked-Precedes (waiting t) unnamed a b h = h refl
compare_marked-Precedes (waiting t) (waiting u) a b h = ground arith
compare_marked-Precedes (waiting t) (inspected m u) a b h = tt
compare_marked-Precedes (inspected n t) unnamed a b h = h refl
compare_marked-Precedes (inspected n t) (waiting u) a b h = h refl
compare_marked-Precedes (inspected n t) (inspected m u) a b h = ground arith

in_order-after :
    (entries : List UnresolvedInsert) (a b : Key)
    → in_order entries a b ≡ true
    → compare_marked (mark_of entries a) a (mark_of entries b) b ≢ after
unfolding in_order
in_order-after entries a b h e = ground arith

-- The comparator follows the documented order.
pub in_order-Before :
    (entries : List UnresolvedInsert) (a b : Key) → in_order entries a b ≡ true → Before entries a b
unfolding mark_of
in_order-Before entries a b h =
    let (r, e, k) = mark_loop-Ranked (own_entries entries a) in
    let (q, f, l) = mark_loop-Ranked (own_entries entries b) in
    let s = in_order-after entries a b h in
    (r, q, k, l, compare_marked-Precedes r q a b (rw (e, f) at s))
