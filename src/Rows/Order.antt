-- ===== src/Rows/Order.antt =====
-- The fair order of `orderReapCandidates` in lib/booking/rows.ts: the mark of an event id, the
-- comparison of two marks, and the sort.
use marlo_scheduling.Prelude.{
  ℕ, Bool, true, false, Option, none, some, List, [], ◌∷◌, ltb, ◌==◌, if◌then◌else◌, filter,
}
use marlo_scheduling.Rows.Types.{Key, Instant, UnresolvedInsert}

pub record Mark : Type 0 where
  pub seq : Option ℕ
  pub issued_at : Option Instant

-- The `issuedAt === '' || entry.issuedAt < issuedAt` of both branches; `''` is `none`.
abbrev pub earlier : Option Instant → Instant → Option Instant
earlier none t = some t
earlier (some s) t = some (if ltb t s then t else s)

abbrev lower : Option ℕ → ℕ → Option ℕ
lower none n = some n
lower (some m) n = some (if ltb n m then n else m)

-- The loop of `markOf`: an entry that was never inspected returns at once.
unfoldable pub mark_loop : Mark → List UnresolvedInsert → Mark
mark_loop m [] = m
mark_loop m (entry ∷ rest) = elim entry.inspect_seq [
  | none ↦ record { seq = none; issued_at = earlier m.issued_at entry.issued_at }
  | some n ↦
      mark_loop (record { seq = lower m.seq n; issued_at = earlier m.issued_at entry.issued_at })
        rest
]

unfoldable pub mark_of : List UnresolvedInsert → Key → Mark
unfolding mark_loop
mark_of entries event_id =
    mark_loop (record { seq = none; issued_at = none })
      (filter (λ (entry : UnresolvedInsert). entry.event_id == event_id) entries)

pub data Comparison : Type 0 where
  before equal after : Comparison

abbrev pub compare_numbers : ℕ → ℕ → Comparison
compare_numbers a b = if ltb a b then before else if ltb b a then after else equal

-- `null` and `''` come first.
abbrev pub compare_options : Option ℕ → Option ℕ → Comparison
compare_options none none = equal
compare_options none (some b) = before
compare_options (some a) none = after
compare_options (some a) (some b) = compare_numbers a b

abbrev pub and_then : Comparison → Comparison → Comparison
and_then equal c = c
and_then before c = before
and_then after c = after

unfoldable pub compare_marked : Mark → Key → Mark → Key → Comparison
compare_marked left a right b =
    and_then (compare_options left.seq right.seq)
      (and_then (compare_options left.issued_at right.issued_at) (compare_numbers a b))

-- The comparator that is given to `sort`, as the test whether `b` may not stand before `a`.
unfoldable pub in_order : List UnresolvedInsert → Key → Key → Bool
unfolding compare_marked mark_of
in_order entries a b = elim (compare_marked (mark_of entries a) a (mark_of entries b) b) [
  | after ↦ false
  | _ ↦ true
]

unfoldable pub insert_marked : List UnresolvedInsert → Key → List Key → List Key
unfolding in_order
insert_marked entries a [] = a ∷ []
insert_marked entries a (b ∷ bs) =
    if in_order entries a b then a ∷ b ∷ bs else b ∷ insert_marked entries a bs

-- `Array.prototype.sort` is a stable sort by the comparator; so is insertion from the right.
unfoldable pub sort_marked : List UnresolvedInsert → List Key → List Key
unfolding insert_marked
sort_marked entries [] = []
sort_marked entries (a ∷ as_) = insert_marked entries a (sort_marked entries as_)
