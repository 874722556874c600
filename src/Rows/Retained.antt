-- ===== src/Rows/Retained.antt =====
-- What `retainedFrom` of lib/booking/rows.ts keeps when an op is cleared.
use marlo_scheduling.Prelude.{
  ◌≡◌, refl, Option, none, some, List, [], ◌∷◌, ◌++◌, ◌&&◌, arith, ◌==◌, find, find_last,
  find-append, put, either_of, if◌then◌else◌,
}
use marlo_scheduling.Rows.Types.{Key, Attempt, UnresolvedInsert}
use marlo_scheduling.Rows.{
  names_attempt, by_attempt, retain, retain_step, retain_loop, retained_from, is_unresolved_insert,
  is_insert, is_unresolved,
}

-- The entry that the first unresolved insert attempt of that id gives.
abbrev pub retained_attempt : Key → List Attempt → Option UnresolvedInsert
retained_attempt id [] = none
retained_attempt id (attempt ∷ rest) =
    if is_insert attempt.kind && is_unresolved attempt.outcome && (attempt.attempt_id == id)
    then some (record {
      attempt_id = attempt.attempt_id;
      event_id = attempt.event_id;
      op_id = 0;
      gen = attempt.gen;
      issued_at = attempt.issued_at;
      inspect_seq = none;
      inspected_at = none;
    })
    else retained_attempt id rest

find-put-names :
    (id : Key) (entry : UnresolvedInsert) (table : List UnresolvedInsert)
    → find (names_attempt id) (put (names_attempt entry.attempt_id) entry table)
      ≡ (if entry.attempt_id == id then some entry else find (names_attempt id) table)
find-put-names id entry [] = ground arith
find-put-names id entry (x ∷ xs) = ground (arith, find-put-names id entry xs)

find-by_attempt :
    (id : Key) (table rest : List UnresolvedInsert)
    → find (names_attempt id) (by_attempt table rest)
      ≡ either_of (find_last (names_attempt id) rest) (find (names_attempt id) table)
unfolding by_attempt
find-by_attempt id table [] = refl
find-by_attempt id table (entry ∷ rest) = ground (
  arith,
  find-by_attempt id (put (names_attempt entry.attempt_id) entry table) rest,
  find-put-names id entry table,
)

find-retain_step :
    (id : Key) (table : List UnresolvedInsert) (attempt : Attempt)
    → find (names_attempt id) (retain_step table attempt)
      ≡ either_of (find (names_attempt id) table) (retained_attempt id (attempt ∷ []))
unfolding retain_step retain is_unresolved_insert
find-retain_step id table attempt =
    ground (arith, find-append (names_attempt id) table (retain attempt ∷ []))

find-retain_loop :
    (id : Key) (table : List UnresolvedInsert) (attempts : List Attempt)
    → find (names_attempt id) (retain_loop table attempts)
      ≡ either_of (find (names_attempt id) table) (retained_attempt id attempts)
unfolding retain_loop
find-retain_loop id table [] = ground arith
find-retain_loop id table (attempt ∷ rest) =
    ground (
      arith,
      find-retain_loop id (retain_step table attempt) rest,
      find-retain_step id table attempt,
    )

-- No attempt id stands twice in the list.
abbrev pub Unrepeated : List UnresolvedInsert → Type 0
Unrepeated [] = Unit
Unrepeated (entry ∷ rest) = (find (names_attempt entry.attempt_id) rest ≡ none) × Unrepeated rest

put-Unrepeated :
    (entry : UnresolvedInsert) (table : List UnresolvedInsert)
    → Unrepeated table
    → Unrepeated (put (names_attempt entry.attempt_id) entry table)
put-Unrepeated entry [] u = (refl, tt)
put-Unrepeated entry (x ∷ xs) u =
    ground (arith, put-Unrepeated entry xs, find-put-names x.attempt_id entry xs)

append-Unrepeated :
    (entry : UnresolvedInsert) (table : List UnresolvedInsert)
    → find (names_attempt entry.attempt_id) table ≡ none
    → Unrepeated table
    → Unrepeated (table ++ entry ∷ [])
append-Unrepeated entry [] h u = (refl, tt)
append-Unrepeated entry (x ∷ xs) h u =
    ground
      (arith, append-Unrepeated entry xs, find-append (names_attempt x.attempt_id) xs (entry ∷ []))

by_attempt-Unrepeated :
    (table rest : List UnresolvedInsert) → Unrepeated table → Unrepeated (by_attempt table rest)
unfolding by_attempt
by_attempt-Unrepeated table [] u = u
by_attempt-Unrepeated table (entry ∷ rest) u =
    by_attempt-Unrepeated (put (names_attempt entry.attempt_id) entry table) rest
      (put-Unrepeated entry table u)

retain_step-Unrepeated :
    (table : List UnresolvedInsert) (attempt : Attempt)
    → Unrepeated table
    → Unrepeated (retain_step table attempt)
unfolding retain_step retain
retain_step-Unrepeated table attempt u = ground (arith, append-Unrepeated (retain attempt) table)

retain_loop-Unrepeated :
    (table : List UnresolvedInsert) (attempts : List Attempt)
    → Unrepeated table
    → Unrepeated (retain_loop table attempts)
unfolding retain_loop
retain_loop-Unrepeated table [] u = u
retain_loop-Unrepeated table (attempt ∷ rest) u =
    retain_loop-Unrepeated (retain_step table attempt) rest (retain_step-Unrepeated table attempt u)

-- Under each attempt id the retained list has the entry that the existing list has (its last one
-- of that id), unchanged; where it has none, the entry of the first unresolved insert attempt of
-- that id; and where there is none either, nothing. No attempt id stands in it twice.
pub retained_from-find :
    (id : Key) (existing : List UnresolvedInsert) (attempts : List Attempt)
    → (find (names_attempt id) (retained_from existing attempts)
        ≡ either_of (find_last (names_attempt id) existing) (retained_attempt id attempts))
      × Unrepeated (retained_from existing attempts)
unfolding retained_from
retained_from-find id existing attempts = (
  ground (
    arith,
    find-retain_loop id (by_attempt [] existing) attempts,
    find-by_attempt id [] existing,
  ),
  retain_loop-Unrepeated (by_attempt [] existing) attempts (by_attempt-Unrepeated [] existing tt),
)
