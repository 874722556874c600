-- ===== src/Booking/Invariant.antt =====
-- The invariant of the store: no two bookings of a host overlap, and each row satisfies CF-1 to
-- CF-3 of lib/booking/rows.ts.
use marlo_scheduling.Prelude.{
  ◌≡◌, ◌≢◌, sym, inl, inr, Bool, true, false, List, [], ◌∷◌, arith, All, All-put, All-adjust,
  All-map, put, adjust, ◌==◌, ◌∙◌, ==→≡, Bool-cases,
}
use marlo_scheduling.Rows.{BookingRow, Interval, overlaps, holds_invariants}
use marlo_scheduling.Store.{MemoryBookingStore, has_id}
use marlo_scheduling.Store.Occupancy.{Occupies}

-- Two rows of one host occupy no overlapping intervals.
unfoldable pub Clear : BookingRow → BookingRow → Type 0
Clear a b =
    a.host_id ≡ b.host_id → (i j : Interval) → Occupies a i → Occupies b j → overlaps i j ≡ false

-- Two rows with different ids that are clear of one another.
pub record Apart (a b : BookingRow) : Type 0 where
  pub ids_differ : a.id ≢ b.id
  pub clear : Clear a b

abbrev pub AllApart : List BookingRow → Type 0
AllApart [] = Unit
AllApart (row ∷ rows) = All (Apart row) rows × AllApart rows

pub record Inv (store : MemoryBookingStore) : Type 0 where
  pub apart : AllApart store.rows
  pub finalization : All (λ row. holds_invariants row ≡ true) store.rows

overlaps_comm : (i j : Interval) → overlaps i j ≡ overlaps j i
unfolding overlaps
overlaps_comm i j = ground arith

pub Clear-sym : (a b : BookingRow) → Clear a b → Clear b a
unfolding Clear
Clear-sym a b h e i j oi oj = rw (overlaps_comm i j) (h (sym e) j i oj oi)

pub Apart-sym : (a b : BookingRow) → Apart a b → Apart b a
Apart-sym a b h = record { ids_differ = λ p. h.ids_differ (sym p); clear = Clear-sym a b h.clear }

-- A change of a row that takes no more of the host's time.
pub record Shrinks (a b : BookingRow) : Type 0 where
  pub same_id : b.id ≡ a.id
  pub same_host : b.host_id ≡ a.host_id
  pub within : (i : Interval) → Occupies b i → Occupies a i

pub Apart-Shrinks : (a b c : BookingRow) → Shrinks b c → Apart a b → Apart a c
unfolding Clear
Apart-Shrinks a b c s h = record {
  ids_differ = λ p. h.ids_differ (p ∙ s.same_id);
  clear = λ e i j oi oj. h.clear (e ∙ s.same_host) i j oi (s.within j oj);
}

All-Apart-Shrinks :
    (a b : BookingRow) (rows : List BookingRow)
    → Shrinks a b
    → All (Apart a) rows
    → All (Apart b) rows
All-Apart-Shrinks a b rows s h =
    All-map (λ x k. Apart-sym x b (Apart-Shrinks x a b s (Apart-sym a x k))) rows h

-- A write to one row that shrinks it keeps the rows apart.
pub AllApart-adjust :
    (p : BookingRow → Bool) (f : BookingRow → BookingRow) (rows : List BookingRow)
    → ((r : BookingRow) → Shrinks r (f r))
    → AllApart rows
    → AllApart (adjust p f rows)
AllApart-adjust p f [] s h = tt
AllApart-adjust p f (r ∷ rows) s h = elim (Bool-cases (p r)) [
  | inl t ↦ rw t (All-Apart-Shrinks r (f r) rows (s r) h.0, h.1)
  | inr t ↦ rw t (
    All-adjust (Apart r) p f rows (λ x _ k. Apart-Shrinks r x (f x) (s x) k) h.0,
    AllApart-adjust p f rows s h.1,
  )
]

-- A row that is clear of all rows may be added, or put in the place of the row of its id.
pub AllApart-put :
    (e : BookingRow) (rows : List BookingRow)
    → All (Clear e) rows
    → AllApart rows
    → AllApart (put (has_id e.id) e rows)
AllApart-put e [] new h = (tt, tt)
AllApart-put e (r ∷ rows) new h = elim (Bool-cases (r.id == e.id)) [
  | inl t ↦ rw t (replaced e r rows (==→≡ r.id e.id t) h.0 new.1, h.1)
  | inr t ↦ rw t (
    All-put (Apart r) (has_id e.id) e rows h.0
        (record { ids_differ = ground arith; clear = Clear-sym e r new.0 }),
    AllApart-put e rows new.1 h.1,
  )
]
  where
    replaced :
        (e r : BookingRow) (rows : List BookingRow)
        → r.id ≡ e.id
        → All (Apart r) rows
        → All (Clear e) rows
        → All (Apart e) rows
    replaced e r [] p h k = tt
    replaced e r (x ∷ xs) p h k = (
      record { ids_differ = λ q. h.0.ids_differ (p ∙ q); clear = k.0 },
      replaced e r xs p h.1 k.1,
    )
