-- ===== src/Booking/Owned.antt =====
-- lib/booking/memory-store.ts: an update of the row that a transaction has read.
use marlo_scheduling.Prelude.{
  ◌&&◌, ◌≡◌, refl, sym, subst, Bool, true, false, some, List, [], ◌∷◌, arith, All, In, inl, inr,
  find, adjust, Bool-cases, find-adjust_self, All-intro, All-In, ==-refl, ==→≡, find-In,
}
use marlo_scheduling.Rows.{Key, BookingRow, PendingOp, is_confirmed}
use marlo_scheduling.Store.{
  MemoryBookingStore, RowPatch, OwnedUpdate, get_by_id, has_id, on_row, may_update, owns,
  apply_patch, apply_write, patch_row, queue_if, commit,
}
use marlo_scheduling.Lifecycle.Cancel.T2.{owned}
use marlo_scheduling.Booking.Invariant.{Inv, Apart, Shrinks, Apart-sym, Apart-Shrinks, AllApart}
use marlo_scheduling.Booking.Writes.{HoldsCf}
use marlo_scheduling.Booking.Transactions.{opened, TxInv}

-- A change of the first entry that a test picks.
pub All-adjust_found :
    {A : Type 0} (P : A → Type 0) (p : A → Bool) (f : A → A) (a : A) (xs : List A)
    → find p xs ≡ some a
    → (P a → P (f a))
    → All P xs
    → All P (adjust p f xs)
All-adjust_found P p f a [] e k h = tt
All-adjust_found P p f a (x ∷ xs) e k h = elim (Bool-cases (p x)) [
  | inl t ↦
      let same : x ≡ a = ground arith in
      rw t (subst (λ y. P (f y)) (sym same) (k (subst P same h.0)), h.1)
  | inr t ↦ rw t (h.0, All-adjust_found P p f a xs (rw t at e) k h.1)
]

pub AllApart-found :
    (p : BookingRow → Bool) (f : BookingRow → BookingRow) (a : BookingRow) (rows : List BookingRow)
    → find p rows ≡ some a
    → ((x : BookingRow) → In x rows → Apart a x → Apart (f a) x)
    → AllApart rows
    → AllApart (adjust p f rows)
AllApart-found p f a [] e k h = tt
AllApart-found p f a (r ∷ rows) e k h = elim (Bool-cases (p r)) [
  | inl t ↦
      let same : r ≡ a = ground arith in
      rw t (
        All-intro (Apart (f r)) rows (λ x m.
            subst (λ y. Apart (f y) x) (sym same)
              (k x (inr m) (subst (λ y. Apart y x) same (All-In (Apart r) x rows h.0 m)))),
        h.1,
      )
  | inr t ↦ rw t (
    All-adjust_found (Apart r) p f a rows (rw t at e)
        (λ q. Apart-sym (f a) r (k r (inl refl) (Apart-sym r a q))) h.0,
    AllApart-found p f a rows (rw t at e) (λ x m. k x (inr m)) h.1,
  )
]

-- A change of the row that stands under an id keeps the invariant if the changed row stays apart
-- from every other row and satisfies CF-1 to CF-3.
pub on_row_found-Inv :
    (id : Key) (f : BookingRow → BookingRow) (store : MemoryBookingStore) (a : BookingRow)
    → get_by_id store id ≡ some a
    → ((x : BookingRow) → In x store.rows → Apart a x → Apart (f a) x)
    → (HoldsCf a → HoldsCf (f a))
    → Inv store
    → Inv (on_row id f store)
unfolding get_by_id
on_row_found-Inv id f store a e apart cf v = record {
  apart = AllApart-found (has_id id) f a store.rows e apart v.apart;
  finalization = All-adjust_found HoldsCf (has_id id) f a store.rows e cf v.finalization;
}

pub Shrinks-Apart : (a b x : BookingRow) → Shrinks a b → Apart a x → Apart b x
Shrinks-Apart a b x s h = Apart-sym x b (Apart-Shrinks x a b s (Apart-sym a x h))

-- An update that is queued if its condition holds of the row that was read.
pub update-TxInv :
    (u : OwnedUpdate) (s : MemoryBookingStore) (fresh : BookingRow)
    → get_by_id s u.id ≡ some fresh
    → ((x : BookingRow) → In x s.rows → Apart fresh x → Apart (apply_patch u.patch fresh) x)
    → (HoldsCf fresh → HoldsCf (apply_patch u.patch fresh))
    → Inv s
    → TxInv (queue_if (may_update u fresh) (patch_row u.id u.patch) (opened s)).1
unfolding commit apply_write
update-TxInv u s fresh h apart cf v = elim (Bool-cases (may_update u fresh)) [
  | inl t ↦ rw t (record {
    dropped = v;
    committed = on_row_found-Inv u.id (apply_patch u.patch) s fresh h apart cf v;
  })
  | inr t ↦ rw t (record { dropped = v; committed = v })
]

-- The condition of an update made under an op is that the row is confirmed and still names it.
module _ (row fresh : BookingRow) (op : PendingOp) (patch : RowPatch) where
  pub may_update-lost :
      (is_confirmed fresh.status && owns fresh op.op_id (some op.gen)) ≡ false
      → may_update (owned row fresh op patch) fresh ≡ false
  unfolding may_update
  may_update-lost o = ground arith

  pub may_update-owned :
      is_confirmed fresh.status ≡ true
      → owns fresh op.op_id (some op.gen) ≡ true
      → may_update (owned row fresh op patch) fresh ≡ true
  unfolding may_update
  may_update-owned c o = simp (==-refl fresh.revision, c, o) refl

-- The row that stands under the id afterwards is the one read with exactly the patch.
pub on_row-stored :
    (id : Key) (patch : RowPatch) (s : MemoryBookingStore) (fresh : BookingRow)
    → get_by_id s id ≡ some fresh
    → get_by_id (on_row id (apply_patch patch) s) id ≡ some (apply_patch patch fresh)
unfolding get_by_id
on_row-stored id patch s fresh h =
    find-adjust_self (has_id id) (apply_patch patch) fresh s.rows (unfold apply_patch in λ x t. t) h

-- A row stands under its own id.
pub get_by_id_self :
    (s : MemoryBookingStore) (id : Key) (row : BookingRow)
    → get_by_id s id ≡ some row
    → get_by_id s row.id ≡ some row
unfolding get_by_id
get_by_id_self s id row h =
    let named : row.id ≡ id = ==→≡ row.id id (find-In (has_id id) row s.rows h).1 in
    subst (λ k. get_by_id s k ≡ some row) (sym named) h
