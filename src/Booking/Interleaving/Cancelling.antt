-- ===== src/Booking/Interleaving/Cancelling.antt =====
-- lib/booking/cancel.ts: the transactions of a cancel keep the store safe.
use marlo_scheduling.Prelude.{
  ℕ, ◌≡◌, ◌∙◌, refl, Bool, true, Option, none, some, List, arith, either_of, Bool-cases,
  Option-cases, inl, inr,
}
use marlo_scheduling.Rows.{
  Key, Instant, BookingRow, PendingOp, OpKind, UnfinishedCreate, UnresolvedInsert, is_stale_op,
  holds_invariants,
}
use marlo_scheduling.Store.{
  MemoryBookingStore, RowPatch, get_by_id, select_for_update, may_update, owns, apply_patch,
}
use marlo_scheduling.Store.Occupancy.{Occupies}
use marlo_scheduling.Lifecycle.Cancel.{CancelRequest, carried_create}
use marlo_scheduling.Lifecycle.Cancel.T1.{
  cancel_t1_tx, cancel_open, cancel_start, cancel_op, start_update, is_other_state,
  replace_inherited_tx, replacing_update, replacing_patch,
}
use marlo_scheduling.Lifecycle.Cancel.T2.{
  cancel_t2_tx, cancel_t2_prime_tx, cancel_patch, t2_prime_patch, owned, retained_of,
}
use marlo_scheduling.Booking.Invariant.{Shrinks}
use marlo_scheduling.Booking.Cancelled.{t2_prime-Shrinks}
use marlo_scheduling.Booking.Carried.{start-Shrinks, replaced-Shrinks}
use marlo_scheduling.Booking.Owned.{Shrinks-Apart, get_by_id_self}
use marlo_scheduling.Booking.Interleaving.Sound.{
  Sound, is_sound, started-Sound, cancelled-Sound, t2_prime-Sound,
}
use marlo_scheduling.Booking.Interleaving.Base.{
  KeepsSafe, untouched-Safe, update-TxSafe, take_over_op-Safe,
}

-- A row that names the worker's op id has an op of the kind and the target that the worker knows:
-- op ids are not used twice.
abbrev pub IsCopy : PendingOp → Key → MemoryBookingStore → Type 0
IsCopy op id s =
    (fresh : BookingRow) (current : PendingOp)
    → get_by_id s id ≡ some fresh
    → fresh.pending_op ≡ some current
    → current.op_id ≡ op.op_id
    → (current.kind ≡ op.kind) × (current.new_start ≡ op.new_start) × (current.new_end ≡ op.new_end)

-- An update that is made under an op finds the row naming it.
pub owned-names :
    (row fresh : BookingRow) (op current : PendingOp) (patch : RowPatch)
    → fresh.pending_op ≡ some current
    → may_update (owned row fresh op patch) fresh ≡ true
    → current.op_id ≡ op.op_id
unfolding may_update owns
owned-names row fresh op current patch e t = ground arith

cancel_start-Safe :
    (row : BookingRow) (op_id : Key) (time : ℕ) (s : MemoryBookingStore)
    → get_by_id s row.id ≡ some row
    → row.pending_op ≡ none
    → KeepsSafe (cancel_start row op_id time) s
unfolding cancel_start cancel_op
cancel_start-Safe row op_id time s h e v =
    let op = cancel_op row op_id time in
    let kept =
      update-TxSafe (start_update row op) s row h
        (λ u x m. Shrinks-Apart row _ x (start-Shrinks row op)) (λ t. started-Sound op row refl e)
        v in
    simp h kept

cancel_open-Safe :
    (row : BookingRow) (op : PendingOp) (op_id : Key) (time : ℕ) (s : MemoryBookingStore)
    → KeepsSafe (cancel_open row op op_id time) s
unfolding cancel_open
cancel_open-Safe row op op_id time s v = elim (Bool-cases (is_stale_op op time)) [
  | inl b ↦ rw b (take_over_op-Safe row op time s v)
  | inr b ↦ rw b (untouched-Safe s v)
]

pub cancel_t1_tx-Safe :
    (request : CancelRequest) (op_id : Key) (time : ℕ) (s : MemoryBookingStore)
    → KeepsSafe (cancel_t1_tx request op_id time) s
unfolding cancel_t1_tx select_for_update
cancel_t1_tx-Safe request op_id time s v = elim (Option-cases (get_by_id s request.booking_id)) [
  | inl h ↦ simp h (untouched-Safe s v)
  | inr (row, h) ↦ elim (Bool-cases (is_other_state row request.expected_revision)) [
    | inl b ↦ simp (h, b) (untouched-Safe s v)
    | inr b ↦ elim (Option-cases row.pending_op) [
      | inl e ↦
          simp (h, b, e)
            (cancel_start-Safe row op_id time s (get_by_id_self s request.booking_id row h) e v)
      | inr (op, e) ↦ simp (h, b, e) (cancel_open-Safe row op op_id time s v)
    ]
  ]
]

cancel-Shrinks :
    (retained : List UnresolvedInsert) (fresh : BookingRow)
    → Shrinks fresh (apply_patch (cancel_patch retained) fresh)
unfolding Occupies apply_patch cancel_patch
cancel-Shrinks retained fresh = record {
  same_id = refl;
  same_host = refl;
  within = λ i. ground arith;
}

pub cancel_t2_tx-Safe :
    (row : BookingRow) (op : PendingOp) (s : MemoryBookingStore) → KeepsSafe (cancel_t2_tx row op) s
unfolding cancel_t2_tx select_for_update
cancel_t2_tx-Safe row op s v = elim (Option-cases (get_by_id s row.id)) [
  | inl h ↦ simp h (untouched-Safe s v)
  | inr (fresh, h) ↦ elim (Option-cases fresh.pending_op) [
    | inl e ↦ simp (h, e) (untouched-Safe s v)
    | inr (current, e) ↦
        let retained = retained_of fresh current in
        let kept =
          update-TxSafe (owned row fresh op (cancel_patch retained)) s fresh h
            (λ u x m. Shrinks-Apart fresh _ x (cancel-Shrinks retained fresh))
            (λ t k. cancelled-Sound retained fresh) v in
        simp (h, e) kept
  ]
]

pub cancel_t2_prime_tx-Safe :
    (row : BookingRow) (op : PendingOp) (s : MemoryBookingStore)
    → op.kind ≡ OpKind.cancel
    → IsCopy op row.id s
    → KeepsSafe (cancel_t2_prime_tx row op) s
unfolding cancel_t2_prime_tx select_for_update
cancel_t2_prime_tx-Safe row op s kind copy v = elim (Option-cases (get_by_id s row.id)) [
  | inl h ↦ simp h (untouched-Safe s v)
  | inr (fresh, h) ↦ elim (Option-cases fresh.pending_op) [
    | inl e ↦ simp (h, e) (untouched-Safe s v)
    | inr (current, e) ↦
        let patch = t2_prime_patch fresh current in
        let kept =
          update-TxSafe (owned row fresh op patch) s fresh h
            (λ u x m. Shrinks-Apart fresh _ x (t2_prime-Shrinks fresh current))
            (λ t.
              t2_prime-Sound fresh current e
                ((copy fresh current h e (owned-names row fresh op current patch e t)).0 ∙ kind))
            v in
        simp (h, e) kept
  ]
]

unowned :
    (fresh : BookingRow) (op_id : Key) (gen : Option ℕ)
    → fresh.pending_op ≡ none
    → owns fresh op_id gen ≡ true
    → ⊥
unfolding owns
unowned fresh op_id gen e o = ground arith

-- The row as T1 of the cancel read it, of as long as it names the op that was taken over.
abbrev pub IsUnchanged : BookingRow → PendingOp → MemoryBookingStore → Type 0
IsUnchanged row inherited s =
    (fresh : BookingRow) (current : PendingOp)
    → get_by_id s row.id ≡ some fresh
    → fresh.pending_op ≡ some current
    → owns fresh inherited.op_id (some inherited.gen) ≡ true
    → (current.kind ≡ inherited.kind)
      × (fresh.latest_action ≡ row.latest_action)
      × (fresh.unfinished_create ≡ row.unfinished_create)

module _ (row : BookingRow) (inherited op : PendingOp) (event_id : Key) (started_at : Instant)
    (release : Bool) (kind : op.kind ≡ OpKind.cancel) where
  abbrev carry : Option UnfinishedCreate
  carry = either_of (carried_create row inherited event_id started_at) row.unfinished_create

  replaced-Sound :
      (fresh : BookingRow) (current : PendingOp)
      → fresh.pending_op ≡ some current
      → current.kind ≡ inherited.kind
      → fresh.latest_action ≡ row.latest_action
      → fresh.unfinished_create ≡ row.unfinished_create
      → Sound fresh
      → Sound (apply_patch (replacing_patch op carry release) fresh)
  unfolding is_sound holds_invariants apply_patch replacing_patch
  replaced-Sound fresh current e k l u h = ground arith

  replacing-owns :
      (fresh : BookingRow)
      → may_update (replacing_update row inherited fresh op carry release) fresh ≡ true
      → owns fresh inherited.op_id (some inherited.gen) ≡ true
  unfolding may_update replacing_update
  replacing-owns fresh t = ground arith

  pub replace_inherited_tx-Safe :
      (s : MemoryBookingStore)
      → IsUnchanged row inherited s
      → KeepsSafe (replace_inherited_tx row inherited op carry release) s
  unfolding replace_inherited_tx select_for_update replacing_update
  replace_inherited_tx-Safe s same v = elim (Option-cases (get_by_id s row.id)) [
    | inl h ↦ simp h (untouched-Safe s v)
    | inr (fresh, h) ↦
        let self = get_by_id_self s row.id fresh h in
        let kept =
          update-TxSafe (replacing_update row inherited fresh op carry release) s fresh self
            (λ u x m.
              Shrinks-Apart fresh _ x
                (replaced-Shrinks row fresh inherited op event_id started_at release))
            (λ t k. replaced_fresh s same fresh h (replacing-owns fresh t) k) v in
        simp (h, self) kept
  ]
    where
      replaced_fresh :
          (s : MemoryBookingStore)
          → IsUnchanged row inherited s
          → (fresh : BookingRow) → get_by_id s row.id ≡ some fresh
          → owns fresh inherited.op_id (some inherited.gen) ≡ true
          → Sound fresh
          → Sound (apply_patch (replacing_patch op carry release) fresh)
      replaced_fresh s same fresh h o k = elim (Option-cases fresh.pending_op) [
        | inl e ↦ absurd (unowned fresh inherited.op_id (some inherited.gen) e o)
        | inr (current, e) ↦
            let (kinds, action, unfinished) = same fresh current h e o in
            replaced-Sound fresh current e kinds action unfinished k
      ]
