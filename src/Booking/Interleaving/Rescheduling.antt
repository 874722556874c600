-- ===== src/Booking/Interleaving/Rescheduling.antt =====
-- lib/booking/reschedule.ts and repair.ts: the transactions of a reschedule and of a repair keep
-- the store safe.
use marlo_scheduling.Prelude.{
  ℕ, ◌≡◌, ◌∙◌, sym, refl, not, ◌||◌, ◌==◌, Option, none, some, List, arith, Bool-cases,
  Option-cases, inl, inr,
}
use marlo_scheduling.Rows.{
  Key, BookingRow, PendingOp, OpKind, Interval, UnresolvedInsert, is_stale_op,
}
use marlo_scheduling.Store.{
  MemoryBookingStore, get_by_id, select_for_update, may_update, apply_patch, queue_if, patch_row,
}
use marlo_scheduling.Store.Occupancy.{Occupies}
use marlo_scheduling.Lifecycle.Cancel.T1.{is_cancel, is_other_state, start_patch}
use marlo_scheduling.Lifecycle.Cancel.T2.{owned, retained_of, released_patch}
use marlo_scheduling.Lifecycle.Reschedule.{RescheduleRequest, interval_for}
use marlo_scheduling.Lifecycle.Reschedule.T1.{
  RescheduleIds, inspect_tx, inspect_open, reschedule_t1_tx, reserve_tx, reserve_update,
  reschedule_op, is_destination_busy,
}
use marlo_scheduling.Lifecycle.Reschedule.T2.{
  Resulting, move_patch, complete_reschedule_tx, abandon_reschedule_tx,
}
use marlo_scheduling.Lifecycle.Repair.T2.{
  begin_repair_tx, begin_update, repair_op, wants_repair, repair_t2_tx, repair_update, repair_patch,
  clear_repair_tx, clear_patch,
}
use marlo_scheduling.Booking.Invariant.{Shrinks}
use marlo_scheduling.Booking.Transactions.{opened}
use marlo_scheduling.Booking.Owned.{Shrinks-Apart, get_by_id_self}
use marlo_scheduling.Booking.Carried.{start-Shrinks}
use marlo_scheduling.Booking.Reserved.{reserve-Apart}
use marlo_scheduling.Booking.Moved.{move-Shrinks}
use marlo_scheduling.Booking.Interleaving.Sound.{
  Sound, reserved-Sound, moved-Sound, released-Sound, repairing-Sound, repaired-Sound,
  cleared-Sound, Sound-destination,
}
use marlo_scheduling.Booking.Interleaving.Base.{
  Safe, TxSafe, KeepsSafe, get_by_id-Sound, untouched-Safe, update-TxSafe, take_over_op-Safe,
}
use marlo_scheduling.Booking.Interleaving.Cancelling.{IsCopy, owned-names}

inspect_open-Safe :
    (row : BookingRow) (op : PendingOp) (time : ℕ) (s : MemoryBookingStore)
    → KeepsSafe (inspect_open row op time) s
unfolding inspect_open
inspect_open-Safe row op time s v =
    elim (Bool-cases (is_cancel op.kind || not (is_stale_op op time))) [
      | inl b ↦ rw b (untouched-Safe s v)
      | inr b ↦ rw b (take_over_op-Safe row op time s v)
    ]

pub inspect_tx-Safe :
    (request : RescheduleRequest) (time : ℕ) (s : MemoryBookingStore)
    → KeepsSafe (inspect_tx request time) s
unfolding inspect_tx select_for_update
inspect_tx-Safe request time s v = elim (Option-cases (get_by_id s request.booking_id)) [
  | inl h ↦ simp h (untouched-Safe s v)
  | inr (row, h) ↦ elim (Bool-cases (is_other_state row request.expected_revision)) [
    | inl b ↦ simp (h, b) (untouched-Safe s v)
    | inr b ↦ elim (Option-cases row.pending_op) [
      | inl e ↦ simp (h, b, e) (untouched-Safe s v)
      | inr (op, e) ↦ simp (h, b, e) (inspect_open-Safe row op time s v)
    ]
  ]
]

reserve_tx-Safe :
    (row : BookingRow) (window : Interval) (ids : RescheduleIds) (time : ℕ) (s : MemoryBookingStore)
    → get_by_id s row.id ≡ some row
    → row.pending_op ≡ none
    → KeepsSafe (reserve_tx row window ids time) s
unfolding reserve_tx reschedule_op
reserve_tx-Safe row window ids time s h e v =
    elim (Bool-cases (is_destination_busy row window (opened s))) [
      | inl b ↦ rw b (untouched-Safe s v)
      | inr b ↦
          let op = reschedule_op row window ids time in
          let kept =
            update-TxSafe (reserve_update row op window) s row h
              (λ u x m. reserve-Apart row window op s x b m)
              (λ t. reserved-Sound op window row refl refl refl e) v in
          rw b (simp h kept)
    ]

pub reschedule_t1_tx-Safe :
    (request : RescheduleRequest) (ids : RescheduleIds) (time : ℕ) (s : MemoryBookingStore)
    → KeepsSafe (reschedule_t1_tx request ids time) s
unfolding reschedule_t1_tx select_for_update
reschedule_t1_tx-Safe request ids time s v = elim (Option-cases (get_by_id s request.booking_id)) [
  | inl h ↦ simp h (untouched-Safe s v)
  | inr (row, h) ↦ elim (Bool-cases (is_other_state row request.expected_revision)) [
    | inl b ↦ simp (h, b) (untouched-Safe s v)
    | inr b ↦ elim (Option-cases row.pending_op) [
      | inl e ↦
          simp (h, b, e)
            (reserve_tx-Safe row (interval_for request) ids time s
              (get_by_id_self s request.booking_id row h) e v)
      | inr (op, e) ↦ simp (h, b, e) (inspect_open-Safe row op time s v)
    ]
  ]
]

module _ (row : BookingRow) (op : PendingOp) (s : MemoryBookingStore)
    (copy : IsCopy op row.id s) where
  module _ (kind : op.kind ≡ OpKind.reschedule) where
    move_fresh-Shrinks :
        (fresh : BookingRow) (current : PendingOp) (resulting : Resulting)
        (retained : List UnresolvedInsert)
        → get_by_id s row.id ≡ some fresh
        → fresh.pending_op ≡ some current
        → current.op_id ≡ op.op_id
        → Sound fresh
        → Shrinks fresh (apply_patch (move_patch op fresh resulting retained) fresh)
    move_fresh-Shrinks fresh current resulting retained h e named sound =
        let (kinds, starts, ends) = copy fresh current h e named in
        let (window, from, until, p, q) = Sound-destination fresh current e (kinds ∙ kind) sound in
        move-Shrinks op fresh resulting window (sym starts ∙ from) (sym ends ∙ until) retained p q

    abandon_fresh-Shrinks :
        (fresh : BookingRow) (retained : List UnresolvedInsert)
        → Shrinks fresh (apply_patch (released_patch retained) fresh)
    unfolding Occupies apply_patch released_patch
    abandon_fresh-Shrinks fresh retained = record {
      same_id = refl;
      same_host = refl;
      within = λ i. ground arith;
    }

    pub abandon_reschedule_tx-Safe : KeepsSafe (abandon_reschedule_tx row op) s
    unfolding abandon_reschedule_tx select_for_update
    abandon_reschedule_tx-Safe v = elim (Option-cases (get_by_id s row.id)) [
      | inl h ↦ simp h (untouched-Safe s v)
      | inr (fresh, h) ↦ elim (Option-cases fresh.pending_op) [
        | inl e ↦ simp (h, e) (untouched-Safe s v)
        | inr (current, e) ↦
            let retained = retained_of fresh current in
            let patch = released_patch retained in
            let kept =
              update-TxSafe (owned row fresh op patch) s fresh h
                (λ u x m. Shrinks-Apart fresh _ x (abandon_fresh-Shrinks fresh retained))
                (λ t.
                  released-Sound fresh current e retained (
                    (copy fresh current h e (owned-names row fresh op current patch e t)).0 ∙ kind))
                v in
            simp (h, e) kept
      ]
    ]

    pub complete_reschedule_tx-Safe :
        (resulting : Resulting) → KeepsSafe (complete_reschedule_tx row op resulting) s
    unfolding complete_reschedule_tx select_for_update
    complete_reschedule_tx-Safe resulting v = elim (Option-cases (get_by_id s row.id)) [
      | inl h ↦ simp h (untouched-Safe s v)
      | inr (fresh, h) ↦ elim (Option-cases fresh.pending_op) [
        | inl e ↦ simp (h, e) (untouched-Safe s v)
        | inr (current, e) ↦
            let retained = retained_of fresh current in
            let patch = move_patch op fresh resulting retained in
            let kept =
              update-TxSafe (owned row fresh op patch) s fresh h
                (λ u x m. Shrinks-Apart fresh _ x (
                  move_fresh-Shrinks fresh current resulting retained h e
                    (owned-names row fresh op current patch e u)
                    (get_by_id-Sound s row.id fresh h v)))
                (λ t.
                  moved-Sound fresh current e retained op resulting (
                    (copy fresh current h e (owned-names row fresh op current patch e t)).0 ∙ kind))
                v in
            simp (h, e) kept
      ]
    ]

  module _ (kind : op.kind ≡ OpKind.calendar_repair) where
    repair-Shrinks :
        (fresh : BookingRow) (etag : Option Key) (retained : List UnresolvedInsert)
        → Shrinks fresh (apply_patch (repair_patch etag retained) fresh)
    unfolding Occupies apply_patch repair_patch
    repair-Shrinks fresh etag retained = record {
      same_id = refl;
      same_host = refl;
      within = λ i k. k;
    }

    clear-Shrinks :
        (fresh : BookingRow) (retained : List UnresolvedInsert)
        → Shrinks fresh (apply_patch (clear_patch retained) fresh)
    unfolding Occupies apply_patch clear_patch
    clear-Shrinks fresh retained = record { same_id = refl; same_host = refl; within = λ i k. k }

    pub clear_repair_tx-Safe : KeepsSafe (clear_repair_tx row op) s
    unfolding clear_repair_tx select_for_update
    clear_repair_tx-Safe v = elim (Option-cases (get_by_id s row.id)) [
      | inl h ↦ simp h (untouched-Safe s v)
      | inr (fresh, h) ↦ elim (Option-cases fresh.pending_op) [
        | inl e ↦ simp (h, e) (untouched-Safe s v)
        | inr (current, e) ↦
            let retained = retained_of fresh current in
            let patch = clear_patch retained in
            let kept =
              update-TxSafe (owned row fresh op patch) s fresh h
                (λ u x m. Shrinks-Apart fresh _ x (clear-Shrinks fresh retained))
                (λ t.
                  cleared-Sound fresh current e retained (
                    (copy fresh current h e (owned-names row fresh op current patch e t)).0 ∙ kind))
                v in
            simp (h, e) kept
      ]
    ]

    pub repair_t2_tx-Safe : (etag : Option Key) → KeepsSafe (repair_t2_tx row op etag) s
    unfolding repair_t2_tx select_for_update
    repair_t2_tx-Safe etag v = elim (Option-cases (get_by_id s row.id)) [
      | inl h ↦ simp h (untouched-Safe s v)
      | inr (fresh, h) ↦ elim (Option-cases fresh.pending_op) [
        | inl e ↦ simp (h, e) (untouched-Safe s v)
        | inr (current, e) ↦
            elim (Bool-cases (not (current.op_id == op.op_id) || not (current.gen == op.gen))) [
              | inl b ↦ simp (h, e, b) (untouched-Safe s v)
              | inr b ↦
                  let retained = retained_of fresh current in
                  let named : current.op_id ≡ op.op_id = ground arith in
                  let kept =
                    update-TxSafe (repair_update row fresh op etag retained) s fresh h
                      (λ u x m. Shrinks-Apart fresh _ x (repair-Shrinks fresh etag retained))
                      (λ t.
                        repaired-Sound fresh current e retained etag
                          ((copy fresh current h e named).0 ∙ kind))
                      v in
                  simp (h, e, b) kept
            ]
      ]
    ]

begin_repair_fresh-Safe :
    (fresh : BookingRow) (op : PendingOp) (s : MemoryBookingStore)
    → op.kind ≡ OpKind.calendar_repair
    → get_by_id s fresh.id ≡ some fresh
    → fresh.pending_op ≡ none
    → Safe s
    → TxSafe
        (queue_if
          (may_update (begin_update fresh op) fresh)
          (patch_row fresh.id (start_patch op))
          (opened s)).1
begin_repair_fresh-Safe fresh op s kind h e v =
    update-TxSafe (begin_update fresh op) s fresh h
      (λ u x m. Shrinks-Apart fresh _ x (start-Shrinks fresh op))
      (λ t. repairing-Sound op fresh kind e) v

pub begin_repair_tx-Safe :
    (id op_id event_id : Key) (time : ℕ) (s : MemoryBookingStore)
    → KeepsSafe (begin_repair_tx id op_id event_id time) s
unfolding begin_repair_tx select_for_update repair_op
begin_repair_tx-Safe id op_id event_id time s v = elim (Option-cases (get_by_id s id)) [
  | inl h ↦ simp h (untouched-Safe s v)
  | inr (fresh, h) ↦ elim (Bool-cases (wants_repair fresh)) [
    | inr b ↦ simp (h, b) (untouched-Safe s v)
    | inl b ↦
        let self = get_by_id_self s id fresh h in
        let kept =
          begin_repair_fresh-Safe fresh (repair_op op_id event_id time) s refl self (ground arith)
            v in
        simp (h, self, b) kept
  ]
]
