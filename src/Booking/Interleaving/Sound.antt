-- ===== src/Booking/Interleaving/Sound.antt =====
-- lib/booking/rows.ts: what holds of a row between two transactions of the lifecycle, beyond CF-1
-- to CF-3, and the patches that keep it.
use marlo_scheduling.Prelude.{
  ℕ, ◌≡◌, refl, Bool, true, false, not, ◌&&◌, ◌==◌, Option, none, some, List, [], ◌∷◌, arith,
  is_none, Option-cases, inl, inr,
}
use marlo_scheduling.Rows.{
  Key, Instant, BookingRow, PendingOp, OpKind, Attempt, AttemptOutcome, UnresolvedInsert, Interval,
  CalendarState, holds_invariants, is_pending,
}
use marlo_scheduling.Store.{apply_patch, on_op, settle_row, drop_attempt, stamp_one, stamp_row}
use marlo_scheduling.Lifecycle.Create.T2.{completion_patch}
use marlo_scheduling.Lifecycle.Cancel.T1.{start_patch}
use marlo_scheduling.Lifecycle.Cancel.T2.{
  cancel_patch, t2_prime_patch, released_patch, restored_patch, restored_create,
}
use marlo_scheduling.Lifecycle.Reschedule.T1.{reserve_patch}
use marlo_scheduling.Lifecycle.Reschedule.T2.{Resulting, move_patch}
use marlo_scheduling.Lifecycle.Repair.T2.{repair_patch, clear_patch}
use marlo_scheduling.Booking.Cancelled.{is_carried}

abbrev pub same_instant : Option Instant → Option Instant → Bool
same_instant (some a) (some b) = a == b
same_instant _ _ = false

-- A creation is finalized, unless a create is open, or a cancel that carries it.
abbrev pub is_accounted : BookingRow → Bool
is_accounted row = elim row.pending_op [
  | none ↦ true
  | some op ↦ elim op.kind [
    | OpKind.create ↦ true
    | OpKind.cancel ↦ is_carried row
    | _ ↦ not (is_none row.latest_action)
  ]
]

-- An open reschedule has its destination reserved.
abbrev pub holds_destination : BookingRow → Bool
holds_destination row = elim row.pending_op [
  | none ↦ true
  | some op ↦ elim op.kind [
    | OpKind.reschedule ↦
        same_instant op.new_start row.reserved_start && same_instant op.new_end row.reserved_end
    | _ ↦ true
  ]
]

unfoldable pub is_sound : BookingRow → Bool
is_sound row = holds_invariants row && is_accounted row && holds_destination row

abbrev pub Sound : BookingRow → Type 0
Sound row = is_sound row ≡ true

pub renewed-Sound :
    (op_id : Key) (gen : ℕ) (t : Instant) (r : BookingRow)
    → Sound r
    → Sound (on_op op_id (λ (op : PendingOp). record op { gen = gen; started_at = t }) r)
unfolding is_sound holds_invariants
renewed-Sound op_id gen t r h = ground arith

pub pushed-Sound :
    (op_id : Key) (attempts : PendingOp → List Attempt) (r : BookingRow)
    → Sound r
    → Sound (on_op op_id (λ (op : PendingOp). record op { attempts = attempts op }) r)
unfolding is_sound holds_invariants
pushed-Sound op_id attempts r h = ground arith

pub settled-Sound :
    (a : Key) (outcome : AttemptOutcome) (t : Instant) (r : BookingRow)
    → Sound r
    → Sound (settle_row a outcome t r)
unfolding is_sound holds_invariants
settled-Sound a outcome t r h = ground arith

pub dropped-Sound : (a : Key) (r : BookingRow) → Sound r → Sound (drop_attempt a r)
unfolding is_sound holds_invariants drop_attempt
dropped-Sound a r h = h

pub stamped-Sound :
    (ids : List Key) (t : Instant) (r : BookingRow) → Sound r → Sound (stamp_row ids t r)
unfolding stamp_row is_sound holds_invariants
stamped-Sound [] t r h = h
stamped-Sound (id ∷ ids) t r h = stamped-Sound ids t (stamp_one id t r) h

pub completed-Sound :
    (state : CalendarState) (etag : Option Key) (retained : List UnresolvedInsert) (r : BookingRow)
    → is_pending state ≡ false
    → Sound (apply_patch (completion_patch state etag retained) r)
unfolding is_sound holds_invariants apply_patch completion_patch
completed-Sound state etag retained r h = ground arith

pub started-Sound :
    (op : PendingOp) (r : BookingRow)
    → op.kind ≡ OpKind.cancel
    → r.pending_op ≡ none
    → Sound r
    → Sound (apply_patch (start_patch op) r)
unfolding is_sound holds_invariants apply_patch
started-Sound op r k e h = ground arith

pub repairing-Sound :
    (op : PendingOp) (r : BookingRow)
    → op.kind ≡ OpKind.calendar_repair
    → r.pending_op ≡ none
    → Sound r
    → Sound (apply_patch (start_patch op) r)
unfolding is_sound holds_invariants apply_patch
repairing-Sound op r k e h = ground arith

pub cancelled-Sound :
    (retained : List UnresolvedInsert) (r : BookingRow)
    → Sound (apply_patch (cancel_patch retained) r)
unfolding is_sound holds_invariants apply_patch cancel_patch
cancelled-Sound retained r = refl

pub t2_prime-Sound :
    (r : BookingRow) (current : PendingOp)
    → r.pending_op ≡ some current
    → current.kind ≡ OpKind.cancel
    → Sound r
    → Sound (apply_patch (t2_prime_patch r current) r)
unfolding is_sound holds_invariants apply_patch t2_prime_patch released_patch restored_patch
    restored_create
t2_prime-Sound r current e k h = elim (Option-cases r.unfinished_create) [
  | inl u ↦ rw u (ground arith)
  | inr (carry, u) ↦ rw u (ground arith)
]

pub reserved-Sound :
    (op : PendingOp) (window : Interval) (r : BookingRow)
    → op.kind ≡ OpKind.reschedule
    → op.new_start ≡ some window.start
    → op.new_end ≡ some window.end
    → r.pending_op ≡ none
    → Sound r
    → Sound (apply_patch (reserve_patch op window) r)
unfolding is_sound holds_invariants apply_patch reserve_patch
reserved-Sound op window r k p q e h = ground arith

module _ (r : BookingRow) (current : PendingOp) (e : r.pending_op ≡ some current)
    (retained : List UnresolvedInsert) where
  pub moved-Sound :
      (op : PendingOp) (resulting : Resulting)
      → current.kind ≡ OpKind.reschedule
      → Sound r
      → Sound (apply_patch (move_patch op r resulting retained) r)
  unfolding is_sound holds_invariants apply_patch move_patch
  moved-Sound op resulting k h = ground arith

  pub released-Sound :
      current.kind ≡ OpKind.reschedule → Sound r → Sound (apply_patch (released_patch retained) r)
  unfolding is_sound holds_invariants apply_patch released_patch
  released-Sound k h = ground arith

  pub repaired-Sound :
      (etag : Option Key)
      → current.kind ≡ OpKind.calendar_repair
      → Sound r
      → Sound (apply_patch (repair_patch etag retained) r)
  unfolding is_sound holds_invariants apply_patch repair_patch
  repaired-Sound etag k h = ground arith

  pub cleared-Sound :
      current.kind ≡ OpKind.calendar_repair → Sound r → Sound (apply_patch (clear_patch retained) r)
  unfolding is_sound holds_invariants apply_patch clear_patch
  cleared-Sound k h = ground arith

pub Sound-invariants : (r : BookingRow) → Sound r → holds_invariants r ≡ true
unfolding is_sound
Sound-invariants r h = ground arith

-- The destination that an open reschedule holds.
pub Sound-destination :
    (r : BookingRow) (current : PendingOp)
    → r.pending_op ≡ some current
    → current.kind ≡ OpKind.reschedule
    → Sound r
    → (window : Interval) × (current.new_start ≡ some window.start)
      × (current.new_end ≡ some window.end)
      × (r.reserved_start ≡ some window.start)
      × (r.reserved_end ≡ some window.end)
unfolding is_sound
Sound-destination r current e k h = elim (Option-cases current.new_start) [
  | inl a ↦ absurd (ground arith)
  | inr (a, p) ↦ elim (Option-cases current.new_end) [
    | inl b ↦ absurd (ground arith)
    | inr (b, q) ↦ (record { start = a; end = b }, p, q, ground arith, ground arith)
  ]
]
