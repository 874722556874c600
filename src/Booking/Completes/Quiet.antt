-- ===== src/Booking/Completes/Quiet.antt =====
-- lib/booking/ops.ts: the calls of a worker while no other worker commits.
use marlo_scheduling.Prelude.{ℕ, ◌+◌, ◌≡◌, refl, ap, Option, []}
use marlo_scheduling.Rows.{Key, BookingRow}
use marlo_scheduling.Store.{MemoryBookingStore, MemoryTx, Result, ok, err, locked, get_by_id}
use marlo_scheduling.Lifecycle.Errors.{Failure}
use marlo_scheduling.Lifecycle.World.{
  Context, new_uuid, now, World, Step, with_host_lock, on_store, take_turn, settle_commit, catch,
  ◌>>◌,
}
use marlo_scheduling.Lifecycle.Reap.{read_row}
use marlo_scheduling.Booking.Replay.{bind-ok}

abbrev pub quiet_with : {C : Type 0} → World C → MemoryBookingStore → World C
quiet_with w s = record w { store = s; turns = [] }

pub locked_once :
    {C A : Type 0} (host_id : Key) (fn : ℕ → MemoryTx → Result Failure A × MemoryTx) (w : World C)
    (a : A) (s : MemoryBookingStore)
    → locked {E = Failure} (fn w.now) w.store ≡ (ok a, s)
    → with_host_lock host_id fn (quiet_with w w.store) ≡ (ok a, quiet_with w s)
unfolding with_host_lock take_turn settle_commit
locked_once host_id fn w a s e = rw e refl

pub read_once :
    {C : Type 0} (w : World C) (s : MemoryBookingStore) (id : Key) (r : Option BookingRow)
    → get_by_id s id ≡ r
    → read_row id (quiet_with w s) ≡ (ok r, quiet_with w s)
unfolding read_row on_store take_turn
read_once w s id r e = rw e refl

pub catch_ok :
    {C A : Type 0} (m : Step C A) (handler : Failure → Step C A) (w w' : World C) (a : A)
    → m w ≡ (ok a, w')
    → catch m handler w ≡ (ok a, w')
unfolding catch
catch_ok {C} {A} m handler w w' a e = ap finish e
  where
    finish : Result Failure A × World C → Result Failure A × World C
    finish (r, v) = elim r [ ok x ↦ (ok x, v) | err x ↦ handler x v ]

-- A step whose answer is not used.
pub then_ok :
    {C A B : Type 0} (m : Step C A) (n : Step C B) (w w' : World C) (a : A)
    → m w ≡ (ok a, w')
    → (m >> n) w ≡ n w'
unfolding ◌>>◌
then_ok m n w w' a e = bind-ok m (λ _. n) w w' a e

pub new_uuid_once :
    {C : Type 0} (ctx : Context C) (w : World C) (s : MemoryBookingStore)
    → new_uuid ctx (quiet_with w s)
      ≡ (ok (ctx.uuid w.drawn), quiet_with (record w { drawn = w.drawn + 1 }) s)
unfolding new_uuid
new_uuid_once ctx w s = refl

pub now_once :
    {C : Type 0} (w : World C) (s : MemoryBookingStore)
    → now (quiet_with w s) ≡ (ok w.now, quiet_with w s)
unfolding now
now_once w s = refl
