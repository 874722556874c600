-- ===== src/Lifecycle/World.antt =====
-- What a worker of the lifecycle runs in: the booking store, Google's calendar, the clock, the
-- supply of uuids, and the turns that the other workers and the database take.
-- A worker is one asynchronous function. It can be interrupted at its `await`s only, so each of its
-- calls of the store is one step, and before each such step the next turn is taken: any change that
-- other workers have committed by then, the time that has passed, and what becomes of the commit.
-- A calendar call takes no turn of its own: what others commit during it is in the turn of the next
-- call of the store.
use marlo_scheduling.Prelude.{ℕ, ◌+◌, List, [], ◌∷◌, if◌then◌else◌}
use marlo_scheduling.Rows.{Key}
use marlo_scheduling.Store.{MemoryBookingStore, MemoryTx, Result, ok, err, locked}
use marlo_scheduling.Google.{CalendarClient, SendUpdates, Thrown}
use marlo_scheduling.Lifecycle.Errors.{
  Failure, LifecycleError, lifecycle, calendar, unknown_commit, outcome_unresolved, broken,
}

-- The answer to COMMIT: it arrives; it is lost, with the transaction committed or rolled back
-- (`UnknownCommitError` of lib/db); or the transaction fails definitely and is rolled back.
pub data CommitFate : Type 0 where
  answered lost_committed lost_rolled_back refused : CommitFate

pub record Turn : Type 0 where
  pub others : MemoryBookingStore → MemoryBookingStore
  pub delay : ℕ
  pub fate : CommitFate

pub record World (C : Type 0) : Type 0 where
  pub store : MemoryBookingStore
  pub calendar : C
  pub now : ℕ
  pub drawn : ℕ
  pub turns : List Turn

-- `LifecycleContext` of lib/booking/ops.ts, without the store and the clock, which are the world's,
-- and with the supply of uuids.
pub record Context (C : Type 0) : Type 0 where
  pub client : CalendarClient C
  pub calendar_id : Key
  pub send_updates : SendUpdates
  pub uuid : ℕ → Key

abbrev pub Step : Type 0 → Type 0 → Type 0
Step C A = World C → Result Failure A × World C

module _ {C A : Type 0} where
  abbrev pub pure : A → Step C A
  pure a w = (ok a, w)

  abbrev pub throw : Failure → Step C A
  throw e w = (err e, w)

  abbrev pub throw_error : LifecycleError → Step C A
  throw_error e w = (err (lifecycle e), w)

  -- `try { m } catch (error) { handler(error) }`
  unfoldable pub catch : Step C A → (Failure → Step C A) → Step C A
  catch m handler w =
      let (result, w') = m w in elim result [ ok a ↦ (ok a, w') | err e ↦ handler e w' ]

module _ {C A B : Type 0} where
  infixl 5 ◌>>=◌ ◌>>◌
  unfoldable pub ◌>>=◌ : Step C A → (A → Step C B) → Step C B
  ◌>>=◌ m f w = let (result, w') = m w in elim result [ ok a ↦ f a w' | err e ↦ (err e, w') ]

  unfoldable pub ◌>>◌ : Step C A → Step C B → Step C B
  unfolding ◌>>=◌
  m >> n = m >>= λ _. n

unfoldable pub settle_commit :
    {A : Type 0}
    → CommitFate
    → MemoryBookingStore
    → Result Failure A × MemoryBookingStore
    → Result Failure A × MemoryBookingStore
settle_commit fate before (err e, after) = (err e, after)
settle_commit answered before (ok a, after) = (ok a, after)
settle_commit lost_committed before (ok a, after) = (err unknown_commit, after)
settle_commit lost_rolled_back before (ok a, after) = (err unknown_commit, before)
settle_commit refused before (ok a, after) = (err broken, before)

module _ {C : Type 0} where
  unfoldable pub take_turn : World C → CommitFate × World C
  take_turn w = elim w.turns [
    | [] ↦ (answered, w)
    | turn ∷ rest ↦ (
      turn.fate,
      record w { store = turn.others w.store; now = w.now + turn.delay; turns = rest },
    )
  ]

  -- `ctx.clock.now()`
  unfoldable pub now : Step C ℕ
  now w = (ok w.now, w)

  -- `crypto.randomUUID()` and the like
  unfoldable pub new_uuid : Context C → Step C Key
  new_uuid ctx w = (ok (ctx.uuid w.drawn), record w { drawn = w.drawn + 1 })

  module _ {A : Type 0} where
    -- A call of the store that reads, or that writes at once.
    unfoldable pub on_store : (MemoryBookingStore → A × MemoryBookingStore) → Step C A
    unfolding take_turn
    on_store call w =
        let (fate, w') = take_turn w in
        let (a, store) = call w'.store in (ok a, record w' { store = store })

    -- `store.withHostLock(hostId, fn)`; `fn` is given the time at which it runs.
    unfoldable pub with_host_lock : Key → (ℕ → MemoryTx → Result Failure A × MemoryTx) → Step C A
    unfolding take_turn settle_commit
    with_host_lock host_id fn w =
        let (fate, w') = take_turn w in
        let (result, store) = settle_commit fate w'.store (locked (fn w'.now) w'.store) in
        (result, record w' { store = store })

    -- `store.withFinishedTransaction(hostId, fn)`
    unfoldable pub with_finished_transaction :
        Key → (ℕ → MemoryTx → Result Failure A × MemoryTx) → Step C A
    unfolding with_host_lock
    with_finished_transaction host_id fn w =
        if w.store.lock_unavailable
        then (err outcome_unresolved, w)
        else with_host_lock host_id fn w

    unfoldable pub on_calendar : (C → Result Thrown A × C) → Step C A
    on_calendar call w =
        let (result, c) = call w.calendar in
        elim result [
          | ok a ↦ (ok a, record w { calendar = c })
          | err e ↦ (err (calendar e), record w { calendar = c })
        ]
