-- ===== src/Booking/Keeps/Steps.antt =====
-- The steps of a worker (lib/booking/ops.ts, settle.ts) that keep the invariant of the store.
use marlo_scheduling.Prelude.{
  ℕ, ◌⊎◌, ◌≡◌, refl, Bool, true, false, Option, none, some, List, [], ◌∷◌, All, if◌then◌else◌,
  Bool-cases, inl, inr,
}
use marlo_scheduling.Rows.{Key}
use marlo_scheduling.Store.{Result-cases, MemoryBookingStore, MemoryTx, Result, ok, err}
use marlo_scheduling.Google.{
  Thrown, CalendarOutcomeClass, class_applied, class_definite, class_ambiguous,
  class_precondition_failed, class_already_exists,
}
use marlo_scheduling.Lifecycle.Errors.{Failure}
use marlo_scheduling.Lifecycle.World.{
  Turn, World, Step, Context, pure, throw, catch, ◌>>=◌, ◌>>◌, take_turn, settle_commit, CommitFate,
  answered, lost_committed, lost_rolled_back, refused, now, new_uuid, on_store, with_host_lock,
  with_finished_transaction, on_calendar,
}
use marlo_scheduling.Booking.Invariant.{Inv}
use marlo_scheduling.Booking.Transactions.{TxKeeps, locked-Inv}

-- A turn that keeps the invariant, whatever the store it finds.
abbrev pub KeepingTurn : Turn → Type 0
KeepingTurn turn = (s : MemoryBookingStore) → Inv s → Inv (turn.others s)

pub record Good {C : Type 0} (w : World C) : Type 0 where
  pub inv : Inv w.store
  pub turns : All KeepingTurn w.turns

pub record Keeps (C A : Type 0) (m : Step C A) : Type 0 where
  pub good : (w : World C) → Good w → Good (m w).1

take_turn-Good : {C : Type 0} (w : World C) → Good w → Good (take_turn w).1
unfolding take_turn
take_turn-Good w g = turned w.turns g.turns
  where
    turned : (ts : List Turn) → All KeepingTurn ts → Good (take_turn (record w { turns = ts })).1
    turned [] h = record { inv = g.inv; turns = h }
    turned (t ∷ ts) h = record { inv = h.0 _ g.inv; turns = h.1 }

settle_commit-Inv :
    {A : Type 0} (fate : CommitFate) (before : MemoryBookingStore)
    (r : Result Failure A × MemoryBookingStore)
    → Inv before
    → Inv r.1
    → Inv (settle_commit fate before r).1
unfolding settle_commit
settle_commit-Inv fate before (err e, after) b a = a
settle_commit-Inv answered before (ok x, after) b a = a
settle_commit-Inv lost_committed before (ok x, after) b a = a
settle_commit-Inv lost_rolled_back before (ok x, after) b a = b
settle_commit-Inv refused before (ok x, after) b a = b

module _ {C A : Type 0} where
  pub pure-Keeps : (a : A) → Keeps C A (pure a)
  pure-Keeps a = record { good = λ w g. g }

  pub throw-Keeps : (e : Failure) → Keeps C A (throw e)
  throw-Keeps e = record { good = λ w g. g }

  pub if-Keeps :
      (b : Bool) (m n : Step C A) → Keeps C A m → Keeps C A n → Keeps C A (if b then m else n)
  if-Keeps true m n hm hn = hm
  if-Keeps false m n hm hn = hn

  pub catch-Keeps :
      (m : Step C A) (handler : Failure → Step C A)
      → Keeps C A m
      → ((e : Failure) → Keeps C A (handler e))
      → Keeps C A (catch m handler)
  unfolding catch
  catch-Keeps m handler hm hh = record {
    good = λ w g. elim (Result-cases (m w).0) [
      | inl (a, e) ↦ rw (e, catch) (hm.good w g)
      | inr (x, e) ↦ rw (e, catch) ((hh x).good (m w).1 (hm.good w g))
    ];
  }

  pub on_calendar-Keeps : (call : C → Result Thrown A × C) → Keeps C A (on_calendar call)
  unfolding on_calendar
  on_calendar-Keeps call = record {
    good = λ w g. elim (Result-cases (call w.calendar).0) [
      | inl (a, e) ↦ rw (e, on_calendar) (record { inv = g.inv; turns = g.turns })
      | inr (x, e) ↦ rw (e, on_calendar) (record { inv = g.inv; turns = g.turns })
    ];
  }

  pub on_store-Keeps :
      (call : MemoryBookingStore → A × MemoryBookingStore)
      → ((s : MemoryBookingStore) → Inv s → Inv (call s).1)
      → Keeps C A (on_store call)
  unfolding on_store
  on_store-Keeps call h = record {
    good = λ w g. let g' = take_turn-Good w g in record { inv = h _ g'.inv; turns = g'.turns };
  }

  pub with_host_lock-Keeps :
      (host_id : Key) (fn : ℕ → MemoryTx → Result Failure A × MemoryTx)
      → ((t : ℕ) → TxKeeps (fn t))
      → Keeps C A (with_host_lock host_id fn)
  unfolding with_host_lock
  with_host_lock-Keeps host_id fn h = record {
    good = λ w g.
        let g' = take_turn-Good w g in
        record {
          inv = settle_commit-Inv _ _ _ g'.inv (locked-Inv (fn _) _ (h _) g'.inv);
          turns = g'.turns;
        };
  }

  pub with_finished_transaction-Keeps :
      (host_id : Key) (fn : ℕ → MemoryTx → Result Failure A × MemoryTx)
      → ((t : ℕ) → TxKeeps (fn t))
      → Keeps C A (with_finished_transaction host_id fn)
  unfolding with_finished_transaction
  with_finished_transaction-Keeps host_id fn h = record {
    good = λ w g. elim (Bool-cases w.store.lock_unavailable) [
      | inl e ↦ simp e g
      | inr e ↦ simp e ((with_host_lock-Keeps host_id fn h).good w g)
    ];
  }

module _ {C A X : Type 0} where
  pub option-Keeps :
      (o : Option X) (m : Step C A) (f : X → Step C A)
      → Keeps C A m
      → ((x : X) → Keeps C A (f x))
      → Keeps C A (elim o [ none ↦ m | some x ↦ f x ])
  option-Keeps none m f hm hf = hm
  option-Keeps (some x) m f hm hf = hf x

pub class_cases :
    (c : CalendarOutcomeClass)
    → (c ≡ class_definite)
      ⊎ (c ≡ class_already_exists)
      ⊎ (c ≡ class_applied)
      ⊎ (c ≡ class_ambiguous)
      ⊎ (c ≡ class_precondition_failed)
class_cases class_definite = inl refl
class_cases class_already_exists = inr (inl refl)
class_cases class_applied = inr (inr (inl refl))
class_cases class_ambiguous = inr (inr (inr (inl refl)))
class_cases class_precondition_failed = inr (inr (inr (inr refl)))

module _ {C A B : Type 0} where
  pub bind-Keeps :
      (m : Step C A) (f : A → Step C B)
      → Keeps C A m
      → ((a : A) → Keeps C B (f a))
      → Keeps C B (m >>= f)
  unfolding ◌>>=◌
  bind-Keeps m f hm hf = record {
    good = λ w g. elim (Result-cases (m w).0) [
      | inl (a, e) ↦ rw (e, ◌>>=◌) ((hf a).good (m w).1 (hm.good w g))
      | inr (x, e) ↦ rw (e, ◌>>=◌) (hm.good w g)
    ];
  }

  pub then-Keeps : (m : Step C A) (n : Step C B) → Keeps C A m → Keeps C B n → Keeps C B (m >> n)
  unfolding ◌>>◌
  then-Keeps m n hm hn = bind-Keeps m _ hm λ _. hn

module _ {C : Type 0} where
  pub now-Keeps : Keeps C ℕ now
  unfolding now
  now-Keeps = record { good = λ w g. g }

  pub new_uuid-Keeps : (ctx : Context C) → Keeps C Key (new_uuid ctx)
  unfolding new_uuid
  new_uuid-Keeps ctx = record { good = λ w g. record { inv = g.inv; turns = g.turns } }
