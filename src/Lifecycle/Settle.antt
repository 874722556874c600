-- ===== src/Lifecycle/Settle.antt =====
-- lib/booking/settle.ts: the outcome of a completing transaction whose COMMIT answer may be lost.
use marlo_scheduling.Prelude.{Bool, Option, none, some, if◌then◌else◌}
use marlo_scheduling.Rows.{BookingRow}
use marlo_scheduling.Store.{select_for_update}
use marlo_scheduling.Store.{ok}
use marlo_scheduling.Lifecycle.Errors.{Failure, outcome_unknown, unknown_commit, outcome_unresolved}
use marlo_scheduling.Lifecycle.World.{
  Step, pure, throw, throw_error, catch, ◌>>=◌, with_finished_transaction,
}

pub data Settled (A : Type 0) : Type 0 where
  settled_ok : A → Settled A
  settled_reconciled : BookingRow → Settled A
  settled_failed : Failure → Settled A

module _ {A : Type 0} where
  abbrev settled_from : (Option BookingRow → Bool) → Failure → Option BookingRow → Settled A
  settled_from did_commit e none = settled_failed e
  settled_from did_commit e (some fresh) =
      if did_commit (some fresh) then settled_reconciled fresh else settled_failed e

module _ {C A : Type 0} where
  abbrev pub unsettled : Failure → Step C (Settled A)
  unsettled outcome_unresolved = throw_error outcome_unknown
  unsettled e = throw e

  unfoldable pub reconcile : BookingRow → (Option BookingRow → Bool) → Failure → Step C (Settled A)
  reconcile row did_commit unknown_commit =
      catch
        (do
          fresh ←
              with_finished_transaction row.host_id
                λ time tx. (ok (select_for_update tx row.id), tx)
          pure (settled_from did_commit unknown_commit fresh))
        unsettled
  reconcile row did_commit e = pure (settled_failed e)

  unfoldable pub settle_completion :
      BookingRow → Step C A → (Option BookingRow → Bool) → Step C (Settled A)
  unfolding reconcile
  settle_completion row run did_commit =
      catch (do value ← run; pure (settled_ok value)) (reconcile row did_commit)
