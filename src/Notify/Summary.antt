-- ===== src/Notify/Summary.antt =====
-- What a delivery summary of lib/notify/ledger.ts tells.
use marlo_scheduling.Prelude.{
  ◌≡◌, refl, ◌↔◌, Bool, true, List, [], ◌∷◌, ◌&&◌, inl, inr, arith, any, In, Bool-cases,
}
use marlo_scheduling.Store.{
  DeliveryRow, DeliveryRecipient, DeliveryState, invitee, owner, sent, failed, same_recipient,
}
use marlo_scheduling.Notify.{
  summarize_delivery, summary_sent, summary_failed, required_recipients, is_failed, is_sent,
  has_sent,
}

-- Some row of the ledger is in the state `failed`.
abbrev pub Failed : List DeliveryRow → Type 0
Failed rows = (row : DeliveryRow) × In row rows × (row.state ≡ failed)

-- Some row of the recipient is in the state `sent`.
abbrev pub SentTo : List DeliveryRow → DeliveryRecipient → Type 0
SentTo rows who = (row : DeliveryRow) × In row rows × (row.recipient ≡ who) × (row.state ≡ sent)

any-In :
    {A : Type 0} (p : A → Bool) (xs : List A)
    → (any p xs ≡ true) ↔ ((x : A) × In x xs × (p x ≡ true))
any-In p [] = (λ h. ground arith, λ h. elim h.1 [ ])
any-In p (x ∷ xs) = (
  λ h. elim (Bool-cases (p x)) [
    | inl e ↦ (x, inl refl, e)
    | inr e ↦ let (y, m, k) = (any-In p xs).0 (rw e at h) in (y, inr m, k)
  ],
  λ h. elim h.1 [
    | inl e ↦ ground arith
    | inr m ↦ let k = (any-In p xs).1 (h.0, m, h.2) in ground arith
  ],
)

is_failed-exact : (state : DeliveryState) → (is_failed state ≡ true) ↔ (state ≡ failed)
is_failed-exact state = ground arith

is_sent-exact :
    (row : DeliveryRow) (who : DeliveryRecipient)
    → ((is_sent row.state && same_recipient row.recipient who) ≡ true)
      ↔ ((row.recipient ≡ who) × (row.state ≡ sent))
is_sent-exact row who = ground arith

any-Failed :
    (rows : List DeliveryRow)
    → (any (λ (row : DeliveryRow). is_failed row.state) rows ≡ true) ↔ Failed rows
any-Failed rows = (
  λ h. let (row, m, e) = (any-In _ rows).0 h in (row, m, (is_failed-exact row.state).0 e),
  λ h. (any-In _ rows).1 (h.0, h.1, (is_failed-exact h.0.state).1 h.2),
)

has_sent-exact :
    (rows : List DeliveryRow) (who : DeliveryRecipient)
    → (has_sent rows who ≡ true) ↔ SentTo rows who
unfolding has_sent
has_sent-exact rows who = (
  λ h.
      let (row, m, e) = (any-In _ rows).0 h in
      let k = (is_sent-exact row who).0 e in (row, m, k.0, k.1),
  λ h. (any-In _ rows).1 (h.0, h.1, (is_sent-exact h.0 who).1 (h.2, h.3)),
)

-- A delivery counts as sent exactly when no row is in the state `failed` and both the invitee and
-- the owner have a row in the state `sent`, so that a row that is merely claimed counts for
-- neither; and it counts as failed exactly when some row is in the state `failed`.
pub summarize_delivery-exact :
    (rows : List DeliveryRow)
    → ((summarize_delivery rows required_recipients ≡ summary_sent)
        ↔ ((¬ Failed rows) × SentTo rows invitee × SentTo rows owner))
      × ((summarize_delivery rows required_recipients ≡ summary_failed) ↔ Failed rows)
unfolding summarize_delivery
summarize_delivery-exact rows =
    let f = any-Failed rows in
    let i = has_sent-exact rows invitee in let o = has_sent-exact rows owner in ground arith
