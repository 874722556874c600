-- ===== src/Store/Claims.antt =====
-- The claim protocol of the delivery ledger in lib/booking/memory-store.ts.
use marlo_scheduling.Prelude.{
  ℕ, ◌+◌, ◌≤◌, ◌<◌, ◌≡◌, refl, true, false, Option, none, some, arith, find, put, adjust,
  find-put_self, find-adjust_self, Option-cases, Bool-cases, inl, inr, ap, ◌∙◌,
}
use marlo_scheduling.Rows.{LatestAction, claim_stale_ms}
use marlo_scheduling.Store.{
  MemoryBookingStore, DeliveryKey, DeliveryRow, DeliveryRecipient, DeliveryState, claimed, sent,
  failed, invitee, owner, same_action, same_recipient, has_delivery_key, is_reclaimable,
  first_claim, reclaim, may_finalize, claim_delivery, finalize_delivery,
}

same_action_refl : (a : LatestAction) → same_action a a ≡ true
same_action_refl LatestAction.confirm = refl
same_action_refl LatestAction.reschedule = refl
same_action_refl LatestAction.cancel = refl

same_recipient_refl : (r : DeliveryRecipient) → same_recipient r r ≡ true
same_recipient_refl invitee = refl
same_recipient_refl owner = refl

-- The row that the ledger has under the key.
abbrev pub row_at : MemoryBookingStore → DeliveryKey → Option DeliveryRow
row_at store key = find (has_delivery_key key) store.deliveries

-- The row under a key after a claim that was granted: `claimed` at the given time, by `gen`.
abbrev pub ClaimedRow : (store : MemoryBookingStore) (key : DeliveryKey) (now gen : ℕ) → Type 0
ClaimedRow store key now gen =
    (row : DeliveryRow) × (row_at store key ≡ some row)
    × (row.state ≡ claimed)
    × (row.claimed_at ≡ now)
    × (row.attempts ≡ gen)

has_key_first : (key : DeliveryKey) (now : ℕ) → has_delivery_key key (first_claim key now) ≡ true
unfolding has_delivery_key
has_key_first key now =
    ground (arith, same_action_refl key.action, same_recipient_refl key.recipient)

-- The lookup under the key after a new row was put there, or after the row there was changed.
row_at-put :
    (store : MemoryBookingStore) (key : DeliveryKey) (now : ℕ)
    → find
        (has_delivery_key key)
        (put (has_delivery_key key) (first_claim key now) store.deliveries)
      ≡ some (first_claim key now)
row_at-put store key now =
    find-put_self (has_delivery_key key) (first_claim key now) store.deliveries
      (has_key_first key now)

pub row_at-adjust :
    (store : MemoryBookingStore) (key : DeliveryKey) (f : DeliveryRow → DeliveryRow)
    (row : DeliveryRow)
    → ((r : DeliveryRow) → has_delivery_key key r ≡ true → has_delivery_key key (f r) ≡ true)
    → row_at store key ≡ some row
    → find (has_delivery_key key) (adjust (has_delivery_key key) f store.deliveries) ≡ some (f row)
row_at-adjust store key f row keeps e =
    find-adjust_self (has_delivery_key key) f row store.deliveries keeps e

has_key-reclaim :
    (key : DeliveryKey) (now : ℕ) (r : DeliveryRow)
    → has_delivery_key key r ≡ true
    → has_delivery_key key (reclaim now r) ≡ true
unfolding has_delivery_key
has_key-reclaim key now r h = ground arith

has_key-state :
    (key : DeliveryKey) (state : DeliveryState) (r : DeliveryRow)
    → has_delivery_key key r ≡ true
    → has_delivery_key key (record r { state = state }) ≡ true
unfolding has_delivery_key
has_key-state key state r h = ground arith

-- What a claim does, by what the ledger has under the key.
pub claim_delivery-none :
    (store : MemoryBookingStore) (key : DeliveryKey) (now : ℕ)
    → row_at store key ≡ none
    → ((claim_delivery store key now).0 ≡ some 1)
      × (row_at (claim_delivery store key now).1 key ≡ some (first_claim key now))
unfolding claim_delivery
claim_delivery-none store key now e = rw (e, claim_delivery) (refl, row_at-put store key now)

pub claim_delivery-some :
    (store : MemoryBookingStore) (key : DeliveryKey) (now : ℕ) (row : DeliveryRow)
    → row_at store key ≡ some row
    → is_reclaimable row now ≡ true
    → ((claim_delivery store key now).0 ≡ some (row.attempts + 1))
      × (row_at (claim_delivery store key now).1 key ≡ some (reclaim now row))
unfolding claim_delivery
claim_delivery-some store key now row e r =
    rw (e, r, claim_delivery)
      (refl, row_at-adjust store key (reclaim now) row (has_key-reclaim key now) e)

pub claim_delivery-refused :
    (store : MemoryBookingStore) (key : DeliveryKey) (now : ℕ) (row : DeliveryRow)
    → row_at store key ≡ some row
    → is_reclaimable row now ≡ false
    → claim_delivery store key now ≡ (none, store)
unfolding claim_delivery
claim_delivery-refused store key now row e r = rw (e, r, claim_delivery)

finalize_delivery-granted :
    (store : MemoryBookingStore) (key : DeliveryKey) (gen : ℕ) (state : DeliveryState)
    (row : DeliveryRow)
    → row_at store key ≡ some row
    → may_finalize row gen ≡ true
    → ((finalize_delivery store key gen state).0 ≡ true)
      × (row_at (finalize_delivery store key gen state).1 key ≡ some (record row { state = state }))
unfolding finalize_delivery
finalize_delivery-granted store key gen state row e m =
    rw (e, m, finalize_delivery)
      (
        refl,
        row_at-adjust store key (λ (r : DeliveryRow). record r { state = state }) row
            (has_key-state key state) e,
      )

finalize_delivery-refused :
    (store : MemoryBookingStore) (key : DeliveryKey) (gen : ℕ) (state : DeliveryState)
    (row : DeliveryRow)
    → row_at store key ≡ some row
    → may_finalize row gen ≡ false
    → finalize_delivery store key gen state ≡ (false, store)
unfolding finalize_delivery
finalize_delivery-refused store key gen state row e m = rw (e, m, finalize_delivery)

granted_claim :
    (store : MemoryBookingStore) (key : DeliveryKey) (now gen : ℕ)
    → (claim_delivery store key now).0 ≡ some gen
    → ClaimedRow (claim_delivery store key now).1 key now gen
      × ((row : DeliveryRow) → row_at store key ≡ some row → row.attempts < gen)
granted_claim store key now gen h = elim (Option-cases (row_at store key)) [
  | inl e ↦
      let r = claim_delivery-none store key now e in
      ((first_claim key now, r.1, refl, refl, ground (arith, r.0)), λ row k. ground arith)
  | inr (row, e) ↦ elim (Bool-cases (is_reclaimable row now)) [
    | inl t ↦
        let r = claim_delivery-some store key now row e t in
        ((reclaim now row, r.1, refl, refl, ground (arith, r.0)), λ old k. ground (arith, r.0))
    | inr f ↦ absurd (ground (arith, claim_delivery-refused store key now row e f))
  ]
]

-- The generation of the row under a key, 0 where there is none.
abbrev pub generation_at : MemoryBookingStore → DeliveryKey → ℕ
generation_at store key = elim (row_at store key) [ none ↦ 0 | some row ↦ row.attempts ]

-- A granted claim leaves under its key a claimed row of its time and generation, and its
-- generation is above the generation that was there before.
pub claim_delivery-granted :
    (store : MemoryBookingStore) (key : DeliveryKey) (now gen : ℕ)
    → (claim_delivery store key now).0 ≡ some gen
    → ClaimedRow (claim_delivery store key now).1 key now gen × (generation_at store key < gen)
claim_delivery-granted store key now gen h =
    let granted = granted_claim store key now gen h in
    (
      granted.0,
      elim (Option-cases (row_at store key)) [
        | inr (row, e) ↦ rw (e, generation_at) (granted.1 row e)
        | inl e ↦
            rw (e, generation_at)
              (let r = claim_delivery-none store key now e in ground (arith, r.0))
      ],
    )

-- A granted claim holds for the stale window: until then every further claim of the same key is
-- refused and changes nothing.
pub claim_delivery-exclusive :
    (store : MemoryBookingStore) (key : DeliveryKey) (now later gen : ℕ)
    → (claim_delivery store key now).0 ≡ some gen
    → later ≤ now + claim_stale_ms
    → claim_delivery (claim_delivery store key now).1 key later
      ≡ (none, (claim_delivery store key now).1)
unfolding is_reclaimable
claim_delivery-exclusive store key now later gen h w =
    let (row, e, s, c, g) = (granted_claim store key now gen h).0 in
    claim_delivery-refused (claim_delivery store key now).1 key later row e (ground arith)

-- When a second claim of a key is granted after a first, its generation is higher; the first
-- claimer's report is then refused and changes nothing, and the second claimer's is recorded.
pub finalize_delivery-fenced :
    (store : MemoryBookingStore) (key : DeliveryKey) (now later gen gen' : ℕ)
    (state : DeliveryState)
    → (claim_delivery store key now).0 ≡ some gen
    → (claim_delivery (claim_delivery store key now).1 key later).0 ≡ some gen'
    → let second = (claim_delivery (claim_delivery store key now).1 key later).1 in
      (gen < gen')
      × (finalize_delivery second key gen state ≡ (false, second))
      × ((finalize_delivery second key gen' state).0 ≡ true)
unfolding may_finalize
finalize_delivery-fenced store key now later gen gen' state h k =
    let first : MemoryBookingStore = (claim_delivery store key now).1 in
    let second : MemoryBookingStore = (claim_delivery first key later).1 in
    let (row, e, s, c, g) = (granted_claim store key now gen h).0 in
    let again = granted_claim first key later gen' k in
    let (row', e', s', c', g') = again.0 in
    let up : row.attempts < gen' = again.1 row e in
    (
      omega arith,
      finalize_delivery-refused second key gen state row' e' (ground arith),
      (finalize_delivery-granted second key gen' state row' e' (ground arith)).0,
    )

-- Once the claimer of the current generation has reported, a sent delivery is never claimed again,
-- and a failed one can be claimed at once, whatever the time, under the next generation.
pub finalize_delivery-settles :
    (store : MemoryBookingStore) (key : DeliveryKey) (now later gen : ℕ)
    → (claim_delivery store key now).0 ≡ some gen
    → let first = (claim_delivery store key now).1 in
      let done = (finalize_delivery first key gen sent).1 in
      let refused = (finalize_delivery first key gen failed).1 in
      (claim_delivery done key later ≡ (none, done))
      × ((claim_delivery refused key later).0 ≡ some (gen + 1))
unfolding may_finalize is_reclaimable
finalize_delivery-settles store key now later gen h =
    let first : MemoryBookingStore = (claim_delivery store key now).1 in
    let (row, e, s, c, g) = (granted_claim store key now gen h).0 in
    let mine : may_finalize row gen ≡ true = ground arith in
    let done = finalize_delivery-granted first key gen sent row e mine in
    let lost = finalize_delivery-granted first key gen failed row e mine in
    (
      claim_delivery-refused (finalize_delivery first key gen sent).1 key later
          (record row { state = sent }) done.1 refl,
      (claim_delivery-some (finalize_delivery first key gen failed).1 key later
            (record row { state = failed }) lost.1 refl).0
          ∙ ap (λ (n : ℕ). some (n + 1)) g,
    )
