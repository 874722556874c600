-- ===== src/Prelude/Lists.antt =====
-- Lists walked with Boolean tests, and JavaScript's `Map` as the list of its entries in order.
use Prim.Native.Nat.{ℕ, zero, suc, ◌+◌, ◌≤◌}
use mathlib.Core.Path.{◌≡◌, refl}
use mathlib.Core.Logic.{◌⊎◌, inl, inr}
use mathlib.Core.Bool.{Bool, true, false, ◌||◌}
use mathlib.Core.Option.{Option, none, some}
use mathlib.Core.List.{List, [], ◌∷◌, ◌++◌}
use native.Mathlib.Omega.{arith}
use marlo_scheduling.Prelude.Tests.{if◌then◌else◌, Bool-cases, either_of}

module _ {ℓ} {A : Type ℓ} where
  abbrev pub length : List A → ℕ
  length [] = 0
  length (x ∷ xs) = suc (length xs)

  abbrev pub take : ℕ → List A → List A
  take zero xs = []
  take (suc n) [] = []
  take (suc n) (x ∷ xs) = x ∷ take n xs

  abbrev pub any : (A → Bool) → List A → Bool
  any p [] = false
  any p (x ∷ xs) = p x || any p xs

  abbrev pub filter : (A → Bool) → List A → List A
  filter p [] = []
  filter p (x ∷ xs) = let rest = filter p xs in if p x then x ∷ rest else rest

  abbrev pub find : (A → Bool) → List A → Option A
  find p [] = none
  find p (x ∷ xs) = if p x then some x else find p xs

  -- `map.set(key, e)`: an entry that the test picks is replaced in its place, else `e` goes last.
  abbrev pub put : (A → Bool) → A → List A → List A
  put p e [] = e ∷ []
  put p e (x ∷ xs) = if p x then e ∷ xs else x ∷ put p e xs

  -- A write through the reference that `map.get(key)` returns.
  abbrev pub adjust : (A → Bool) → (A → A) → List A → List A
  adjust p f [] = []
  adjust p f (x ∷ xs) = if p x then f x ∷ xs else x ∷ adjust p f xs

  -- The last entry that passes the test.
  abbrev pub find_last : (A → Bool) → List A → Option A
  find_last p [] = none
  find_last p (x ∷ xs) = either_of (find_last p xs) (if p x then some x else none)

  pub find-append :
      (p : A → Bool) (xs ys : List A) → find p (xs ++ ys) ≡ either_of (find p xs) (find p ys)
  find-append p [] ys = refl
  find-append p (x ∷ xs) ys = ground (arith, find-append p xs ys)

  pub length-append : (xs ys : List A) → length (xs ++ ys) ≡ length xs + length ys
  length-append [] ys = omega arith
  length-append (x ∷ xs) ys = omega (arith, length-append xs ys)

  pub length-take : (n : ℕ) (xs : List A) → length (take n xs) ≤ n
  length-take zero xs = omega arith
  length-take (suc n) [] = omega arith
  length-take (suc n) (x ∷ xs) = omega (arith, length-take n xs)

  pub find-put_self :
      (p : A → Bool) (e : A) (xs : List A) → p e ≡ true → find p (put p e xs) ≡ some e
  find-put_self p e [] h = ground arith
  find-put_self p e (x ∷ xs) h = ground (arith, find-put_self p e xs h)

  -- A write under one key leaves the entry of another key alone.
  pub find-put_other :
      (p q : A → Bool) (e : A) (xs : List A)
      → ((x : A) → p x ≡ true → q x ≡ false)
      → q e ≡ false
      → find q (put p e xs) ≡ find q xs
  find-put_other p q e [] apart h = ground arith
  find-put_other p q e (x ∷ xs) apart h = ground (arith, apart x, find-put_other p q e xs apart h)

  pub find-adjust_self :
      (p : A → Bool) (f : A → A) (a : A) (xs : List A)
      → ((x : A) → p x ≡ true → p (f x) ≡ true)
      → find p xs ≡ some a
      → find p (adjust p f xs) ≡ some (f a)
  find-adjust_self p f a [] keeps h = cc
  find-adjust_self p f a (x ∷ xs) keeps h = ground (arith, keeps x, find-adjust_self p f a xs keeps)

  pub find-adjust_other :
      (p q : A → Bool) (f : A → A) (xs : List A)
      → ((x : A) → p x ≡ true → q x ≡ false)
      → ((x : A) → p x ≡ true → q (f x) ≡ false)
      → find q (adjust p f xs) ≡ find q xs
  find-adjust_other p q f [] apart apart' = refl
  find-adjust_other p q f (x ∷ xs) apart apart' =
      ground (arith, apart x, apart' x, find-adjust_other p q f xs apart apart')

module _ {A : Type 0} where
  abbrev pub In : A → List A → Type 0
  In a [] = ⊥
  In a (x ∷ xs) = (x ≡ a) ⊎ In a xs

  pub In-append_left : (a : A) (xs ys : List A) → In a xs → In a (xs ++ ys)
  In-append_left a [] ys h = elim h [ ]
  In-append_left a (x ∷ xs) ys (inl e) = inl e
  In-append_left a (x ∷ xs) ys (inr h) = inr (In-append_left a xs ys h)

  pub In-append_right : (a : A) (xs ys : List A) → In a ys → In a (xs ++ ys)
  In-append_right a [] ys h = h
  In-append_right a (x ∷ xs) ys h = inr (In-append_right a xs ys h)

  pub In-append : (a : A) (xs ys : List A) → In a (xs ++ ys) → In a xs ⊎ In a ys
  In-append a [] ys h = inr h
  In-append a (x ∷ xs) ys (inl e) = inl (inl e)
  In-append a (x ∷ xs) ys (inr h) = elim (In-append a xs ys h) [
    | inl k ↦ inl (inr k)
    | inr k ↦ inr k
  ]

  pub In-take : (a : A) (n : ℕ) (xs : List A) → In a (take n xs) → In a xs
  In-take a zero xs h = elim h [ ]
  In-take a (suc n) [] h = h
  In-take a (suc n) (x ∷ xs) (inl e) = inl e
  In-take a (suc n) (x ∷ xs) (inr h) = inr (In-take a n xs h)

  -- What a filter keeps passes the test and was there.
  pub In-filter : (p : A → Bool) (a : A) (xs : List A) → In a (filter p xs) → In a xs × (p a ≡ true)
  In-filter p a [] h = elim h [ ]
  In-filter p a (x ∷ xs) h = ground (arith, In-filter p a xs)

  pub filter-In : (p : A → Bool) (a : A) (xs : List A) → In a xs → p a ≡ true → In a (filter p xs)
  filter-In p a [] h t = h
  filter-In p a (x ∷ xs) h t = ground (arith, filter-In p a xs)

  pub any-In : (p : A → Bool) (a : A) (xs : List A) → In a xs → p a ≡ true → any p xs ≡ true
  any-In p a [] h t = elim h [ ]
  any-In p a (x ∷ xs) h t = ground (arith, any-In p a xs)

  pub any-witness :
      (p : A → Bool) (xs : List A) → any p xs ≡ true → (a : A) × In a xs × (p a ≡ true)
  any-witness p [] h = cc
  any-witness p (x ∷ xs) h = elim (Bool-cases (p x)) [
    | inl t ↦ (x, inl refl, t)
    | inr f ↦ let r = any-witness p xs (ground arith) in (r.0, inr r.1, r.2)
  ]

  pub find-In : (p : A → Bool) (a : A) (xs : List A) → find p xs ≡ some a → In a xs × (p a ≡ true)
  find-In p a [] h = cc
  find-In p a (x ∷ xs) h = ground (arith, find-In p a xs)

module _ {A B : Type 0} where
  abbrev pub flat_map : (A → List B) → List A → List B
  flat_map f [] = []
  flat_map f (x ∷ xs) = f x ++ flat_map f xs

  pub In-flat_map :
      (f : A → List B) (a : A) (b : B) (xs : List A) → In a xs → In b (f a) → In b (flat_map f xs)
  In-flat_map f a b [] h k = elim h [ ]
  In-flat_map f a b (x ∷ xs) (inl e) k = In-append_left b (f x) _ (rw e k)
  In-flat_map f a b (x ∷ xs) (inr h) k = In-append_right b (f x) _ (In-flat_map f a b xs h k)

  pub flat_map-In :
      (f : A → List B) (b : B) (xs : List A) → In b (flat_map f xs) → (a : A) × In a xs × In b (f a)
  flat_map-In f b [] h = elim h [ ]
  flat_map-In f b (x ∷ xs) h = elim (In-append b (f x) (flat_map f xs) h) [
    | inl k ↦ (x, inl refl, k)
    | inr k ↦ let r = flat_map-In f b xs k in (r.0, inr r.1, r.2)
  ]

module _ {A : Type 0} (P : A → Type 0) where
  abbrev pub All : List A → Type 0
  All [] = Unit
  All (x ∷ xs) = P x × All xs

  pub All-In : (a : A) (xs : List A) → All xs → In a xs → P a
  All-In a [] h k = elim k [ ]
  All-In a (x ∷ xs) h (inl e) = rw e at h.0
  All-In a (x ∷ xs) h (inr k) = All-In a xs h.1 k

  pub All-intro : (xs : List A) → ((a : A) → In a xs → P a) → All xs
  All-intro [] h = tt
  All-intro (x ∷ xs) h = (h x (inl refl), All-intro xs (λ a k. h a (inr k)))

  pub All-put : (p : A → Bool) (e : A) (xs : List A) → All xs → P e → All (put p e xs)
  All-put p e [] h k = (k, tt)
  All-put p e (x ∷ xs) h k = ground (arith, All-put p e xs h.1 k)

  pub All-adjust :
      (p : A → Bool) (f : A → A) (xs : List A)
      → ((x : A) → p x ≡ true → P x → P (f x))
      → All xs
      → All (adjust p f xs)
  All-adjust p f [] g h = tt
  All-adjust p f (x ∷ xs) g h = ground (arith, g x, All-adjust p f xs g h.1)

module _ {A : Type 0} {P Q : A → Type 0} (f : (x : A) → P x → Q x) where
  pub All-map : (xs : List A) → All P xs → All Q xs
  All-map [] h = tt
  All-map (x ∷ xs) h = (f x h.0, All-map xs h.1)
