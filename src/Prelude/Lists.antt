-- ===== src/Prelude/Lists.antt =====
-- Lists measured and indexed by native numbers, and the predicates on lists that the proofs share.
use Prim.Native.Nat.{ℕ, zero, suc, ◌+◌, ◌≤◌}
use mathlib.Core.Path.{◌≡◌, refl, subst}
use mathlib.Core.Bool.{Bool, true, false, ◌&&◌, ◌||◌}
use mathlib.Core.Logic.{◌⊎◌, inl, inr}
use mathlib.Core.List.{List, [], ◌∷◌, ◌++◌}
use mathlib.Core.Option.{Option, none, some}
use native.Mathlib.Omega.{arith}
use helion_v.Prelude.Tests.{if◌then◌else◌, Bool-cases}

module _ {ℓ} {A : Type ℓ} where
  abbrev pub length : List A → ℕ
  length [] = 0
  length (x ∷ xs) = suc (length xs)

  abbrev pub get_elem? : List A → ℕ → Option A
  get_elem? [] i = none
  get_elem? (x ∷ xs) zero = some x
  get_elem? (x ∷ xs) (suc i) = get_elem? xs i

  -- The elements that pass the test, in order.
  abbrev pub select : (A → Bool) → List A → List A
  select p [] = []
  select p (x ∷ xs) = let rest = select p xs in if p x then x ∷ rest else rest

  pub length-append : (xs ys : List A) → length (xs ++ ys) ≡ length xs + length ys
  length-append [] ys = omega arith
  length-append (x ∷ xs) ys = omega (arith, length-append xs ys)

  pub length-select : (p : A → Bool) (xs : List A) → length (select p xs) ≤ length xs
  length-select p [] = omega arith
  length-select p (x ∷ xs) = ground (arith, length-select p xs)

-- Membership by position, with its evidence kept.
pub data In {ℓ} {A : Type ℓ} (a : A) : List A → Type ℓ where
  here : {x : A} {xs : List A} → x ≡ a → In a (x ∷ xs)
  there : {x : A} {xs : List A} → In a xs → In a (x ∷ xs)

module _ {ℓ} {A : Type ℓ} (p : A → Bool) where
  pub In-select : (a : A) (xs : List A) → In a xs → p a ≡ true → In a (select p xs)
  In-select a [] i h = elim i [ ]
  In-select a (x ∷ xs) (here e) h = rw (e, h) (here refl)
  In-select a (x ∷ xs) (there i) h = elim (Bool-cases (p x)) [
    | inl keep ↦ rw keep (there (In-select a xs i h))
    | inr drop ↦ rw drop (In-select a xs i h)
  ]

  pub select-In : (a : A) (xs : List A) → In a (select p xs) → In a xs × (p a ≡ true)
  select-In a [] i = elim i [ ]
  select-In a (x ∷ xs) i =
      let rest = select-In a xs in
      elim (Bool-cases (p x)) [
        | inl keep ↦ kept keep rest (rw keep at i)
        | inr drop ↦ (let (j, h) = rest (rw drop at i) in (there j, h))
      ]
    where
      kept :
          p x ≡ true
          → (In a (select p xs) → In a xs × (p a ≡ true))
          → In a (x ∷ select p xs)
          → In a (x ∷ xs) × (p a ≡ true)
      kept keep rest (here e) = (here e, rw (← e) keep)
      kept keep rest (there j) = let (k, h) = rest j in (there k, h)

pub List-cases {ℓ} :
    {A : Type ℓ} (xs : List A) → (xs ≡ []) ⊎ ((x : A) × (ys : List A) × (xs ≡ x ∷ ys))
List-cases [] = inl refl
List-cases (x ∷ ys) = inr (x, ys, refl)

module _ {ℓ κ} {A : Type ℓ} where
  abbrev pub All : (A → Type κ) → List A → Type κ
  All P [] = Unit
  All P (x ∷ xs) = P x × All P xs

  pub All-snoc : (P : A → Type κ) (x : A) (xs : List A) → All P xs → P x → All P (xs ++ x ∷ [])
  All-snoc P x [] all h = (h, tt)
  All-snoc P x (y ∷ ys) (first, rest) h = (first, All-snoc P x ys rest h)

  pub All-In : (P : A → Type κ) (a : A) (xs : List A) → All P xs → In a xs → P a
  All-In P a [] all i = elim i [ ]
  All-In P a (x ∷ xs) (first, rest) (here e) = subst P e first
  All-In P a (x ∷ xs) (first, rest) (there i) = All-In P a xs rest i

-- Whether each element, or some element, passes the test.
module _ {ℓ} {A : Type ℓ} (p : A → Bool) where
  abbrev pub every : List A → Bool
  every [] = true
  every (x ∷ xs) = p x && every xs

  abbrev pub some_of : List A → Bool
  some_of [] = false
  some_of (x ∷ xs) = p x || some_of xs

  pub every-In : (xs : List A) → every xs ≡ true → (x : A) → In x xs → p x ≡ true
  every-In [] h x i = elim i [ ]
  every-In (y ∷ xs) h x (here e) = rw (← e) (ground arith)
  every-In (y ∷ xs) h x (there i) = every-In xs (ground arith) x i

  pub In-every : (xs : List A) → ((x : A) → In x xs → p x ≡ true) → every xs ≡ true
  In-every [] f = refl
  In-every (y ∷ xs) f = rw (f y (here refl)) (In-every xs (λ x i. f x (there i)))

  pub not_every-In : (xs : List A) → every xs ≡ false → (x : A) × In x xs × (p x ≡ false)
  not_every-In [] h = (let bad : ⊥ = ground arith in elim bad [ ])
  not_every-In (y ∷ xs) h =
      let rest = not_every-In xs in
      elim (Bool-cases (p y)) [
        | inl e ↦ (let (x, i, k) = rest (rw e at h) in (x, there i, k))
        | inr e ↦ (y, here refl, e)
      ]

  pub some_of-In : (xs : List A) → some_of xs ≡ true → (x : A) × In x xs × (p x ≡ true)
  some_of-In [] h = (let bad : ⊥ = ground arith in elim bad [ ])
  some_of-In (y ∷ xs) h =
      let rest = some_of-In xs in
      elim (Bool-cases (p y)) [
        | inl e ↦ (y, here refl, e)
        | inr e ↦ (let (x, i, k) = rest (rw e at h) in (x, there i, k))
      ]

  pub In-some_of : (xs : List A) (x : A) → In x xs → p x ≡ true → some_of xs ≡ true
  In-some_of [] x i h = elim i [ ]
  In-some_of (y ∷ xs) x (here e) h = rw (e, h) refl
  In-some_of (y ∷ xs) x (there i) h = ground (arith, In-some_of xs x i h)

  pub none_of-In : (xs : List A) → some_of xs ≡ false → (x : A) → In x xs → p x ≡ false
  none_of-In [] h x i = elim i [ ]
  none_of-In (y ∷ xs) h x (here e) = rw (← e) (ground arith)
  none_of-In (y ∷ xs) h x (there i) = none_of-In xs (ground arith) x i
