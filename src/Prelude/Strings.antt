-- ===== src/Prelude/Strings.antt =====
-- Lists of strings: counting, membership, distinctness.
use Prim.Native.Nat.{ℕ, suc, ◌+◌, ◌≤◌, ◌<◌}
use Prim.Native.String.{String}
use mathlib.Core.Path.{◌≡◌, refl}
use mathlib.Core.Bool.{Bool, true, false, ◌||◌}
use mathlib.Core.Logic.{inl, inr}
use mathlib.Core.List.{List, [], ◌∷◌, ◌++◌}
use native.Mathlib.Omega.{arith}
use text.Mathlib.Text.{◌==◌ as str_eq}
use text.Mathlib.TextEquality.{eq_iff}
use text.Mathlib.TextPositions.{eq_refl}
use helion_v.Prelude.Tests.{if◌then◌else◌, Bool-cases, ltb}
use helion_v.Prelude.Lists.{In, here, there, length}

-- How often a string occurs.
unfoldable pub count : String → List String → ℕ
count x [] = 0
count x (y ∷ ys) = if str_eq y x then suc (count x ys) else count x ys

unfoldable pub contains : String → List String → Bool
contains x [] = false
contains x (y ∷ ys) = str_eq y x || contains x ys

pub count-append : (x : String) (xs ys : List String) → count x (xs ++ ys) ≡ count x xs + count x ys
unfolding count
count-append x [] ys = omega arith
count-append x (y ∷ xs) ys = ground (arith, count-append x xs ys)

pub contains-count : (x : String) (xs : List String) → contains x xs ≡ ltb 0 (count x xs)
unfolding count contains
contains-count x [] = refl
contains-count x (y ∷ xs) = ground (arith, contains-count x xs)

pub In-count : (x : String) (xs : List String) → In x xs → 0 < count x xs
unfolding count
In-count x [] i = elim i [ ]
In-count x (y ∷ xs) (here e) = ground (arith, eq_iff y x)
In-count x (y ∷ xs) (there i) = ground (arith, In-count x xs i)

pub count-In : (x : String) (xs : List String) → 0 < count x xs → In x xs
unfolding count
count-In x [] h = elim h [ ]
count-In x (y ∷ xs) h = elim (Bool-cases (str_eq y x)) [
  | inl same ↦ here ((eq_iff y x).0 same)
  | inr other ↦ there (count-In x xs (ground arith))
]

pub contains-In : (x : String) (xs : List String) → contains x xs ≡ true → In x xs
contains-In x xs h = count-In x xs (ground (arith, contains-count x xs))

pub In-contains : (x : String) (xs : List String) → In x xs → contains x xs ≡ true
In-contains x xs i = ground (arith, contains-count x xs, In-count x xs i)

pub contains-snoc :
    (x y : String) (xs : List String) → contains x (xs ++ y ∷ []) ≡ (contains x xs || str_eq y x)
unfolding contains
contains-snoc x y [] = ground arith
contains-snoc x y (z ∷ xs) = ground (arith, contains-snoc x y xs)

-- How many entries of a list are not in another one.
unfoldable pub unseen : List String → List String → ℕ
unseen seen [] = 0
unseen seen (x ∷ xs) = let rest = unseen seen xs in if contains x seen then rest else suc rest

pub unseen-snoc : (y : String) (seen xs : List String) → unseen (seen ++ y ∷ []) xs ≤ unseen seen xs
unfolding unseen
unseen-snoc y seen [] = omega arith
unseen-snoc y seen (x ∷ xs) = ground (arith, unseen-snoc y seen xs, contains-snoc x y seen)

pub unseen-snoc_new :
    (y : String) (seen xs : List String)
    → contains y seen ≡ false
    → In y xs
    → unseen (seen ++ y ∷ []) xs < unseen seen xs
unfolding unseen
unseen-snoc_new y seen [] n i = elim i [ ]
unseen-snoc_new y seen (x ∷ xs) n (here e) =
    rw e (ground (arith, unseen-snoc y seen xs, contains-snoc y y seen, eq_refl y))
unseen-snoc_new y seen (x ∷ xs) n (there i) =
    ground (arith, unseen-snoc_new y seen xs n i, contains-snoc x y seen)

pub unseen-nil : (xs : List String) → unseen [] xs ≡ length xs
unfolding unseen contains
unseen-nil [] = refl
unseen-nil (x ∷ xs) = omega (arith, unseen-nil xs)

-- A new member takes its own occurrences away.
pub unseen-snoc_count :
    (y : String) (seen xs : List String)
    → contains y seen ≡ false
    → unseen (seen ++ y ∷ []) xs + count y xs ≡ unseen seen xs
unfolding unseen count
unseen-snoc_count y seen [] n = refl
unseen-snoc_count y seen (x ∷ xs) n =
    ground (arith, unseen-snoc_count y seen xs n, contains-snoc x y seen, eq_iff x y, eq_iff y x)

pub unseen-zero : (seen xs : List String) → unseen seen xs ≡ 0 → (x : String) → In x xs → In x seen
unfolding unseen
unseen-zero seen [] z x i = elim i [ ]
unseen-zero seen (y ∷ xs) z x (here e) = rw (← e) (contains-In y seen (ground arith))
unseen-zero seen (y ∷ xs) z x (there i) = unseen-zero seen xs (ground arith) x i

pub unseen-pos :
    (seen xs : List String)
    → 0 < unseen seen xs
    → (x : String) × In x xs × (contains x seen ≡ false)
unfolding unseen
unseen-pos seen [] h = (let bad : ⊥ = ground arith in elim bad [ ])
unseen-pos seen (y ∷ xs) h =
    let behind = unseen-pos seen xs in
    elim (Bool-cases (contains y seen)) [
      | inr n ↦ (y, here refl, n)
      | inl s ↦ (let (x, i, k) = behind (rw s at h) in (x, there i, k))
    ]
