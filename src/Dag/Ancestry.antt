-- ===== src/Dag/Ancestry.antt =====
-- ancestorsOf: the walk ends within its fuel, and finds exactly the ancestors.
use mathlib.Core.List.{reverse, reverse-cons}
use helion_v.Prelude.{
  ℕ, zero, suc, ◌+◌, ◌≤◌, ◌<◌, String, true, false, some, List, [], ◌∷◌, ◌++◌, Assoc, In, here,
  there, lookup, insert, length, length-append, count, contains, contains-In, ◌≡◌, ◌⊎◌, ◌↔◌, inl,
  inr, refl, sym, arith, str_eq, eq_iff, Bool-cases, if◌then◌else◌, subst,
}
use helion_v.Workflow.{WorkflowJob}
use helion_v.Dag.From.{by_name, deps_of, walk, total_deps, ancestors}
use helion_v.Dag.Checks.{job_names}
use helion_v.Dag.Edges.{Edge, Below, one, more, In-append_left, In-append_right, append-In}
use helion_v.Dag.ByName.{deps_of-Edge, Edge-deps_of}

module _ {ℓ} {A : Type ℓ} where
  length-reverse : (xs : List A) → length (reverse xs) ≡ length xs
  length-reverse [] = refl
  length-reverse (x ∷ xs) =
      rw reverse-cons (omega (arith, length-append (reverse xs) (x ∷ []), length-reverse xs))

  In-reverse : {x : A} (xs : List A) → In x xs → In x (reverse xs)
  In-reverse [] i = elim i [ ]
  In-reverse (y ∷ xs) (here e) = rw reverse-cons (In-append_right (reverse xs) (here e))
  In-reverse (y ∷ xs) (there i) = rw reverse-cons (In-append_left (y ∷ []) (In-reverse xs i))

  reverse-In : {x : A} (xs : List A) → In x (reverse xs) → In x xs
  reverse-In [] i = i
  reverse-In (y ∷ xs) i = elim (append-In (reverse xs) (rw reverse-cons at i)) [
    | inl k ↦ there (reverse-In xs k)
    | inr k ↦ elim k [ here e ↦ here e | there z ↦ elim z [ ] ]
  ]

-- The dependencies that the walk has not yet put on its stack.
unfoldable pending_deps : List String → Assoc WorkflowJob → ℕ
pending_deps seen [] = 0
pending_deps seen ((k, j) ∷ m) =
    let rest = pending_deps seen m in if contains k seen then rest else length j.depends_on + rest

pending_deps_mono :
    (n : String) (seen : List String) (m : Assoc WorkflowJob)
    → pending_deps (n ∷ seen) m ≤ pending_deps seen m
unfolding pending_deps contains
pending_deps_mono n seen [] = omega arith
pending_deps_mono n seen ((k, j) ∷ m) = ground (arith, pending_deps_mono n seen m)

deps_of-cons :
    (k n : String) (j : WorkflowJob) (m : Assoc WorkflowJob)
    → length (deps_of ((k, j) ∷ m) n)
      ≡ (if str_eq k n then length j.depends_on else length (deps_of m n))
unfolding lookup
deps_of-cons k n j m = ground arith

pending_deps-cons :
    (n : String) (seen : List String) (m : Assoc WorkflowJob)
    → contains n seen ≡ false
    → pending_deps (n ∷ seen) m + length (deps_of m n) ≤ pending_deps seen m
unfolding pending_deps contains lookup
pending_deps-cons n seen [] c = omega arith
pending_deps-cons n seen ((k, j) ∷ m) c = ground (
  arith,
  pending_deps-cons n seen m c,
  pending_deps_mono n seen m,
  deps_of-cons k n j m,
  eq_iff n k,
  eq_iff k n,
  c,
)

pending_deps-insert :
    (k : String) (j : WorkflowJob) (m : Assoc WorkflowJob)
    → pending_deps [] (insert k j m) ≤ length j.depends_on + pending_deps [] m
unfolding pending_deps contains insert
pending_deps-insert k j [] = omega arith
pending_deps-insert k j ((x, i) ∷ m) = elim (Bool-cases (str_eq x k)) [
  | inl y ↦ rw y (omega arith)
  | inr z ↦ rw z (omega (arith, pending_deps-insert k j m))
]

pending_deps-by_name :
    (jobs : List WorkflowJob) (m : Assoc WorkflowJob)
    → pending_deps [] (by_name jobs m) ≤ total_deps jobs + pending_deps [] m
unfolding by_name total_deps
pending_deps-by_name [] m = omega arith
pending_deps-by_name (j ∷ js) m =
    omega (arith, pending_deps-by_name js (insert j.name j m), pending_deps-insert j.name j m)

-- What holds at each turn of the walk.
record Walking (jobs : List WorkflowJob) (target : String) (fuel : ℕ) (seen stack : List String)
    : Type 0 where
  enough : length stack + pending_deps seen (by_name jobs []) < fuel
  sound : (x : String) → In x seen → Below jobs x target
  stack_sound : (x : String) → In x stack → Below jobs x target
  closed : (x a : String) → (x ≡ target) ⊎ In x seen → Edge jobs a x → In a seen ⊎ In a stack

Below-front :
    {jobs : List WorkflowJob} {a x t : String} → Edge jobs a x → Below jobs x t → Below jobs a t
Below-front e (one k) = more (one e) k
Below-front e (more r k) = more (Below-front e r) k

module _ (jobs : List WorkflowJob) (distinct : (n : String) → count n (job_names jobs) ≤ 1)
    (target : String) where
  abbrev entries : Assoc WorkflowJob
  entries = by_name jobs []

  Walking-again :
      (fuel : ℕ) (n : String) (seen stack : List String)
      → contains n seen ≡ true
      → Walking jobs target (suc fuel) seen (n ∷ stack)
      → Walking jobs target fuel seen stack
  Walking-again fuel n seen stack c w = record {
    enough = omega (arith, w.enough);
    sound = w.sound;
    stack_sound = λ x i. w.stack_sound x (there i);
    closed = λ x a p e. elim (w.closed x a p e) [
      | inl i ↦ inl i
      | inr (here f) ↦ inl (subst (λ z. In z seen) f (contains-In n seen c))
      | inr (there i) ↦ inr i
    ];
  }

  Walking-next :
      (fuel : ℕ) (n : String) (seen stack : List String)
      → contains n seen ≡ false
      → Walking jobs target (suc fuel) seen (n ∷ stack)
      → Walking jobs target fuel (n ∷ seen) (reverse (deps_of entries n) ++ stack)
  Walking-next fuel n seen stack c w =
      let top = w.stack_sound n (here refl) in
      record {
        enough = omega (
          arith,
          w.enough,
          pending_deps-cons n seen entries c,
          length-reverse (deps_of entries n),
          length-append (reverse (deps_of entries n)) stack,
        );
        sound = λ x i. elim i [
          | here e ↦ subst (λ z. Below jobs z target) e top
          | there k ↦ w.sound x k
        ];
        stack_sound = λ x i. elim (append-In (reverse (deps_of entries n)) i) [
          | inl k ↦ Below-front (deps_of-Edge jobs x n (reverse-In (deps_of entries n) k)) top
          | inr k ↦ w.stack_sound x (there k)
        ];
        closed = λ x a p e. elim p [
          | inl f ↦ old (w.closed x a (inl f) e)
          | inr (there i) ↦ old (w.closed x a (inr i) e)
          | inr (here f) ↦ inr (
              In-append_left stack (
                In-reverse (deps_of entries n)
                  (Edge-deps_of jobs distinct a n (subst (λ z. Edge jobs a z) (sym f) e))))
        ];
      }
    where
      old :
          {a : String}
          → In a seen ⊎ In a (n ∷ stack)
          → In a (n ∷ seen) ⊎ In a (reverse (deps_of entries n) ++ stack)
      old (inl i) = inl (there i)
      old (inr (here f)) = inl (here f)
      old (inr (there i)) = inr (In-append_right (reverse (deps_of entries n)) i)

  -- What the walk returns: ancestors only, and all of them.
  record Walked (seen : List String) : Type 0 where
    sound : (x : String) → In x seen → Below jobs x target
    closed : (x a : String) → (x ≡ target) ⊎ In x seen → Edge jobs a x → In a seen

  walk-Walked :
      (fuel : ℕ) (seen stack : List String)
      → Walking jobs target fuel seen stack
      → (out : List String) × (walk fuel entries seen stack ≡ some out) × Walked out
  unfolding walk
  walk-Walked zero seen stack w = (let bad : ⊥ = omega (arith, w.enough) in elim bad [ ])
  walk-Walked (suc fuel) seen [] w = (
    seen,
    refl,
    record {
      sound = w.sound;
      closed = λ x a p e. elim (w.closed x a p e) [ inl i ↦ i | inr i ↦ elim i [ ] ];
    },
  )
  walk-Walked (suc fuel) seen (n ∷ stack) w =
      let again = walk-Walked fuel seen stack in
      let next = walk-Walked fuel (n ∷ seen) (reverse (deps_of entries n) ++ stack) in
      elim (Bool-cases (contains n seen)) [
        | inl c ↦ rw c (again (Walking-again fuel n seen stack c w))
        | inr c ↦ rw c (next (Walking-next fuel n seen stack c w))
      ]

  Walked-Below :
      (out : List String)
      → Walked out
      → (x y : String) → Below jobs x y
      → (y ≡ target) ⊎ In y out
      → In x out
  Walked-Below out w x y (one e) p = w.closed y x p e
  Walked-Below out w x y (more {b = b} r e) p = Walked-Below out w x b r (inr (w.closed y b p e))

  -- For jobs of distinct names, the search for the ancestors of a job ends, cyclic jobs included,
  -- and its set holds exactly the names that the job depends on, directly or through others.
  pub ancestors_correct :
      (seen : List String) × (ancestors jobs target ≡ some seen)
      × ((x : String) → In x seen ↔ Below jobs x target)
  unfolding ancestors pending_deps
  ancestors_correct =
      let (seen, e, w) =
        walk-Walked (total_deps jobs + length (deps_of entries target) + 1) []
          (reverse (deps_of entries target)) start in
      (seen, e, λ x. (w.sound x, λ b. Walked-Below seen w x target b (inl refl)))
    where
      start :
          Walking jobs target
            (total_deps jobs + length (deps_of entries target) + 1)
            []
            (reverse (deps_of entries target))
      start = record {
        enough =
            omega (arith, length-reverse (deps_of entries target), pending_deps-by_name jobs []);
        sound = λ x i. elim i [ ];
        stack_sound =
            λ x i. one (deps_of-Edge jobs x target (reverse-In (deps_of entries target) i));
        closed = λ x a p e. elim p [
          | inr i ↦ elim i [ ]
          | inl f ↦ inr (
              In-reverse (deps_of entries target)
                (Edge-deps_of jobs distinct a target (subst (λ z. Edge jobs a z) f e)))
        ];
      }
