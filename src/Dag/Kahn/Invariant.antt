-- ===== src/Dag/Kahn/Invariant.antt =====
-- What holds at each turn of the queue of Kahn's algorithm.
use helion_v.Prelude.{
  ℕ, ◌+◌, ◌^◌, ◌≤◌, ◌<◌, String, List, [], ◌∷◌, ◌++◌, Assoc, In, here, there, length, length-append,
  count, unseen, ◌≡◌, refl, sym, ap, ◌∙◌, arith, str_eq, eq_iff, if◌then◌else◌, Bool-cases, inl,
  inr, ◌==◌, subst,
}
use helion_v.Workflow.{WorkflowJob}
use helion_v.Dag.Sort.{degree}
use helion_v.Dag.Checks.{job_names}
use helion_v.Dag.From.{total_deps}
use helion_v.Dag.Edges.{Edge, edge, In-append_left, In-append_right, append-In}
use helion_v.Dag.Kahn.Degrees.{deps_named}

-- Each name comes behind all that it depends on; `before` comes before the list.
abbrev pub IsOrdered : List WorkflowJob → List String → List String → Type 0
IsOrdered jobs before [] = Unit
IsOrdered jobs before (x ∷ xs) =
    ((a : String) → Edge jobs a x → In a before) × IsOrdered jobs (before ++ x ∷ []) xs

pub IsOrdered-snoc :
    (jobs : List WorkflowJob) (before xs : List String) (y : String)
    → IsOrdered jobs before xs
    → ((a : String) → Edge jobs a y → In a (before ++ xs))
    → IsOrdered jobs before (xs ++ y ∷ [])
IsOrdered-snoc jobs before [] y o f = (λ a e. whole a (f a e), tt)
  where
    whole : (a : String) → In a (before ++ []) → In a before
    whole a i = elim (append-In before i) [ inl k ↦ k | inr k ↦ elim k [ ] ]
IsOrdered-snoc jobs before (x ∷ xs) y o f =
    (o.0, IsOrdered-snoc jobs (before ++ x ∷ []) xs y o.1 (λ a e. moved a (f a e)))
  where
    moved : (a : String) → In a (before ++ x ∷ xs) → In a ((before ++ x ∷ []) ++ xs)
    moved a i = elim (append-In before i) [
      | inl k ↦ In-append_left xs (In-append_left (x ∷ []) k)
      | inr k ↦ elim k [
        | here e ↦ In-append_left xs (In-append_right before (here e))
        | there z ↦ In-append_right (before ++ x ∷ []) z
      ]
    ]

-- The dependencies of a name are the tails of its edges.
pub deps_named-Edge :
    (jobs : List WorkflowJob) (a x : String) → In a (deps_named jobs x) → Edge jobs a x
unfolding deps_named
deps_named-Edge [] a x i = elim i [ ]
deps_named-Edge (j ∷ js) a x i =
    let behind = deps_named-Edge js a x in
    elim (Bool-cases (str_eq j.name x)) [
      | inr n ↦ later (behind (rw n at i))
      | inl y ↦ elim (append-In j.depends_on (rw y at i)) [
        | inl k ↦ edge j (here refl) k ((eq_iff j.name x).0 y)
        | inr k ↦ later (behind k)
      ]
    ]
  where
    later : Edge js a x → Edge (j ∷ js) a x
    later (edge k i d e) = edge k (there i) d e

pub Edge-deps_named :
    (jobs : List WorkflowJob) (a x : String) → Edge jobs a x → In a (deps_named jobs x)
unfolding deps_named
Edge-deps_named [] a x (edge j i d e) = elim i [ ]
Edge-deps_named (k ∷ js) a x (edge j (here s) d e) =
    rw ((eq_iff k.name x).1 (ap (λ z. z.name) s ∙ e))
      (In-append_left (deps_named js x) (subst (λ z. In a z.depends_on) (sym s) d))
Edge-deps_named (k ∷ js) a x (edge j (there i) d e) =
    let behind = Edge-deps_named js a x (edge j i d e) in
    elim (Bool-cases (str_eq k.name x)) [
      | inr n ↦ rw n behind
      | inl y ↦ rw y (In-append_right k.depends_on behind)
    ]

-- Only a job has dependencies.
pub deps_named-named :
    (jobs : List WorkflowJob) (a x : String)
    → 0 < count a (deps_named jobs x)
    → 0 < count x (job_names jobs)
unfolding deps_named count
deps_named-named [] a x h = (let bad : ⊥ = ground arith in elim bad [ ])
deps_named-named (j ∷ js) a x h =
    let behind = deps_named-named js a x in
    elim (Bool-cases (str_eq j.name x)) [
      | inl y ↦ rw y (omega arith)
      | inr n ↦ rw n (behind (rw n at h))
    ]

pub unseen-le : (seen xs : List String) → unseen seen xs ≤ length xs
unfolding unseen
unseen-le seen [] = omega arith
unseen-le seen (x ∷ xs) = ground (arith, unseen-le seen xs)

pub length-deps_named :
    (jobs : List WorkflowJob) (x : String) → length (deps_named jobs x) ≤ total_deps jobs
unfolding deps_named total_deps
length-deps_named [] x = omega arith
length-deps_named (j ∷ js) x =
    ground (arith, length-deps_named js x, length-append j.depends_on (deps_named js x))

-- The names are distinct, and the dependencies fit into an int.
pub record Sortable (jobs : List WorkflowJob) : Type 0 where
  pub distinct : (x : String) → count x (job_names jobs) ≤ 1
  pub fits : total_deps jobs < 2 ^ 64

pub record Draining (jobs : List WorkflowJob) (fuel : ℕ) (queue : List String) (m : Assoc ℕ)
    (sorted : List String) : Type 0 where
  pub degrees : (x : String) → degree m x ≡ unseen sorted (deps_named jobs x)
  pub places :
      (x : String)
      → count x sorted + count x queue ≡ (if degree m x == 0 then count x (job_names jobs) else 0)
  pub enough : unseen sorted (job_names jobs) < fuel
  pub size : length sorted + unseen sorted (job_names jobs) ≡ length (job_names jobs)
  pub ordered : IsOrdered jobs [] sorted
