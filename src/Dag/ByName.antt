-- ===== src/Dag/ByName.antt =====
-- The map from names to jobs, for distinct names.
use helion_v.Prelude.{
  ◌≤◌, String, some, List, [], ◌∷◌, Assoc, In, here, there, lookup, insert, lookup-insert,
  lookup-insert_self, count, ◌≡◌, ◌⊎◌, inl, inr, refl, sym, ap, ◌∙◌, arith, str_eq, eq_iff,
  Bool-cases, Option-cases, subst, some_cancel,
}
use text.Mathlib.TextPositions.{eq_refl}
use helion_v.Workflow.{WorkflowJob}
use helion_v.Dag.From.{by_name, deps_of}
use helion_v.Dag.Checks.{job_names}
use helion_v.Dag.Edges.{Edge, edge}

lookup-by_name :
    (n : String) (jobs : List WorkflowJob) (m : Assoc WorkflowJob) (j : WorkflowJob)
    → lookup n (by_name jobs m) ≡ some j
    → (In j jobs × (j.name ≡ n)) ⊎ (lookup n m ≡ some j)
unfolding by_name
lookup-by_name n [] m j h = inr h
lookup-by_name n (x ∷ xs) m j h = elim (lookup-by_name n xs (insert x.name x m) j h) [
  | inl (i, e) ↦ inl (there i, e)
  | inr k ↦ elim (Bool-cases (str_eq x.name n)) [
    | inr z ↦ inr (rw (lookup-insert, z) at k)
    | inl z ↦
        let same = some_cancel (rw (lookup-insert, z) at k) in
        inl (here same, ap (λ w. w.name) (sym same) ∙ (eq_iff x.name n).0 z)
  ]
]

by_name-other :
    (n : String) (jobs : List WorkflowJob) (m : Assoc WorkflowJob)
    → count n (job_names jobs) ≡ 0
    → lookup n (by_name jobs m) ≡ lookup n m
unfolding by_name count
by_name-other n [] m h = refl
by_name-other n (x ∷ xs) m h =
    by_name-other n xs (insert x.name x m) (ground arith)
    ∙ ground (arith, h, lookup-insert x.name n x m)

In-names : (j : WorkflowJob) (jobs : List WorkflowJob) → In j jobs → In j.name (job_names jobs)
In-names j [] i = elim i [ ]
In-names j (x ∷ xs) (here e) = here (ap (λ w. w.name) e)
In-names j (x ∷ xs) (there i) = there (In-names j xs i)

pub by_name-In :
    (jobs : List WorkflowJob) (m : Assoc WorkflowJob)
    → ((n : String) → count n (job_names jobs) ≤ 1)
    → (j : WorkflowJob) → In j jobs
    → lookup j.name (by_name jobs m) ≡ some j
unfolding by_name count
by_name-In [] m d j i = elim i [ ]
by_name-In (x ∷ xs) m d j (here e) =
    let once : count x.name (job_names xs) ≡ 0 = ground (arith, d x.name, eq_refl x.name) in
    subst (λ w. lookup w.name (by_name xs (insert x.name x m)) ≡ some w) e
      (by_name-other x.name xs (insert x.name x m) once ∙ lookup-insert_self x.name x m)
by_name-In (x ∷ xs) m d j (there i) =
    by_name-In xs (insert x.name x m) (λ n. ground (arith, d n)) j i

module _ (jobs : List WorkflowJob) where
  abbrev names_of : Assoc WorkflowJob
  names_of = by_name jobs []

  pub found-In :
      (n : String) (j : WorkflowJob)
      → lookup n (by_name jobs []) ≡ some j
      → In j jobs × (j.name ≡ n)
  unfolding lookup
  found-In n j h = elim (lookup-by_name n jobs [] j h) [
    | inl p ↦ p
    | inr k ↦ (let bad : ⊥ = ground (arith, k) in elim bad [ ])
  ]

  pub deps_of-Edge : (a n : String) → In a (deps_of (by_name jobs []) n) → Edge jobs a n
  deps_of-Edge a n i = elim (Option-cases (lookup n (by_name jobs []))) [
    | inl e ↦ elim (rw (e, deps_of) at i) [ ]
    | inr (j, e) ↦ (let (k, f) = found-In n j e in edge j k (rw (e, deps_of) at i) f)
  ]

  pub Edge-deps_of :
      ((n : String) → count n (job_names jobs) ≤ 1)
      → (a n : String) → Edge jobs a n
      → In a (deps_of (by_name jobs []) n)
  Edge-deps_of d a n (edge j i k e) = rw (← e, by_name-In jobs [] d j i, deps_of) k
