-- ===== src/Dag/Ends.antt =====
-- The fuel of ValidateDAG (internal/cluster/dag.go).
use helion_v.Prelude.{
  ◌^◌, ◌≤◌, ◌<◌, String, Option, none, some, List, [], ◌∷◌, lookup, count, ◌≡◌, ◌≢◌, inl, inr, refl,
  arith, Option-cases, subst,
}
use helion_v.Job.{ArtifactBinding}
use helion_v.Workflow.{WorkflowJob}
use helion_v.Dag.Errors.{DagError, out_of_fuel}
use helion_v.Dag.DotRef.{split_dot_ref}
use helion_v.Dag.From.{
  by_name, check_upstream, check_input, first_error, validate_from_references, total_deps,
}
use helion_v.Dag.Checks.{
  job_names, check_names, check_dep, check_deps, check_cycle, and_then, validate_dag,
}
use helion_v.Dag.Ancestry.{ancestors_correct}
use helion_v.Dag.Valid.{check_names-distinct}
use helion_v.Dag.Kahn.Invariant.{Sortable}
use helion_v.Dag.Kahn.Result.{topological_sort_correct}

-- The loop that gave the answer had fuel left.
record IsEnded (answer : Option DagError) : Type 0 where
  ended : answer ≢ some out_of_fuel

first_error-IsEnded :
    {A : Type 0} (check : A → Option DagError) (xs : List A)
    → ((x : A) → IsEnded (check x))
    → IsEnded (first_error check xs)
unfolding first_error
first_error-IsEnded check [] h = record { ended = λ e. ground (arith, e) }
first_error-IsEnded check (y ∷ ys) h =
    let behind = first_error-IsEnded check ys h in
    elim (Option-cases (check y)) [
      | inl k ↦ rw (k, first_error) behind
      | inr (e, k) ↦ rw (k, first_error) (subst (λ z. IsEnded z) k (h y))
    ]

check_names-IsEnded :
    (seen : List String) (jobs : List WorkflowJob) → IsEnded (check_names seen jobs)
unfolding check_names
check_names-IsEnded seen [] = record { ended = λ e. ground (arith, e) }
check_names-IsEnded seen (j ∷ js) =
    let behind = (check_names-IsEnded (j.name ∷ seen) js).ended in
    record { ended = λ e. ground (arith, e, behind) }

check_dep-IsEnded :
    (names : List String) (j : WorkflowJob) (dep : String) → IsEnded (check_dep names j dep)
check_dep-IsEnded names j dep = record { ended = λ e. ground (arith, e) }

check_deps-IsEnded :
    (names : List String) (jobs : List WorkflowJob) → IsEnded (check_deps names jobs)
unfolding check_deps
check_deps-IsEnded names jobs =
    first_error-IsEnded _ jobs
      (λ j. first_error-IsEnded (check_dep names j) j.depends_on (check_dep-IsEnded names j))

check_cycle-IsEnded : (jobs : List WorkflowJob) → Sortable jobs → IsEnded (check_cycle jobs)
unfolding check_cycle
check_cycle-IsEnded jobs ok = elim (topological_sort_correct jobs ok) [
  | inl (xs, e, t) ↦ rw (check_cycle, e) (record { ended = λ k. ground (arith, k) })
  | inr (e, n) ↦ rw (check_cycle, e) (record { ended = λ k. ground (arith, k) })
]

module _ (jobs : List WorkflowJob) (distinct : (x : String) → count x (job_names jobs) ≤ 1)
    (j : WorkflowJob) where
  check_upstream-IsEnded :
      (upstream output : String) (up : WorkflowJob)
      → IsEnded (check_upstream jobs j.name upstream output up)
  unfolding check_upstream
  check_upstream-IsEnded upstream output up =
      let (seen, e, f) = ancestors_correct jobs distinct j.name in
      rw (check_upstream, e) (record { ended = λ k. ground (arith, k) })

  check_input-IsEnded : (i : ArtifactBinding) → IsEnded (check_input jobs j i)
  unfolding check_input
  check_input-IsEnded i = elim (Option-cases (lookup (split_dot_ref i.from).0 (by_name jobs []))) [
    | inl n ↦ record { ended = λ k. ground (arith, (rw (check_input, n) at k)) }
    | inr (up, l) ↦
        let last =
          (check_upstream-IsEnded (split_dot_ref i.from).0 (split_dot_ref i.from).1 up).ended in
        record { ended = λ k. ground (arith, (rw (check_input, l) at k), last) }
  ]

  check_inputs-IsEnded : IsEnded (first_error (check_input jobs j) j.inputs)
  check_inputs-IsEnded = first_error-IsEnded (check_input jobs j) j.inputs check_input-IsEnded

and_then-IsEnded :
    (a b : Option DagError) → IsEnded a → (a ≡ none → IsEnded b) → IsEnded (and_then a b)
and_then-IsEnded none b p q = q refl
and_then-IsEnded (some e) b p q = p

validate_dag-IsEnded :
    (first : WorkflowJob) (rest : List WorkflowJob)
    → total_deps (first ∷ rest) < 2 ^ 64
    → IsEnded (validate_dag (first ∷ rest))
unfolding validate_dag validate_from_references
validate_dag-IsEnded first rest fits =
    let jobs = first ∷ rest in
    and_then-IsEnded _ _ (check_names-IsEnded [] jobs) (λ a.
      let distinct : ((x : String) → count x (job_names jobs) ≤ 1) =
        λ x. (let k = check_names-distinct [] jobs a x in omega (arith, k)) in
      and_then-IsEnded _ _ (check_deps-IsEnded (job_names jobs) jobs) (λ _.
        and_then-IsEnded _ _
          (check_cycle-IsEnded jobs (record { distinct = distinct; fits = fits }))
          (λ _. first_error-IsEnded _ jobs (check_inputs-IsEnded jobs distinct))))

-- ValidateDAG ends with an answer on every workflow with fewer than 2^64 dependencies, cyclic ones
-- included: neither the sort nor the search for ancestors runs out of fuel.
pub validate_dag_ends :
    (jobs : List WorkflowJob) → total_deps jobs < 2 ^ 64 → validate_dag jobs ≢ some out_of_fuel
unfolding validate_dag
validate_dag_ends [] fits e = ground (arith, e)
validate_dag_ends (first ∷ rest) fits e = (validate_dag-IsEnded first rest fits).ended e
