-- ===== src/Dag/Accepts.antt =====
-- The converse of Dag/Valid: the checks of ValidateDAG (internal/cluster/dag.go) on valid workflows.
use helion_v.Prelude.{
  ◌+◌, ◌^◌, ◌≤◌, ◌<◌, String, true, false, Option, none, some, List, [], ◌∷◌, In, here, there,
  lookup, count, contains, In-contains, ◌≡◌, ◌≢◌, ◌↔◌, inl, inr, refl, ap, arith, str_eq, eq_iff,
  Bool-cases, if◌then◌else◌,
}
use text.Mathlib.TextPositions.{eq_refl}
use helion_v.Job.{ArtifactBinding}
use helion_v.Workflow.{WorkflowJob}
use helion_v.Dag.Errors.{DagError}
use helion_v.Dag.DotRef.{split_dot_ref}
use helion_v.Dag.Sort.{order, topological_sort}
use helion_v.Dag.From.{
  by_name, declares_output, check_upstream, check_input, first_error, validate_from_references,
  total_deps,
}
use helion_v.Dag.Checks.{job_names, check_names, check_dep, check_deps, check_cycle, validate_dag}
use helion_v.Dag.Edges.{Edge, edge}
use helion_v.Dag.ByName.{by_name-In}
use helion_v.Dag.Ancestry.{ancestors_correct}
use helion_v.Dag.Valid.{Resolvable, Valid, validate_dag-Valid}

first_error-all :
    {A : Type 0} (check : A → Option DagError) (xs : List A)
    → ((x : A) → In x xs → check x ≡ none)
    → first_error check xs ≡ none
unfolding first_error
first_error-all check [] h = refl
first_error-all check (y ∷ ys) h =
    let behind = first_error-all check ys (λ x i. h x (there i)) in
    rw (h y (here refl), first_error) behind

-- Names that are not empty and come once, here or among the names so far, pass the first loop.
check_names-none :
    (seen : List String) (jobs : List WorkflowJob)
    → ((j : WorkflowJob) → In j jobs → j.name ≢ "")
    → ((x : String) → count x (job_names jobs) + (if contains x seen then 1 else 0) ≤ 1)
    → check_names seen jobs ≡ none
unfolding check_names count contains
check_names-none seen [] n d = refl
check_names-none seen (j ∷ js) n d =
    let behind =
      check_names-none (j.name ∷ seen) js (λ k i. n k (there i))
        (λ x. ground (arith, d x, eq_iff j.name x)) in
    ground (arith, behind, d j.name, eq_refl j.name, eq_iff j.name "", n j (here refl))

check_deps-none :
    (names : List String) (jobs : List WorkflowJob)
    → ((a x : String) → Edge jobs a x → (a ≢ x) × In a names)
    → check_deps names jobs ≡ none
unfolding check_deps
check_deps-none names jobs h = first_error-all _ jobs (λ j i.
    first_error-all (check_dep names j) j.depends_on (λ dep k.
      let (n, m) = h dep j.name (edge j i k refl) in
      ground (arith, eq_iff dep j.name, n, In-contains dep names m)))

check_cycle-none :
    (jobs : List WorkflowJob) (xs : List String)
    → topological_sort jobs ≡ order xs
    → check_cycle jobs ≡ none
unfolding check_cycle
check_cycle-none jobs xs e = rw (check_cycle, e) refl

In-declares_output :
    (o : ArtifactBinding) (outs : List ArtifactBinding)
    → In o outs
    → declares_output o.name outs ≡ true
unfolding declares_output
In-declares_output o [] i = elim i [ ]
In-declares_output o (p ∷ ps) (here e) =
    let same : str_eq p.name o.name ≡ true = (eq_iff p.name o.name).1 (ap (λ z. z.name) e) in
    ground (arith, same)
In-declares_output o (p ∷ ps) (there i) = ground (arith, In-declares_output o ps i)

module _ (jobs : List WorkflowJob) (distinct : (x : String) → count x (job_names jobs) ≤ 1)
    (named : (j : WorkflowJob) → In j jobs → j.name ≢ "") (j : WorkflowJob)
    (i : ArtifactBinding) where
  check_upstream-none :
      (r : Resolvable jobs j i)
      → check_upstream jobs j.name r.upstream.name r.output.name r.upstream ≡ none
  unfolding check_upstream
  check_upstream-none r =
      let (seen, e, f) = ancestors_correct jobs distinct j.name in
      rw
        (
          check_upstream,
          e,
          In-contains r.upstream.name seen ((f r.upstream.name).1 r.ancestor),
          In-declares_output r.output r.upstream.outputs r.declared,
        )
        refl

  Resolvable-check_input :
      str_eq i.from "" ≡ false → Resolvable jobs j i → check_input jobs j i ≡ none
  unfolding check_input
  Resolvable-check_input n r =
      let up : (split_dot_ref i.from).0 ≡ r.upstream.name = ap (λ p. p.0) r.reference in
      let out : (split_dot_ref i.from).1 ≡ r.output.name = ap (λ p. p.1) r.reference in
      let full : str_eq (split_dot_ref i.from).0 "" ≡ false = ground (
        arith,
        up,
        eq_iff (split_dot_ref i.from).0 "",
        eq_iff r.upstream.name "",
        named r.upstream r.of_workflow,
      ) in
      let found : lookup (split_dot_ref i.from).0 (by_name jobs []) ≡ some r.upstream =
        rw up (by_name-In jobs [] distinct r.upstream r.of_workflow) in
      rw (n, check_input, r.condition, full, found, up, out) (check_upstream-none r)

  check_input-none : (i.from ≢ "" → Resolvable jobs j i) → check_input jobs j i ≡ none
  unfolding check_input
  check_input-none h = elim (Bool-cases (str_eq i.from "")) [
    | inl y ↦ rw (check_input, y) refl
    | inr n ↦ Resolvable-check_input n (h (λ e. ground (arith, n, (eq_iff i.from "").1 e)))
  ]

validate_from_references-none :
    (jobs : List WorkflowJob) (fits : total_deps jobs < 2 ^ 64)
    → Valid jobs fits
    → validate_from_references jobs ≡ none
unfolding validate_from_references
validate_from_references-none jobs fits v = first_error-all _ jobs (λ j k.
    first_error-all (check_input jobs j) j.inputs
      (λ i m. check_input-none jobs v.sortable.distinct v.named j i (v.references j k i m)))

none_before :
    (jobs : List WorkflowJob)
    → ((x : String) → count x (job_names jobs) ≤ 1)
    → (x : String) → count x (job_names jobs) + (if contains x [] then 1 else 0) ≤ 1
unfolding contains
none_before jobs d x = omega (arith, d x)

Valid-validate_dag :
    (first : WorkflowJob) (rest : List WorkflowJob) (fits : total_deps (first ∷ rest) < 2 ^ 64)
    → Valid (first ∷ rest) fits
    → validate_dag (first ∷ rest) ≡ none
unfolding validate_dag
Valid-validate_dag first rest fits v =
    let jobs = first ∷ rest in
    let (xs, e, t) = v.sorted in
    rw
      (
        check_names-none [] jobs v.named (none_before jobs v.sortable.distinct),
        check_deps-none (job_names jobs) jobs v.known,
        check_cycle-none jobs xs e,
        validate_from_references-none jobs fits v,
      )
      refl

-- For a workflow with jobs, and fewer than 2^64 dependencies, ValidateDAG returns nil exactly where
-- its jobs have distinct names that are not empty, the dependencies are other jobs of it,
-- TopologicalSort puts it into an order where each job comes behind all that it depends on, and
-- each reference of an input stands in a job that runs on success and names an output that an
-- ancestor of the job declares.
pub validate_dag_iff :
    (first : WorkflowJob) (rest : List WorkflowJob) (fits : total_deps (first ∷ rest) < 2 ^ 64)
    → validate_dag (first ∷ rest) ≡ none ↔ Valid (first ∷ rest) fits
validate_dag_iff first rest fits =
    (validate_dag-Valid first rest fits, Valid-validate_dag first rest fits)
