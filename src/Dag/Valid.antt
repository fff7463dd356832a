-- ===== src/Dag/Valid.antt =====
-- What ValidateDAG accepts.
use helion_v.Prelude.{
  ◌+◌, ◌^◌, ◌≤◌, ◌<◌, String, true, false, Option, none, some, List, [], ◌∷◌, In, here, there,
  lookup, count, contains, contains-In, ◌≡◌, ◌≢◌, inl, inr, refl, sym, ◌∙◌, arith, str_eq, eq_iff,
  Bool-cases, Option-cases, if◌then◌else◌, subst,
}
use helion_v.Job.{ArtifactBinding}
use helion_v.Workflow.{WorkflowJob}
use helion_v.Dag.Errors.{DagError}
use helion_v.Dag.DotRef.{split_dot_ref}
use helion_v.Dag.Sort.{order, topological_sort}
use helion_v.Dag.From.{
  by_name, is_on_success, declares_output, check_upstream, check_input, first_error,
  validate_from_references, total_deps,
}
use helion_v.Dag.Checks.{
  job_names, check_names, check_dep, check_deps, check_cycle, and_then, validate_dag,
}
use helion_v.Dag.Edges.{Edge, edge, Below}
use helion_v.Dag.ByName.{found-In}
use helion_v.Dag.Ancestry.{ancestors_correct}
use helion_v.Dag.Kahn.Invariant.{Sortable}
use helion_v.Dag.Kahn.Result.{Topological, topological_sort_correct}

first_error-none :
    {A : Type 0} (check : A → Option DagError) (xs : List A)
    → first_error check xs ≡ none
    → (x : A) → In x xs
    → check x ≡ none
unfolding first_error
first_error-none check [] h x i = elim i [ ]
first_error-none check (y ∷ ys) h x i =
    let behind = first_error-none check ys in
    elim (Option-cases (check y)) [
      | inr (e, k) ↦ (let bad : ⊥ = ground (arith, (rw (k, first_error) at h)) in elim bad [ ])
      | inl k ↦ elim i [
        | here e ↦ subst (λ z. check z ≡ none) e k
        | there j ↦ behind (rw (k, first_error) at h) x j
      ]
    ]

check_names-named :
    (seen : List String) (jobs : List WorkflowJob)
    → check_names seen jobs ≡ none
    → (j : WorkflowJob) → In j jobs
    → j.name ≢ ""
unfolding check_names
check_names-named seen [] h j i = elim i [ ]
check_names-named seen (x ∷ xs) h j (here e) =
    subst (λ z. z.name ≢ "") e (λ k. ground (arith, h, eq_iff x.name "", k))
check_names-named seen (x ∷ xs) h j (there i) =
    check_names-named (x.name ∷ seen) xs (ground (arith, h)) j i

pub check_names-distinct :
    (seen : List String) (jobs : List WorkflowJob)
    → check_names seen jobs ≡ none
    → (x : String) → count x (job_names jobs) + (if contains x seen then 1 else 0) ≤ 1
unfolding check_names count contains
check_names-distinct seen [] h x = ground arith
check_names-distinct seen (j ∷ js) h x =
    ground
      (arith, check_names-distinct (j.name ∷ seen) js (ground (arith, h)) x, eq_iff j.name x, h)

-- A dependency is another job of the workflow.
check_dep-known :
    (names : List String) (j : WorkflowJob) (dep : String)
    → check_dep names j dep ≡ none
    → (dep ≢ j.name) × In dep names
check_dep-known names j dep h =
    (λ e. ground (arith, h, eq_iff dep j.name, e), contains-In dep names (ground (arith, h)))

check_deps-known :
    (names : List String) (jobs : List WorkflowJob)
    → check_deps names jobs ≡ none
    → (a x : String) → Edge jobs a x
    → (a ≢ x) × In a names
unfolding check_deps
check_deps-known names jobs h a x (edge j i d e) =
    let one =
      first_error-none (check_dep names j) j.depends_on
        (first_error-none (λ k. first_error (check_dep names k) k.depends_on) jobs h j i) a d in
    let (n, k) = check_dep-known names j a one in (λ f. n (f ∙ sym e), k)

declares_output-In :
    (name : String) (outs : List ArtifactBinding)
    → declares_output name outs ≡ true
    → (o : ArtifactBinding) × In o outs × (o.name ≡ name)
unfolding declares_output
declares_output-In name [] h = (let bad : ⊥ = ground (arith, h) in elim bad [ ])
declares_output-In name (o ∷ os) h =
    let behind = declares_output-In name os in
    elim (Bool-cases (str_eq o.name name)) [
      | inl y ↦ (o, here refl, (eq_iff o.name name).0 y)
      | inr n ↦ (let (p, i, e) = behind (ground (arith, h, n)) in (p, there i, e))
    ]

pair_eq : {a b c d : String} → a ≡ c → b ≡ d → ◌≡◌ {A = String × String} (a, b) (c, d)
pair_eq e f = cc

-- The reference of an input names an output that an ancestor declares, and the job runs only when
-- all that it depends on has succeeded.
pub record Resolvable (jobs : List WorkflowJob) (j : WorkflowJob) (i : ArtifactBinding)
    : Type 0 where
  pub condition : is_on_success j.condition ≡ true
  pub upstream : WorkflowJob
  pub of_workflow : In upstream jobs
  pub output : ArtifactBinding
  pub declared : In output upstream.outputs
  pub reference : split_dot_ref i.from ≡ (upstream.name, output.name)
  pub ancestor : Below jobs upstream.name j.name

module _ (jobs : List WorkflowJob) (distinct : (x : String) → count x (job_names jobs) ≤ 1)
    (j : WorkflowJob) where
  check_upstream-ancestor :
      (upstream output : String) (up : WorkflowJob)
      → check_upstream jobs j.name upstream output up ≡ none
      → Below jobs upstream j.name × ((o : ArtifactBinding) × In o up.outputs × (o.name ≡ output))
  unfolding check_upstream
  check_upstream-ancestor upstream output up h =
      let (seen, e, f) = ancestors_correct jobs distinct j.name in
      let answer = rw (e, check_upstream) at h in
      (
        (f upstream).0 (contains-In upstream seen (ground (arith, answer))),
        declares_output-In output up.outputs (ground (arith, answer)),
      )

  check_input-Resolvable :
      (i : ArtifactBinding) → i.from ≢ "" → check_input jobs j i ≡ none → Resolvable jobs j i
  unfolding check_input
  check_input-Resolvable i n h =
      let some_from : str_eq i.from "" ≡ false = ground (arith, eq_iff i.from "", n) in
      elim (Bool-cases (is_on_success j.condition)) [
        | inr c ↦
            (let bad : ⊥ = ground (arith, (rw (some_from, check_input, c) at h)) in elim bad [ ])
        | inl c ↦ elim (Bool-cases (str_eq (split_dot_ref i.from).0 "")) [
          | inl m ↦
              (let bad : ⊥ = ground (arith, (rw (some_from, check_input, c, m) at h)) in
                elim bad [ ])
          | inr m ↦ elim (Option-cases (lookup (split_dot_ref i.from).0 (by_name jobs []))) [
            | inl l ↦
                (let bad : ⊥ = ground (arith, (rw (some_from, check_input, c, m, l) at h)) in
                  elim bad [ ])
            | inr (up, l) ↦
                let (k, e) = found-In jobs (split_dot_ref i.from).0 up l in
                let (b, (o, d, f)) =
                  check_upstream-ancestor (split_dot_ref i.from).0 (split_dot_ref i.from).1 up
                    (rw (some_from, check_input, c, m, l) at h) in
                record {
                  condition = c;
                  upstream = up;
                  of_workflow = k;
                  output = o;
                  declared = d;
                  reference = pair_eq (sym e) (sym f);
                  ancestor = subst (λ z. Below jobs z j.name) (sym e) b;
                }
          ]
        ]
      ]

check_cycle-Topological :
    (jobs : List WorkflowJob) (ok : Sortable jobs)
    → check_cycle jobs ≡ none
    → (xs : List String) × (topological_sort jobs ≡ order xs) × Topological jobs ok xs
unfolding check_cycle
check_cycle-Topological jobs ok h = elim (topological_sort_correct jobs ok) [
  | inl r ↦ r
  | inr (c, n) ↦ (let bad : ⊥ = ground (arith, (rw (c, check_cycle) at h)) in elim bad [ ])
]

-- What a workflow that is accepted has.
pub record Valid (jobs : List WorkflowJob) (fits : total_deps jobs < 2 ^ 64) : Type 0 where
  pub named : (j : WorkflowJob) → In j jobs → j.name ≢ ""
  pub sortable : Sortable jobs
  pub known : (a x : String) → Edge jobs a x → (a ≢ x) × In a (job_names jobs)
  pub sorted :
      (xs : List String) × (topological_sort jobs ≡ order xs) × Topological jobs sortable xs
  pub references :
      (j : WorkflowJob)
      → In j jobs
      → (i : ArtifactBinding) → In i j.inputs
      → i.from ≢ ""
      → Resolvable jobs j i

and_then-both : (a b : Option DagError) → and_then a b ≡ none → (a ≡ none) × (b ≡ none)
and_then-both none b h = (refl, h)
and_then-both (some e) b h = (let bad : ⊥ = ground (arith, h) in elim bad [ ])

-- A workflow with jobs, and fewer than 2^64 dependencies, that ValidateDAG accepts has distinct
-- names that are not empty, its dependencies are other jobs of it, TopologicalSort puts it into an
-- order where each job comes behind all that it depends on, and each reference of an input names
-- an output that an ancestor of the job declares.
pub validate_dag-Valid :
    (first : WorkflowJob) (rest : List WorkflowJob) (fits : total_deps (first ∷ rest) < 2 ^ 64)
    → validate_dag (first ∷ rest) ≡ none
    → Valid (first ∷ rest) fits
unfolding validate_dag validate_from_references
validate_dag-Valid first rest fits h =
    let jobs = first ∷ rest in
    let (a, h1) = and_then-both (check_names [] jobs) _ h in
    let (b, h2) = and_then-both (check_deps (job_names jobs) jobs) _ h1 in
    let (c, d) = and_then-both (check_cycle jobs) _ h2 in
    let distinct : ((x : String) → count x (job_names jobs) ≤ 1) =
      λ x. (let k = check_names-distinct [] jobs a x in omega (arith, k)) in
    let ok : Sortable jobs = record { distinct = distinct; fits = fits } in
    record {
      named = check_names-named [] jobs a;
      sortable = ok;
      known = check_deps-known (job_names jobs) jobs b;
      sorted = check_cycle-Topological jobs ok c;
      references = λ j i input k n. check_input-Resolvable jobs distinct j input n (
          first_error-none (check_input jobs j) j.inputs
            (first_error-none (λ z. first_error (check_input jobs z) z.inputs) jobs d j i) input k);
    }
