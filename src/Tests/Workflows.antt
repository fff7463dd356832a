-- ===== src/Tests/Workflows.antt =====
-- A workflow of three jobs, one behind the other, and runs of the workflow store.
use helion_v.Prelude.{
  String, Bool, true, false, none, some, List, [], ◌∷◌, In, ◌≡◌, ◌≢◌, ◌⊎◌, ◌↔◌, inl, inr, refl,
  arith, lookup, insert, delete, count, str_eq, eq_iff, contains, Bool-cases,
}
use helion_v.Job.{Job, JobStatus, pending, running, completed, failed, skipped}
use helion_v.JobStore.{JobStore, find_job, new_job_store}
use helion_v.JobStore.Durable.{status_of}
use helion_v.Workflow.{WorkflowJob, Workflow, on_success, no_fault, WorkflowStatus}
use helion_v.Workflow.{
  running as workflow_running, pending as workflow_pending, cancelled as workflow_cancelled,
}
use helion_v.Dag.{topological_sort, order, cycle, descendants, split_dot_ref, total_deps, by_name}
use helion_v.Dag.Edges.{Below}
use helion_v.Dag.{validate_dag}
use helion_v.Prelude.{◌<◌, ◌^◌}
use helion_v.Dag.Errors.{out_of_fuel, has_cycle, unknown_dep, from_not_ancestor}
use helion_v.Dag.Valid.{Valid}
use helion_v.Dag.Accepts.{validate_dag_iff}
use helion_v.Dag.Ends.{validate_dag_ends}
use helion_v.Job.{ArtifactBinding}
use helion_v.Dag.Downstream.{descendants_correct}
use helion_v.Dag.DotRefJoin.{joined, has_dot, split_dot_ref_iff}
use helion_v.Dag.Kahn.Invariant.{Sortable}
use helion_v.Dag.Kahn.Result.{Topological, topological_sort_correct}
use helion_v.Workflow.{failed as workflow_failed, not_created}
use helion_v.JobStore.{persist_failed}
use helion_v.WorkflowStore.{WorkflowStore, start, eligible_jobs, on_job_completed, cancel_workflow}
use helion_v.WorkflowStore.Starting.{HasChild, with_ids, Stopped, start-runs, start-orphans}
use helion_v.WorkflowStore.Eligibility.{EntryFor, eligible_jobs_iff}
use helion_v.WorkflowStore.Ending.{IsEnded, cancel_workflow-ends, cancel_workflow-ignores_fault}
use helion_v.Tests.Jobs.{job}

abbrev work : String → List String → WorkflowJob
work name deps = record {
  name = name;
  command = "make";
  args = [];
  env = [];
  timeout_seconds = 0;
  runtime = "";
  depends_on = deps;
  condition = on_success;
  priority = 0;
  job_id = "";
  working_dir = "";
  inputs = [];
  outputs = [];
  node_selector = [];
  secret_keys = [];
}

abbrev chain : List WorkflowJob
chain = work "c" ("b" ∷ []) ∷ work "a" [] ∷ work "b" ("a" ∷ []) ∷ []

abbrev loop : List WorkflowJob
loop = work "a" ("b" ∷ []) ∷ work "b" ("a" ∷ []) ∷ []

sort_test :
    (topological_sort chain ≡ order ("a" ∷ "b" ∷ "c" ∷ [])) × (topological_sort loop ≡ cycle)
unfolding topological_sort lookup insert
sort_test = (refl, refl)

descendants_test :
    (descendants chain "a" ≡ some ("b" ∷ "c" ∷ [])) × (descendants loop "a" ≡ some ("b" ∷ "a" ∷ []))
unfolding descendants lookup insert contains
descendants_test = (refl, refl)

split_test :
    (split_dot_ref "a.b.c" ≡ ("a.b", "c"))
    × (split_dot_ref ".c" ≡ ("", ""))
    × (split_dot_ref "a." ≡ ("", ""))
    × (split_dot_ref "abc" ≡ ("", ""))
unfolding split_dot_ref
split_test = (refl, refl, refl, refl)

chain-Sortable : Sortable chain
unfolding count total_deps
chain-Sortable = record {
  distinct = λ x. elim (Bool-cases (str_eq "a" x)) [
    | inl y ↦ rw (← (eq_iff "a" x).0 y) (omega arith)
    | inr n ↦ elim (Bool-cases (str_eq "b" x)) [
      | inl y ↦ rw (← (eq_iff "b" x).0 y) (omega arith)
      | inr m ↦ rw (n, m) (ground arith)
    ]
  ];
  fits = omega arith;
}

topological_sort_correct_example :
    ((xs : List String) × (topological_sort chain ≡ order xs) × Topological chain chain-Sortable xs)
    ⊎ ((topological_sort chain ≡ cycle)
        × ((ys : List String) → ¬ Topological chain chain-Sortable ys))
topological_sort_correct_example = topological_sort_correct chain chain-Sortable

descendants_correct_example :
    (ds : List String) × (descendants loop "a" ≡ some ds)
    × ((x : String) → In x ds ↔ Below loop "a" x)
descendants_correct_example = descendants_correct loop "a"

split_dot_ref_iff_example : (split_dot_ref "a.b.c" ≡ ("a.b", "c")) ↔ (
    (◌≡◌ {A = String} "a.b.c" (joined "a.b" "c"))
    × (◌≢◌ {A = String} "c" "")
    × (has_dot "c" ≡ false))
split_dot_ref_iff_example =
    split_dot_ref_iff "a.b.c" "a.b" "c" (λ e. ground (arith, eq_iff "a.b" "", e))

abbrev pub flow : List WorkflowJob → WorkflowStatus → Workflow
flow jobs status = record {
  id = "w";
  name = "flow";
  priority = 10;
  jobs = jobs;
  status = status;
  created_at = 1;
  started_at = 0;
  finished_at = 0;
  error = no_fault;
  owner_principal = "user:alice";
  shares = [];
  tags = [];
}

abbrev pub with_flow : Workflow → WorkflowStore
with_flow w = record { workflows = ("w", w) ∷ []; saved = ("w", w) ∷ []; faults = []; events = [] }

abbrev waiting : WorkflowStore
waiting = with_flow (flow chain workflow_pending)

start-runs_example :
    ((wj : WorkflowJob)
      → In wj chain
      → HasChild 5 "w" (flow chain workflow_pending) (start 5 "w" waiting (new_job_store [])).1 wj)
    × ((k : String) (a : Job)
        → find_job (new_job_store []) k ≡ some a
        → find_job (start 5 "w" waiting (new_job_store [])).1 k ≡ some a)
    × (lookup "w" (start 5 "w" waiting (new_job_store [])).0.workflows
        ≡ some (record (flow (with_ids "w" chain) workflow_running) { started_at = 5 }))
unfolding start lookup insert
start-runs_example =
    start-runs 5 "w" waiting (new_job_store []) (flow chain workflow_pending) refl refl

-- The second of the three saves fails.
abbrev failing : JobStore
failing = new_job_store (false ∷ true ∷ [])

start-orphans_example :
    Stopped 5 "w" (flow chain workflow_pending) chain (start 5 "w" waiting failing).1 "a"
    × ((w' : Workflow) × (lookup "w" (start 5 "w" waiting failing).0.workflows ≡ some w')
        × (w'.status ≡ workflow_failed)
        × (w'.error ≡ not_created "a" persist_failed))
    × ((later : JobStore) → eligible_jobs "w" (start 5 "w" waiting failing).0 later ≡ [])
unfolding start lookup insert delete
start-orphans_example =
    start-orphans 5 "w" waiting failing (flow chain workflow_pending) "a" persist_failed refl refl

abbrev started : WorkflowStore
started = with_flow (flow (with_ids "w" chain) workflow_running)

-- The jobs of the chain, with the status of the first.
abbrev jobs_of : JobStatus → List Bool → JobStore
jobs_of status faults = record (new_job_store faults) {
  jobs = ("w/a", job "w/a" status) ∷ ("w/b", job "w/b" pending) ∷ ("w/c", job "w/c" pending) ∷ [];
}

eligible_test :
    (eligible_jobs "w" started (jobs_of pending []) ≡ "w/a" ∷ [])
    × (eligible_jobs "w" started (jobs_of completed []) ≡ "w/b" ∷ [])
unfolding eligible_jobs lookup insert
eligible_test = (refl, refl)

eligible_jobs_iff_example :
    let names = by_name (with_ids "w" chain) [] in
    In "w/b" (eligible_jobs "w" started (jobs_of completed []))
    ↔ ((workflow_running ≡ workflow_running) × EntryFor names (jobs_of completed []) "w/b" names)
unfolding lookup
eligible_jobs_iff_example =
    eligible_jobs_iff "w" "w/b" started (jobs_of completed [])
      (flow (with_ids "w" chain) workflow_running) refl

failure_test :
    let after = on_job_completed 9 "w/a" failed started (jobs_of failed []) in
    (status_of (find_job after.1 "w/b") ≡ some skipped)
    × (status_of (find_job after.1 "w/c") ≡ some skipped)
unfolding on_job_completed lookup insert contains
failure_test = (refl, refl)

cancel_workflow-ends_example :
    let w = flow (with_ids "w" chain) workflow_running in
    let (s', js', answer) = cancel_workflow 9 "w" started (jobs_of running []) in
    let w' = record w { status = workflow_cancelled; finished_at = 9 } in
    (answer ≡ none)
    × (lookup "w" s'.workflows ≡ some w')
    × (lookup "w" s'.saved ≡ some w')
    × ((wj : WorkflowJob) → In wj w.jobs → wj.job_id ≢ "" → IsEnded (find_job js' wj.job_id))
    × ((k : String)
        → ((wj : WorkflowJob) → In wj w.jobs → k ≢ wj.job_id)
        → find_job js' k ≡ find_job (jobs_of running []) k)
unfolding lookup
cancel_workflow-ends_example =
    cancel_workflow-ends 9 "w" started (jobs_of running [])
      (flow (with_ids "w" chain) workflow_running) refl refl refl refl refl

abbrev single : List WorkflowJob
single = record (work "a" []) { job_id = "w/a" } ∷ []

cancel_workflow-ignores_fault_example :
    let w = flow single workflow_running in
    let js = jobs_of running (true ∷ []) in
    let (s', js', answer) = cancel_workflow 9 "w" (with_flow w) js in
    (answer ≡ none)
    × (lookup "w" s'.workflows ≡ some (record w { status = workflow_cancelled; finished_at = 9 }))
    × ((k : String) → status_of (find_job js' k) ≡ status_of (find_job js k))
unfolding lookup
cancel_workflow-ignores_fault_example =
    cancel_workflow-ignores_fault 9 "w" (with_flow (flow single workflow_running))
      (jobs_of running (true ∷ [])) (flow single workflow_running) refl refl refl (refl, tt)

-- A job that reads what the first one writes.
abbrev pub binding : String → String → ArtifactBinding
binding name from = record { name = name; uri = ""; from = from; local_path = "x"; sha256 = "" }

abbrev pub pipeline : List WorkflowJob
pipeline =
    record (work "train" ("prep" ∷ [])) { inputs = binding "data" "prep.rows" ∷ [] }
    ∷ record (work "prep" []) { outputs = binding "rows" "" ∷ [] }
    ∷ []

pipeline-fits : total_deps pipeline < 2 ^ 64
unfolding total_deps
pipeline-fits = omega arith

validate_test :
    (validate_dag pipeline ≡ none)
    × (validate_dag loop ≡ some has_cycle)
    × (validate_dag (work "a" ("z" ∷ []) ∷ []) ≡ some unknown_dep)
    × (validate_dag (record (work "b" []) { inputs = binding "i" "a.o" ∷ [] } ∷ work "a" [] ∷ [])
        ≡ some from_not_ancestor)
unfolding validate_dag lookup insert contains
validate_test = (refl, refl, refl, refl)

validate_dag_iff_example : validate_dag pipeline ≡ none ↔ Valid pipeline pipeline-fits
validate_dag_iff_example =
    validate_dag_iff
      (record (work "train" ("prep" ∷ [])) { inputs = binding "data" "prep.rows" ∷ [] })
      (record (work "prep" []) { outputs = binding "rows" "" ∷ [] } ∷ []) pipeline-fits

validate_dag_ends_example : validate_dag pipeline ≢ some out_of_fuel
validate_dag_ends_example = validate_dag_ends pipeline pipeline-fits
