-- ===== src/WorkflowStore/Submit.antt =====
-- WorkflowStore.Submit and Start (internal/cluster/workflow_submit.go).
use Prim.Native.String.{◌++◌}
use helion_v.Prelude.{
  ℕ, String, Option, none, some, List, [], ◌∷◌, lookup, delete, ltb, if◌then◌else◌,
}
use helion_v.Principal.{subject_from_id}
use helion_v.Job.{Job, ResourceRequest}
use helion_v.Job.{unknown as no_status}
use helion_v.JobStore.{StoreError, JobStore, submit}
use helion_v.Workflow.{
  WorkflowJob, Workflow, pending, running, failed, workflow_status_eq, not_created,
}
use helion_v.Dag.{validate_dag}
use helion_v.WorkflowStore.State.{
  WorkflowError, workflow_not_found, workflow_exists, workflow_empty, invalid_dag, cannot_start,
  job_not_created, workflow_not_saved, WorkflowStore, save_workflow, put_workflow,
}

-- The entry is in the map before the save, and is deleted when the save fails.
abbrev pub insert_workflow : Workflow → WorkflowStore → WorkflowStore × Option WorkflowError
insert_workflow w s =
    let (s', saved) = save_workflow w (put_workflow w.id w s) in
    if saved
    then (s', none)
    else (record s' { workflows = delete w.id s'.workflows }, some workflow_not_saved)

-- Submit
unfoldable pub submit_workflow : ℕ → Workflow → WorkflowStore → WorkflowStore × Option WorkflowError
unfolding validate_dag
submit_workflow now w s = elim w.jobs [
  | [] ↦ (s, some workflow_empty)
  | _ ∷ _ ↦ elim (validate_dag w.jobs) [
    | some e ↦ (s, some (invalid_dag e))
    | none ↦ elim (lookup w.id s.workflows) [
      | some _ ↦ (s, some workflow_exists)
      | none ↦ insert_workflow (record w { status = pending; created_at = now }) s
    ]
  ]
]

abbrev no_resources : ResourceRequest
no_resources = record { cpu_millicores = 0; memory_bytes = 0; slots = 0; gpus = 0 }

-- The id of the job that a workflow job becomes.
abbrev pub child_id : String → String → String
child_id workflow_id name = workflow_id ++ ("/" ++ name)

-- The job that Start builds.
unfoldable pub materialise : String → Workflow → WorkflowJob → Job
unfolding subject_from_id
materialise workflow_id w wj = record {
  id = child_id workflow_id wj.name;
  spec = record {
    command = wj.command;
    args = wj.args;
    env = wj.env;
    timeout_seconds = wj.timeout_seconds;
    submitted_by = subject_from_id w.owner_principal;
    owner_principal = w.owner_principal;
    workflow_id = workflow_id;
    resources = no_resources;
    retry_policy = none;
    working_dir = wj.working_dir;
    outputs = wj.outputs;
    node_selector = wj.node_selector;
    secret_keys = wj.secret_keys;
  };
  node_id = "";
  status = no_status;
  created_at = 0;
  dispatched_at = 0;
  finished_at = 0;
  exit_code = 0;
  error = "";
  runtime = "";
  priority = if ltb 0 wj.priority then wj.priority else w.priority;
  attempt = 0;
  retry_after = 0;
  inputs = wj.inputs;
  resolved_outputs = [];
  shares = [];
}

-- The loop of Start: the workflow's jobs with the ids written so far, the job store, and the
-- name and error at which the loop stopped.
unfoldable pub create_jobs :
    ℕ
    → String
    → Workflow
    → List WorkflowJob
    → JobStore
    → List WorkflowJob × JobStore × Option (String × StoreError)
unfolding submit materialise
create_jobs now workflow_id w [] js = ([], js, none)
create_jobs now workflow_id w (wj ∷ rest) js =
    let wj' = record wj { job_id = child_id workflow_id wj.name } in
    let (js', answer) = submit now (materialise workflow_id w wj) js in
    let (rest', js'', answer') = create_jobs now workflow_id w rest js' in
    elim answer [
      | some e ↦ (wj' ∷ rest, js', some (wj.name, e))
      | none ↦ (wj' ∷ rest', js'', answer')
    ]

-- The failed branch of Start, whose save may fail unnoticed, and the successful one.
abbrev pub finish_start :
    ℕ
    → String
    → Workflow
    → Option (String × StoreError)
    → WorkflowStore
    → WorkflowStore × Option WorkflowError
finish_start now id w none s =
    let w' = record w { status = running; started_at = now } in
    let (s', saved) = save_workflow w' (put_workflow id w' s) in
    (s', if saved then none else some workflow_not_saved)
finish_start now id w (some (name, e)) s =
    let w' = record w { status = failed; error = not_created name e; finished_at = now } in
    ((save_workflow w' (put_workflow id w' s)).0, some (job_not_created name e))

-- Start
unfoldable pub start :
    ℕ → String → WorkflowStore → JobStore → WorkflowStore × JobStore × Option WorkflowError
unfolding create_jobs
start now id s js = elim (lookup id s.workflows) [
  | none ↦ (s, js, some workflow_not_found)
  | some w ↦
      if workflow_status_eq w.status pending
      then (let (wjs, js', answer) = create_jobs now id w w.jobs js in
          let (s', answer') = finish_start now id (record w { jobs = wjs }) answer s in
          (s', js', answer'))
      else (s, js, some (cannot_start w.status))
]
