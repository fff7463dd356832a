-- ===== src/WorkflowStore/State.antt =====
-- The state of a workflow store and the persister behind it (internal/cluster/workflow.go,
-- internal/cluster/mem_workflow_persister.go).
use helion_v.Prelude.{ℕ, String, Bool, true, false, List, [], Assoc, insert, if◌then◌else◌}
use helion_v.JobStore.{StoreError, next_fault, later_faults}
use helion_v.Workflow.{WorkflowStatus, Workflow}
use helion_v.Dag.Errors.{DagError}

pub data WorkflowError : Type 0 where
  workflow_not_found workflow_exists workflow_already_terminal workflow_empty : WorkflowError
  invalid_dag : DagError → WorkflowError
  cannot_start : WorkflowStatus → WorkflowError
  job_not_created : (name : String) → StoreError → WorkflowError
  workflow_not_saved : WorkflowError

pub record Counts : Type 0 where
  pub jobs : ℕ
  pub successes : ℕ
  pub failures : ℕ

pub data WorkflowEvent : Type 0 where
  workflow_completed :
      (id owner : String) → Counts → (tags : Assoc String) → (started finished : ℕ) → WorkflowEvent
  workflow_failed :
      (id failed_job owner : String)
      → Counts
      → (tags : Assoc String) → (started finished : ℕ) → WorkflowEvent

-- `saved` is what the persister holds, `faults` what its next SaveWorkflow calls return.
pub record WorkflowStore : Type 0 where
  pub workflows : Assoc Workflow
  pub saved : Assoc Workflow
  pub faults : List Bool
  pub events : List WorkflowEvent

-- NewWorkflowStore
abbrev pub new_workflow_store : List Bool → WorkflowStore
new_workflow_store faults = record { workflows = []; saved = []; faults = faults; events = [] }

-- SaveWorkflow: `true` is success.
abbrev pub save_workflow : Workflow → WorkflowStore → WorkflowStore × Bool
save_workflow w s =
    if next_fault s.faults
    then (record s { faults = later_faults s.faults }, false)
    else (record s { faults = later_faults s.faults; saved = insert w.id w s.saved }, true)

-- A write through the pointer that the map holds under `id`.
abbrev pub put_workflow : String → Workflow → WorkflowStore → WorkflowStore
put_workflow id w s = record s { workflows = insert id w s.workflows }
