-- ===== src/Workflow.antt =====
-- Workflows: the records and statuses (internal/proto/coordinatorpb/types.go).
use helion_v.Prelude.{ℕ, String, Bool, true, false, List, Assoc, ◌==◌}
use helion_v.Authz.{Share}
use helion_v.Job.{ArtifactBinding}
use helion_v.JobStore.{StoreError}

-- An int32; `other_condition` stands for every value but the three constants.
pub data DependencyCondition : Type 0 where
  on_success on_failure on_complete other_condition : DependencyCondition

pub data WorkflowStatus : Type 0 where
  pending running completed failed cancelled : WorkflowStatus

abbrev pub workflow_status_code : WorkflowStatus → ℕ
workflow_status_code pending = 0
workflow_status_code running = 1
workflow_status_code completed = 2
workflow_status_code failed = 3
workflow_status_code cancelled = 4

abbrev pub workflow_status_eq : WorkflowStatus → WorkflowStatus → Bool
workflow_status_eq s t = workflow_status_code s == workflow_status_code t

-- WorkflowStatus.IsTerminal
abbrev pub is_workflow_terminal : WorkflowStatus → Bool
is_workflow_terminal completed = true
is_workflow_terminal failed = true
is_workflow_terminal cancelled = true
is_workflow_terminal _ = false

pub record WorkflowJob : Type 0 where
  pub name : String
  pub command : String
  pub args : List String
  pub env : Assoc String
  pub timeout_seconds : ℕ
  pub runtime : String
  pub depends_on : List String
  pub condition : DependencyCondition
  pub priority : ℕ  -- uint32
  pub job_id : String
  pub working_dir : String
  pub inputs : List ArtifactBinding
  pub outputs : List ArtifactBinding
  pub node_selector : Assoc String
  pub secret_keys : List String

-- The text of Workflow.Error, by what it is formatted from.
pub data StartFault : Type 0 where
  no_fault : StartFault
  not_created : (job_name : String) → StoreError → StartFault

pub record Workflow : Type 0 where
  pub id : String
  pub name : String
  pub priority : ℕ  -- uint32
  pub jobs : List WorkflowJob
  pub status : WorkflowStatus
  pub created_at : ℕ
  pub started_at : ℕ
  pub finished_at : ℕ
  pub error : StartFault
  pub owner_principal : String
  pub shares : List Share
  pub tags : Assoc String
