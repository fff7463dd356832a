-- ===== src/WorkflowStore/Eligible.antt =====
-- EligibleJobs (internal/cluster/workflow_lifecycle.go).
use helion_v.Prelude.{
  String, Bool, true, false, ◌&&◌, ◌||◌, none, some, List, [], ◌∷◌, Assoc, lookup, str_eq,
  if◌then◌else◌,
}
use helion_v.Job.{JobStatus, completed, failed, timeout, pending, status_eq, is_terminal}
use helion_v.JobStore.{JobStore, get}
use helion_v.Workflow.{
  DependencyCondition, on_success, on_failure, on_complete, other_condition, WorkflowJob,
  workflow_status_eq,
}
use helion_v.Workflow.{running as workflow_running}
use helion_v.Dag.{by_name}
use helion_v.WorkflowStore.State.{WorkflowStore}

-- isDependencySatisfied
unfoldable pub is_dependency_satisfied : JobStatus → DependencyCondition → Bool
is_dependency_satisfied s on_success = status_eq s completed
is_dependency_satisfied s on_failure = status_eq s failed || status_eq s timeout
is_dependency_satisfied s on_complete = is_terminal s
is_dependency_satisfied s other_condition = status_eq s completed

-- One dependency of the inner loop.
unfoldable pub dep_ready : Assoc WorkflowJob → JobStore → DependencyCondition → String → Bool
unfolding get is_dependency_satisfied
dep_ready names js c dep = elim (lookup dep names) [
  | none ↦ false
  | some d ↦
      if str_eq d.job_id ""
      then false
      else elim (get d.job_id js) [ none ↦ false | some j ↦ is_dependency_satisfied j.status c ]
]

-- allSatisfied
unfoldable pub all_satisfied :
    Assoc WorkflowJob → JobStore → DependencyCondition → List String → Bool
unfolding dep_ready
all_satisfied names js c [] = true
all_satisfied names js c (dep ∷ deps) = dep_ready names js c dep && all_satisfied names js c deps

-- One turn of the outer loop.
unfoldable pub is_eligible : Assoc WorkflowJob → JobStore → WorkflowJob → Bool
unfolding get all_satisfied
is_eligible names js wj = if str_eq wj.job_id "" then false else elim (get wj.job_id js) [
  | none ↦ false
  | some j ↦ status_eq j.status pending && all_satisfied names js wj.condition wj.depends_on
]

-- The range over the map of names.
unfoldable pub eligible_among : Assoc WorkflowJob → JobStore → Assoc WorkflowJob → List String
unfolding is_eligible
eligible_among names js [] = []
eligible_among names js ((key, wj) ∷ rest) =
    let others = eligible_among names js rest in
    if is_eligible names js wj then wj.job_id ∷ others else others

-- EligibleJobs
unfoldable pub eligible_jobs : String → WorkflowStore → JobStore → List String
unfolding by_name eligible_among
eligible_jobs id s js = elim (lookup id s.workflows) [
  | none ↦ []
  | some w ↦
      if workflow_status_eq w.status workflow_running
      then (let names = by_name w.jobs [] in eligible_among names js names)
      else []
]
