-- ===== src/WorkflowStore/Cascade.antt =====
-- What the cascade of a failure does to the statuses of the jobs.
use helion_v.Prelude.{String, true, List, In, ◌≡◌, ◌≢◌}
use helion_v.JobStore.{JobStore}
use helion_v.Workflow.{WorkflowJob}
use helion_v.Dag.{is_on_success}
use helion_v.Dag.Edges.{Below}

-- A created job of the workflow with the condition on_success that depends on the failed one,
-- directly or through others.
pub record Doomed (wjs : List WorkflowJob) (failed_job k : String) : Type 0 where
  pub job : WorkflowJob
  pub of_workflow : In job wjs
  pub below : Below wjs failed_job job.name
  pub on_success_only : is_on_success job.condition ≡ true
  pub created : job.job_id ≢ ""
  pub its_id : job.job_id ≡ k
