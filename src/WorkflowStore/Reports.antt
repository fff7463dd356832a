-- ===== src/WorkflowStore/Reports.antt =====
-- How a workflow's jobs stand in the job store, and what the event of its end says of them.
use helion_v.Prelude.{◌+◌, String, some, List, [], ◌∷◌, ◌≡◌, ◌≢◌, ◌⊎◌}
use helion_v.Job.{JobStatus, Job, completed, failed, timeout, lost, cancelled, skipped}
use helion_v.JobStore.{JobStore, find_job}
use helion_v.Workflow.{WorkflowJob}
use helion_v.WorkflowStore.State.{Counts}

pub data HasEnded : JobStatus → Type 0 where
  well : HasEnded completed
  badly : HasEnded failed
  late : HasEnded timeout
  gone : HasEnded lost
  called_off : HasEnded cancelled
  passed_over : HasEnded skipped

-- It failed, timed out or was lost.
pub data IsBroken : JobStatus → Type 0 where
  badly : IsBroken failed
  late : IsBroken timeout
  gone : IsBroken lost

-- It broke or was skipped.
pub data IsUndone : JobStatus → Type 0 where
  broken : {s : JobStatus} → IsBroken s → IsUndone s
  passed_over : IsUndone skipped

-- The job has been created, the store has it, and its status is of this kind.
pub record Reached (js : JobStore) (wj : WorkflowJob) (Kind : JobStatus → Type 0) : Type 0 where
  pub created : wj.job_id ≢ ""
  pub job : Job
  pub found : find_job js wj.job_id ≡ some job
  pub status : Kind job.status

-- It was not created, or has ended.
abbrev pub IsSettled : JobStore → WorkflowJob → Type 0
IsSettled js wj = (wj.job_id ≡ "") ⊎ Reached js wj HasEnded

-- The numbers of the jobs, of those that completed, and of those that are undone.
pub data Counted (js : JobStore) : List WorkflowJob → Counts → Type 0 where
  no_jobs : Counted js [] (record { jobs = 0; successes = 0; failures = 0 })
  not_there :
      {wj : WorkflowJob} {rest : List WorkflowJob} {c : Counts}
      → wj.job_id ≡ ""
      → Counted js rest c
      → Counted js (wj ∷ rest) (record c { jobs = c.jobs + 1 })
  success :
      {wj : WorkflowJob} {rest : List WorkflowJob} {c : Counts}
      → Reached js wj (λ s. s ≡ completed)
      → Counted js rest c
      → Counted js (wj ∷ rest) (record c { jobs = c.jobs + 1; successes = c.successes + 1 })
  loss :
      {wj : WorkflowJob} {rest : List WorkflowJob} {c : Counts}
      → Reached js wj IsUndone
      → Counted js rest c
      → Counted js (wj ∷ rest) (record c { jobs = c.jobs + 1; failures = c.failures + 1 })
  neither :
      {wj : WorkflowJob} {rest : List WorkflowJob} {c : Counts}
      → Reached js wj (λ s. s ≡ cancelled)
      → Counted js rest c
      → Counted js (wj ∷ rest) (record c { jobs = c.jobs + 1 })

-- The name of the first job that broke, "" where there is none.
pub data FirstBroken (js : JobStore) : List WorkflowJob → String → Type 0 where
  nobody : FirstBroken js [] ""
  this :
      {wj : WorkflowJob} {rest : List WorkflowJob}
      → Reached js wj IsBroken
      → FirstBroken js (wj ∷ rest) wj.name
  later :
      {wj : WorkflowJob} {rest : List WorkflowJob} {name : String}
      → ¬ Reached js wj IsBroken
      → FirstBroken js rest name
      → FirstBroken js (wj ∷ rest) name

-- The job that reported, where it broke; else the first one that did.
abbrev pub Blames : String → JobStatus → List WorkflowJob → JobStore → String → Type 0
Blames name status wjs js blame =
    (IsBroken status × (blame ≡ name)) ⊎ ((¬ IsBroken status) × FirstBroken js wjs blame)
