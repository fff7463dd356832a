-- ===== src/WorkflowStore/Ends.antt =====
-- How OnJobCompleted (internal/cluster/workflow_lifecycle.go) ends a workflow, by its jobs in the
-- job store.
use helion_v.Prelude.{ℕ, String, In, ◌⊎◌}
use helion_v.JobStore.{JobStore}
use helion_v.Workflow.{WorkflowJob, Workflow}
use helion_v.Workflow.{completed as workflow_done, failed as workflow_lost}
use helion_v.WorkflowStore.State.{Counts, workflow_completed, workflow_failed, WorkflowStore}
use helion_v.WorkflowStore.Outcome.{EndsWith}
use helion_v.WorkflowStore.Reports.{IsUndone, Reached}

-- The workflow has failed, as some job is undone, or it has completed, as none is.
abbrev pub Closed :
    ℕ → String → Workflow → String → Counts → WorkflowStore → WorkflowStore → JobStore → Type 0
Closed now key w blame counts s s' js =
    (((wj : WorkflowJob) × In wj w.jobs × Reached js wj IsUndone)
      × EndsWith now key w workflow_lost
          (workflow_failed w.id blame w.owner_principal counts w.tags w.started_at now) s s')
    ⊎ (((wj : WorkflowJob) → In wj w.jobs → ¬ Reached js wj IsUndone)
        × EndsWith now key w workflow_done
            (workflow_completed w.id w.owner_principal counts w.tags w.started_at now) s s')
