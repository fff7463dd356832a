-- ===== src/WorkflowStore/Read.antt =====
-- The reads of the workflow store (internal/cluster/workflow_read.go).
use helion_v.Prelude.{String, Option, List, [], ◌∷◌, Assoc, lookup, insert, if◌then◌else◌}
use helion_v.Workflow.{Workflow, running, workflow_status_eq}
use helion_v.WorkflowStore.State.{WorkflowStore}

abbrev pub all_workflows : Assoc Workflow → List Workflow
all_workflows [] = []
all_workflows ((key, w) ∷ rest) = w ∷ all_workflows rest

-- Get
unfoldable pub get_workflow : String → WorkflowStore → Option Workflow
get_workflow id s = lookup id s.workflows

-- List
unfoldable pub list_workflows : WorkflowStore → List Workflow
list_workflows s = all_workflows s.workflows

unfoldable pub running_ids : List Workflow → List String
running_ids [] = []
running_ids (w ∷ ws) =
    let rest = running_ids ws in if workflow_status_eq w.status running then w.id ∷ rest else rest

-- RunningWorkflowIDs
unfoldable pub running_workflow_ids : WorkflowStore → List String
unfolding running_ids
running_workflow_ids s = running_ids (all_workflows s.workflows)

abbrev pub restore_all : List Workflow → Assoc Workflow → Assoc Workflow
restore_all [] m = m
restore_all (w ∷ ws) m = restore_all ws (insert w.id w m)

-- Restore, where LoadAllWorkflows succeeds.
unfoldable pub restore_workflows : WorkflowStore → WorkflowStore
restore_workflows s = record s { workflows = restore_all (all_workflows s.saved) s.workflows }
