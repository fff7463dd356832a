-- ===== src/WorkflowStore/Progress.antt =====
-- OnJobCompleted and Cancel (internal/cluster/workflow_lifecycle.go).
use Prim.Native.String.{◌++◌}
use helion_v.Prelude.{
  ℕ, ◌+◌, String, Bool, true, false, ◌&&◌, ◌||◌, not, Option, none, some, List, [], ◌∷◌, Assoc,
  str_eq, lookup, if◌then◌else◌,
}
use mathlib.Core.List.{◌++◌ as append}
use helion_v.Job.{
  JobStatus, completed, failed, timeout, lost, skipped, status_eq, is_terminal, status_name,
}
use helion_v.JobStore.{JobStore, TransitionOptions, no_options, get, transition, mark_lost}
use helion_v.Workflow.{WorkflowJob, Workflow, workflow_status_eq, is_workflow_terminal}
use helion_v.Workflow.{
  running as workflow_running, completed as workflow_done, failed as workflow_lost,
  cancelled as workflow_cancelled,
}
use helion_v.Dag.{is_on_success, descendants}
use helion_v.WorkflowStore.State.{
  WorkflowError, workflow_not_found, workflow_already_terminal, workflow_not_saved, Counts,
  WorkflowEvent, workflow_completed, workflow_failed, WorkflowStore, save_workflow, put_workflow,
}

-- `jobStatus == failed || timeout || lost`
abbrev pub is_failure : JobStatus → Bool
is_failure s = status_eq s failed || (status_eq s timeout || status_eq s lost)

-- The name of the first job with the id.
unfoldable pub name_of : String → List WorkflowJob → Option String
name_of id [] = none
name_of id (wj ∷ rest) =
    let later = name_of id rest in if str_eq wj.job_id id then some wj.name else later

-- The search for the running workflow of a job: its key, the workflow and the job's name.
unfoldable pub find_target : String → Assoc Workflow → Option (String × Workflow × String)
unfolding name_of
find_target id [] = none
find_target id ((key, w) ∷ rest) =
    let later = find_target id rest in
    if workflow_status_eq w.status workflow_running
    then elim (name_of id w.jobs) [ none ↦ later | some name ↦ some (key, w, name) ]
    else later

-- The message of a skip. The escapes of %q are left out.
abbrev pub skip_options : String → JobStatus → TransitionOptions
skip_options name status = record no_options {
  err_msg = "upstream job \"" ++ (name ++ ("\" " ++ status_name status));
}

-- Whether the cascade takes this job, as the descendant of this name.
abbrev pub to_skip : String → WorkflowJob → Bool
to_skip descendant wj =
    (str_eq wj.name descendant && not (str_eq wj.job_id "")) && is_on_success wj.condition

-- The loop over the workflow's jobs for one descendant; the result of Transition is ignored.
unfoldable pub skip_named : ℕ → TransitionOptions → String → List WorkflowJob → JobStore → JobStore
unfolding transition
skip_named now o descendant [] js = js
skip_named now o descendant (wj ∷ rest) js =
    skip_named now o descendant rest
      (if to_skip descendant wj then (transition now wj.job_id skipped o js).0 else js)

unfoldable pub skip_all :
    ℕ → TransitionOptions → List String → List WorkflowJob → JobStore → JobStore
unfolding skip_named
skip_all now o [] wjs js = js
skip_all now o (d ∷ ds) wjs js = skip_all now o ds wjs (skip_named now o d wjs js)

-- The cascade of a failure.
unfoldable pub cascade : ℕ → String → JobStatus → List WorkflowJob → JobStore → JobStore
unfolding descendants skip_all
cascade now name status wjs js =
    if is_failure status
    then elim (descendants wjs name) [
      | none ↦ js
      | some ds ↦ skip_all now (skip_options name status) ds wjs js
    ]
    else js

pub record Tally : Type 0 where
  pub all_terminal : Bool
  pub any_failed : Bool
  pub counts : Counts

abbrev pub is_loss : JobStatus → Bool
is_loss s = is_failure s || status_eq s skipped

-- The switch on a terminal status.
abbrev pub count_end : JobStatus → Tally → Tally
count_end s t =
    if status_eq s completed
    then record t { counts = record t.counts { successes = t.counts.successes + 1 } }
    else if is_loss s
    then record t {
      any_failed = true;
      counts = record t.counts { failures = t.counts.failures + 1 };
    }
    else t

-- What the pass over the jobs finds of one.
pub data Seen : Type 0 where
  not_created missing live : Seen
  ended : JobStatus → Seen

unfoldable pub look : JobStore → String → Seen
unfolding get
look js id = if str_eq id "" then not_created else elim (get id js) [
  | none ↦ missing
  | some j ↦ if is_terminal j.status then ended j.status else live
]

abbrev pub count_job : Tally → Tally
count_job t = record t { counts = record t.counts { jobs = t.counts.jobs + 1 } }

abbrev pub looks : JobStore → List WorkflowJob → List Seen
looks js [] = []
looks js (wj ∷ rest) = look js wj.job_id ∷ looks js rest

-- The pass: it stops at the first job that has not ended.
unfoldable pub tally : List Seen → Tally → Tally
tally [] t = t
tally (not_created ∷ rest) t = tally rest (count_job t)
tally (missing ∷ rest) t = tally rest (record (count_job t) { all_terminal = false })
tally (live ∷ rest) t = record (count_job t) { all_terminal = false }
tally (ended status ∷ rest) t = tally rest (count_end status (count_job t))

abbrev pub no_tally : Tally
no_tally = record {
  all_terminal = true;
  any_failed = false;
  counts = record { jobs = 0; successes = 0; failures = 0 };
}

abbrev pub is_failed_end : Seen → Bool
is_failed_end (ended status) = is_failure status
is_failed_end _ = false

-- The search for the job to blame; "" where there is none.
unfoldable pub first_failed : JobStore → List WorkflowJob → String
unfolding look
first_failed js [] = ""
first_failed js (wj ∷ rest) =
    let later = first_failed js rest in if is_failed_end (look js wj.job_id) then wj.name else later

abbrev pub blamed : String → JobStatus → List WorkflowJob → JobStore → String
blamed name status wjs js = if is_failure status then name else first_failed js wjs

abbrev pub publish_workflow : WorkflowEvent → WorkflowStore → WorkflowStore
publish_workflow e s = record s { events = append s.events (e ∷ []) }

-- The end of the workflow; the result of SaveWorkflow is ignored.
unfoldable pub end_workflow :
    ℕ → String → Workflow → String → JobStatus → Tally → JobStore → WorkflowStore → WorkflowStore
unfolding first_failed
end_workflow now key w name status t js s =
    if t.any_failed
    then (let w' = record w { status = workflow_lost; finished_at = now } in
        publish_workflow
          (workflow_failed w.id (blamed name status w.jobs js) w.owner_principal t.counts w.tags
            w.started_at now)
          (save_workflow w' (put_workflow key w' s)).0)
    else (let w' = record w { status = workflow_done; finished_at = now } in
        publish_workflow
          (workflow_completed w.id w.owner_principal t.counts w.tags w.started_at now)
          (save_workflow w' (put_workflow key w' s)).0)

unfoldable pub complete_job :
    ℕ → JobStatus → String × Workflow × String → WorkflowStore → JobStore → WorkflowStore × JobStore
unfolding cascade tally end_workflow look
complete_job now status (key, w, name) s js =
    let js' = cascade now name status w.jobs js in
    let t = tally (looks js' w.jobs) no_tally in
    if t.all_terminal then (end_workflow now key w name status t js' s, js') else (s, js')

-- OnJobCompleted
unfoldable pub on_job_completed :
    ℕ → String → JobStatus → WorkflowStore → JobStore → WorkflowStore × JobStore
unfolding find_target complete_job
on_job_completed now id status s js = elim (find_target id s.workflows) [
  | none ↦ (s, js)
  | some target ↦ complete_job now status target s js
]

-- The loop of Cancel; the result of MarkLost is ignored.
unfoldable pub lose_jobs : ℕ → List WorkflowJob → JobStore → JobStore
unfolding mark_lost
lose_jobs now [] js = js
lose_jobs now (wj ∷ rest) js =
    lose_jobs now rest
      (if str_eq wj.job_id "" then js else (mark_lost now wj.job_id "workflow cancelled" js).0)

abbrev pub finish_cancel :
    ℕ → String → Workflow → WorkflowStore → WorkflowStore × Option WorkflowError
finish_cancel now id w s =
    let w' = record w { status = workflow_cancelled; finished_at = now } in
    let (s', saved) = save_workflow w' (put_workflow id w' s) in
    (s', if saved then none else some workflow_not_saved)

-- Cancel
unfoldable pub cancel_workflow :
    ℕ → String → WorkflowStore → JobStore → WorkflowStore × JobStore × Option WorkflowError
unfolding lose_jobs
cancel_workflow now id s js = elim (lookup id s.workflows) [
  | none ↦ (s, js, some workflow_not_found)
  | some w ↦
      if is_workflow_terminal w.status
      then (s, js, some workflow_already_terminal)
      else (let (s', answer) = finish_cancel now id w s in (s', lose_jobs now w.jobs js, answer))
]
