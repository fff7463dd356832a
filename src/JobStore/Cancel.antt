-- ===== src/JobStore/Cancel.antt =====
-- JobStore.CancelJob (internal/cluster/job_cancel.go). The lock is released between the check and
-- the write, so the two halves are functions of their own.
use helion_v.Prelude.{ℕ, String, Option, none, some, if◌then◌else◌, lookup}
use Prim.Native.String.{◌++◌}
use helion_v.Job.{cancelled, is_terminal, is_allowed, Job}
use helion_v.JobStore.State.{StoreError, job_not_found, already_terminal, JobStore, no_options}
use helion_v.JobStore.Transition.{transition, mark_lost}

-- What the check decides.
pub data CancelPlan : Type 0 where
  refuse : StoreError → CancelPlan
  by_lost : CancelPlan
  by_transition : CancelPlan

pub plan_job : Job → CancelPlan
plan_job j =
    if is_terminal j.status
    then refuse already_terminal
    else if is_allowed j.status cancelled
    then by_transition
    else by_lost

unfoldable pub cancel_check : String → JobStore → CancelPlan
unfolding plan_job
cancel_check id s = elim (lookup id s.jobs) [ none ↦ refuse job_not_found | some j ↦ plan_job j ]

unfoldable pub cancel_act :
    CancelPlan → ℕ → String → String → JobStore → JobStore × Option StoreError
cancel_act (refuse e) now id reason s = (s, some e)
cancel_act by_lost now id reason s = mark_lost now id ("cancelled: " ++ reason) s
cancel_act by_transition now id reason s =
    transition now id cancelled (record no_options { err_msg = reason }) s

-- CancelJob with no other operation between its halves.
unfoldable pub cancel_job : ℕ → String → String → JobStore → JobStore × Option StoreError
unfolding cancel_check cancel_act
cancel_job now id reason s = cancel_act (cancel_check id s) now id reason s
