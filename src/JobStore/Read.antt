-- ===== src/JobStore/Read.antt =====
-- The reads of the store (internal/cluster/job_read.go), and the writes of single fields
-- (internal/cluster/job_update_inputs.go, internal/cluster/shares.go).
use helion_v.Prelude.{
  ℕ, String, Bool, true, false, not, Option, none, some, List, [], ◌∷◌, Assoc, length, select,
  str_eq, if◌then◌else◌, lookup, insert,
}
use helion_v.Authz.{Share}
use helion_v.Job.{
  JobStatus, pending, dispatching, running, completed, failed, timeout, lost, retrying, scheduled,
  cancelled, skipped, status_eq, is_terminal, Job, ArtifactBinding,
}
use helion_v.JobStore.State.{StoreError, job_not_found, persist_failed, JobStore, write_through}

abbrev pub entries : Assoc Job → List Job
entries [] = []
entries ((k, j) ∷ m) = j ∷ entries m

-- Get
unfoldable pub get : String → JobStore → Option Job
get id s = lookup id s.jobs

-- List
unfoldable pub list : JobStore → List Job
list s = entries s.jobs

-- NonTerminal
unfoldable pub non_terminal : JobStore → List Job
non_terminal s = select (λ j. not (is_terminal j.status)) (entries s.jobs)

-- The parse of GetJobsByStatus.
unfoldable pub parse_status : String → Option JobStatus
parse_status text =
    if str_eq text "PENDING"
    then some pending
    else if str_eq text "DISPATCHING"
    then some dispatching
    else if str_eq text "RUNNING"
    then some running
    else if str_eq text "COMPLETED"
    then some completed
    else if str_eq text "FAILED"
    then some failed
    else if str_eq text "TIMEOUT"
    then some timeout
    else if str_eq text "LOST"
    then some lost
    else if str_eq text "RETRYING"
    then some retrying
    else if str_eq text "SCHEDULED"
    then some scheduled
    else if str_eq text "CANCELLED"
    then some cancelled
    else if str_eq text "SKIPPED"
    then some skipped
    else none

-- GetJobsByStatus, for a status that parsed.
unfoldable pub jobs_by_status : JobStatus → JobStore → List Job
jobs_by_status status s = select (λ j. status_eq j.status status) (entries s.jobs)

-- CountByStatus
unfoldable pub count_by_status : String → JobStore → Option ℕ
unfolding jobs_by_status parse_status
count_by_status text s = elim (parse_status text) [
  | none ↦ none
  | some status ↦ some (length (jobs_by_status status s))
]

-- CountTotal
unfoldable pub count_total : JobStore → ℕ
count_total s = length s.jobs

-- The loop of Restore over the jobs that the persister loaded.
unfoldable pub restore : List Job → Assoc Job → Assoc Job
restore [] m = m
restore (j ∷ js) m = restore js (insert j.id j m)

unfoldable pub report_saved : Bool → JobStore → JobStore × Option StoreError
report_saved false s = (s, some persist_failed)
report_saved true s = (s, none)

-- UpdateResolvedInputs
unfoldable pub update_resolved_inputs :
    String → List ArtifactBinding → JobStore → JobStore × Option StoreError
unfolding report_saved
update_resolved_inputs id inputs s = elim (lookup id s.jobs) [
  | none ↦ (s, some job_not_found)
  | some j ↦
      (let (s', saved) = write_through id (record j { inputs = inputs }) j s in
        report_saved saved s')
]

-- UpdateShares. There is no rollback: after a failed save the memory has the new list.
unfoldable pub update_shares : String → List Share → JobStore → JobStore × Option StoreError
unfolding report_saved
update_shares id shares s = elim (lookup id s.jobs) [
  | none ↦ (s, some job_not_found)
  | some j ↦
      (let changed = record j { shares = shares } in
        let (s', saved) = write_through id changed changed s in report_saved saved s')
]
