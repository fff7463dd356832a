-- ===== src/JobStore/Transition.antt =====
-- JobStore.Transition, MarkLost and resetToPending (internal/cluster/job_transition.go).
use helion_v.Prelude.{
  ℕ, String, Bool, true, false, Option, none, some, List, [], ◌∷◌, str_eq, if◌then◌else◌, lookup,
}
use helion_v.Job.{
  JobStatus, pending, dispatching, completed, failed, timeout, lost, scheduled, cancelled, skipped,
  status_eq, is_terminal, is_allowed, Job, ArtifactOutput,
}
use helion_v.JobStore.State.{
  StoreError, job_not_found, invalid_transition, already_terminal, persist_failed, job_transition,
  job_lost, Event, moved, completed_with, failed_with, JobStore, TransitionOptions, write_through,
  audit_entry, publish,
}

-- `if v != "" { field = v }`
abbrev pub or_keep : String → String → String
or_keep given old = if str_eq given "" then old else given

abbrev pub or_keep_outputs : List ArtifactOutput → List ArtifactOutput → List ArtifactOutput
or_keep_outputs [] old = old
or_keep_outputs (o ∷ os) old = o ∷ os

abbrev pub finish : ℕ → TransitionOptions → Job → Job
finish now o j = record j {
  finished_at = now;
  exit_code = o.exit_code;
  error = or_keep o.err_msg j.error;
  runtime = or_keep o.runtime j.runtime;
}

abbrev pub stop : ℕ → TransitionOptions → Job → Job
stop now o j = record j { finished_at = now; error = or_keep o.err_msg j.error }

-- The `switch to` of the mutation, behind `j.Status = to`.
pub mutate_fields : JobStatus → ℕ → TransitionOptions → Job → Job
mutate_fields dispatching now o j = record j {
  dispatched_at = now;
  node_id = or_keep o.node_id j.node_id;
}
mutate_fields scheduled now o j = record j { node_id = or_keep o.node_id j.node_id }
mutate_fields completed now o j = record (finish now o j) {
  resolved_outputs = or_keep_outputs o.resolved_outputs j.resolved_outputs;
}
mutate_fields failed now o j = finish now o j
mutate_fields timeout now o j = finish now o j
mutate_fields cancelled now o j = stop now o j
mutate_fields skipped now o j = stop now o j
mutate_fields _ now o j = j

unfoldable pub mutate : JobStatus → ℕ → TransitionOptions → Job → Job
unfolding mutate_fields
mutate to now o j = record (mutate_fields to now o j) { status = to }

-- The events behind the transition event, by the target status.
unfoldable pub outcome_events : JobStatus → String → Job → List Event
outcome_events completed id snap = completed_with id snap.node_id snap.resolved_outputs ∷ []
outcome_events failed id snap = failed_with id snap.error snap.exit_code snap.attempt ∷ []
outcome_events _ id snap = []

unfoldable pub report_transition :
    String → JobStatus → Job → Bool → JobStore → JobStore × Option StoreError
report_transition id from snap false s = (s, some persist_failed)
report_transition id from snap true s = (
  publish (moved id from snap.status snap.node_id ∷ outcome_events snap.status id snap)
      (audit_entry job_transition id s),
  none,
)

pub transition_job :
    ℕ → String → JobStatus → TransitionOptions → Job → JobStore → JobStore × Option StoreError
transition_job now id to o j s =
    if is_terminal j.status
    then (s, some already_terminal)
    else if is_allowed j.status to
    then (let changed = mutate to now o j in
        let (s', saved) = write_through id changed (record changed { status = j.status }) s in
        report_transition id j.status changed saved s')
    else (s, some invalid_transition)

-- Transition
unfoldable pub transition :
    ℕ → String → JobStatus → TransitionOptions → JobStore → JobStore × Option StoreError
unfolding transition_job report_transition outcome_events mutate
transition now id to o s = elim (lookup id s.jobs) [
  | none ↦ (s, some job_not_found)
  | some j ↦ transition_job now id to o j s
]

unfoldable pub report_lost : String → Bool → JobStore → JobStore × Option StoreError
report_lost id false s = (s, some persist_failed)
report_lost id true s = (audit_entry job_lost id s, none)

abbrev pub lose : ℕ → String → Job → Job
lose now reason j = record j { status = lost; finished_at = now; error = reason }

-- MarkLost. The rollback restores the status alone.
unfoldable pub mark_lost : ℕ → String → String → JobStore → JobStore × Option StoreError
unfolding report_lost
mark_lost now id reason s = elim (lookup id s.jobs) [
  | none ↦ (s, some job_not_found)
  | some j ↦
      if is_terminal j.status
      then (s, none)
      else (let changed = lose now reason j in
          let (s', saved) = write_through id changed (record changed { status = j.status }) s in
          report_lost id saved s')
]

unfoldable pub report_reset : Bool → JobStore → JobStore × Option StoreError
report_reset false s = (s, some persist_failed)
report_reset true s = (s, none)

-- resetToPending. The rollback writes dispatching, whatever the status was.
unfoldable pub reset_to_pending : String → JobStore → JobStore × Option StoreError
unfolding report_reset
reset_to_pending id s = elim (lookup id s.jobs) [
  | none ↦ (s, some job_not_found)
  | some j ↦
      if status_eq j.status pending
      then (s, none)
      else if is_terminal j.status
      then (s, none)
      else (let (s', saved) =
            write_through id (record j { status = pending }) (record j { status = dispatching })
              s in
          report_reset saved s')
]
