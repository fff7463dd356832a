-- ===== src/JobStore/State.antt =====
-- The state of a job store and the persister behind it (internal/cluster/job.go,
-- internal/cluster/mem_job_persister.go).
use helion_v.Prelude.{
  ℕ, String, Bool, true, false, Option, List, [], ◌∷◌, ◌++◌, Assoc, lookup, insert, if◌then◌else◌,
}
use helion_v.Job.{JobStatus, Job, ArtifactOutput}

pub data StoreError : Type 0 where
  job_not_found job_exists invalid_transition already_terminal persist_failed : StoreError

-- The audit records: the event type and the target.
pub data AuditKind : Type 0 where
  job_submitted job_transition job_lost job_retry : AuditKind

-- What is published on the event bus.
pub data Event : Type 0 where
  submitted : (job_id command : String) (priority : ℕ) → Event
  moved : (job_id : String) (from to : JobStatus) (node_id : String) → Event
  completed_with : (job_id node_id : String) (outputs : List ArtifactOutput) → Event
  failed_with : (job_id error : String) (exit_code attempt : ℕ) → Event
  unschedulable : (job_id : String) (selector : Assoc String) (reason : String) → Event
  ml_resolve_failed : (job_id workflow_id upstream output_name reason : String) → Event
  artifact_downloaded : (job_id uri : String) → Event

pub record JobStore : Type 0 where
  pub jobs : Assoc Job
  pub disk : Assoc Job
  pub faults : List Bool
  pub audit : List (AuditKind × String)
  pub events : List Event

pub record TransitionOptions : Type 0 where
  pub node_id : String
  pub exit_code : ℕ
  pub err_msg : String
  pub runtime : String
  pub resolved_outputs : List ArtifactOutput

abbrev pub no_options : TransitionOptions
no_options = record {
  node_id = "";
  exit_code = 0;
  err_msg = "";
  runtime = "";
  resolved_outputs = [];
}

-- NewJobStore
abbrev pub new_job_store : List Bool → JobStore
new_job_store faults = record { jobs = []; disk = []; faults = faults; audit = []; events = [] }

-- Whether the next SaveJob call fails, and the calls after it.
abbrev pub next_fault : List Bool → Bool
next_fault [] = false
next_fault (b ∷ later) = b

abbrev pub later_faults : List Bool → List Bool
later_faults [] = []
later_faults (b ∷ later) = later

abbrev pub find_job : JobStore → String → Option Job
find_job s id = lookup id s.jobs

abbrev pub on_disk : JobStore → String → Option Job
on_disk s id = lookup id s.disk

-- A write through the pointer that the map holds under `id`.
abbrev pub put_job : String → Job → JobStore → JobStore
put_job id j s = record s { jobs = insert id j s.jobs }

-- SaveJob: `true` is success.
abbrev pub save_job : Job → JobStore → JobStore × Bool
save_job j s =
    if next_fault s.faults
    then (record s { faults = later_faults s.faults }, false)
    else (record s { faults = later_faults s.faults; disk = insert j.id j s.disk }, true)

-- The mutation in memory, the save, and on failure the rollback: the shape that every operation
-- on an existing job shares.
abbrev pub write_through : String → Job → Job → JobStore → JobStore × Bool
write_through id changed rolled_back s =
    if next_fault s.faults
    then (record s { jobs = insert id rolled_back s.jobs; faults = later_faults s.faults }, false)
    else (
      record s {
        jobs = insert id changed s.jobs;
        disk = insert changed.id changed s.disk;
        faults = later_faults s.faults;
      },
      true,
    )

abbrev pub audit_entry : AuditKind → String → JobStore → JobStore
audit_entry kind target s = record s { audit = s.audit ++ (kind, target) ∷ [] }

abbrev pub publish : List Event → JobStore → JobStore
publish es s = record s { events = s.events ++ es }
