-- ===== src/JobStore/Submit.antt =====
-- JobStore.Submit (internal/cluster/job_submit.go).
use helion_v.Prelude.{ℕ, Option, none, some, [], ◌∷◌, ◌==◌, if◌then◌else◌, lookup, insert, delete}
use helion_v.Job.{pending, Job}
use helion_v.JobStore.State.{
  StoreError, job_exists, persist_failed, job_submitted, submitted, JobStore, next_fault,
  later_faults, audit_entry, publish,
}

-- The defaults that Submit fills in before it takes the lock.
abbrev pub prepare : ℕ → Job → Job
prepare now j = record j {
  status = pending;
  created_at = now;
  attempt = if j.attempt == 0 then 1 else j.attempt;
  priority = if j.priority == 0 then 50 else j.priority;
}

-- The entry is in the map before the save, and is deleted when the save fails.
pub insert_new : Job → JobStore → JobStore × Option StoreError
insert_new j s =
    if next_fault s.faults
    then (
      record s { jobs = delete j.id (insert j.id j s.jobs); faults = later_faults s.faults },
      some persist_failed,
    )
    else (
      publish (submitted j.id j.spec.command j.priority ∷ []) (
          audit_entry job_submitted j.id (record s {
            jobs = insert j.id j s.jobs;
            disk = insert j.id j s.disk;
            faults = later_faults s.faults;
          })),
      none,
    )

unfoldable pub submit : ℕ → Job → JobStore → JobStore × Option StoreError
unfolding insert_new
submit now j s = elim (lookup j.id s.jobs) [
  | some _ ↦ (s, some job_exists)
  | none ↦ insert_new (prepare now j) s
]
