-- ===== src/JobStore/RetryLoop.antt =====
-- JobStore.RetryIfEligible (internal/cluster/job_retry.go).
use helion_v.Prelude.{
  ℕ, ◌+◌, ◌%◌, ◌^◌, String, Bool, true, false, ◌&&◌, none, some, if◌then◌else◌, lookup,
}
use helion_v.Job.{pending, retrying, is_retryable, Job}
use helion_v.Job.Retry.{should_retry, next_retry_delay, wrap64}
use helion_v.JobStore.State.{job_retry, JobStore, write_through, audit_entry}

-- The job as it goes back to the queue: the attempt is counted, the assignment is cleared, and
-- the backoff is added to the clock.
abbrev pub requeue : ℕ → ℕ → Job → Job
requeue now draw j =
    let attempt = (j.attempt + 1) % 2 ^ 32 in
    record j {
      status = pending;
      attempt = attempt;
      retry_after = wrap64 (now + next_retry_delay j.spec.retry_policy attempt draw);
      node_id = "";
      dispatched_at = 0;
      finished_at = 0;
      error = "";
    }

unfoldable pub report_requeue : String → Bool → JobStore → JobStore × Bool
report_requeue id false s = (s, false)
report_requeue id true s = (audit_entry job_retry id s, true)

-- The second half, from the job that was saved as retrying. Its rollback writes retrying.
unfoldable pub retry_second : ℕ → ℕ → String → Job → Bool → JobStore → JobStore × Bool
retry_second now draw id j false s = (s, false)
retry_second now draw id j true s =
    let changed = requeue now draw j in
    let (s', saved) = write_through id changed (record changed { status = retrying }) s in
    report_requeue id saved s'

pub retry_job : ℕ → ℕ → String → Job → JobStore → JobStore × Bool
retry_job now draw id j s =
    if is_retryable j.status && should_retry j
    then (let (s', saved) = write_through id (record j { status = retrying }) j s in
        retry_second now draw id j saved s')
    else (s, false)

-- RetryIfEligible. `draw` is the random number of the jitter.
unfoldable pub retry_if_eligible : ℕ → ℕ → String → JobStore → JobStore × Bool
unfolding retry_job retry_second report_requeue should_retry
retry_if_eligible now draw id s = elim (lookup id s.jobs) [
  | none ↦ (s, false)
  | some j ↦ retry_job now draw id j s
]
