-- ===== src/Tests/Jobs.antt =====
-- A job store with two jobs, and runs of its operations.
use helion_v.Prelude.{
  ◌+◌, ◌≤◌, ◌<◌, ◌/◌, String, Bool, true, false, Option, none, some, List, [], ◌∷◌, ◌++◌, ◌≡◌, ◌≢◌,
  ◌⊎◌, ◌↔◌, refl, arith, eq_iff, str_eq, if◌then◌else◌, lookup, insert,
}
use helion_v.Job.{
  JobStatus, pending, dispatching, running, completed, failed, timeout, scheduled, exponential,
  RetryPolicy, JobSpec, Job,
}
use helion_v.Job.Retry.{next_retry_delay}
use helion_v.Job.Retry.Backoff.{retry_delay_bounds, exponential_vanishes}
use helion_v.JobStore.{
  JobStore, TransitionOptions, Event, submitted, job_exists, persist_failed, new_job_store,
  no_options, find_job, on_disk, submit, prepare, transition, reset_to_pending, by_transition,
  retry_if_eligible, moved, next_fault,
}
use helion_v.JobStore.Trace.{
  Op, submitting, moving, cancelling, requeueing, run, run-ownership, run-is_final, is_final,
  run-attempts, IsCounted,
}
use helion_v.JobStore.Written.{Written, Reported}
use helion_v.JobStore.Durable.{IsDurable, status_of}
use helion_v.JobStore.Agreement.{run-IsDurable, reset_fault_breaks}
use helion_v.JobStore.Outcomes.{◌⟶◌, transition_ok_iff, transition_saves}
use helion_v.JobStore.Ends.{retry_if_eligible_iff, submit_outcome}

abbrev pub policy : RetryPolicy
policy = record {
  max_attempts = 3;
  backoff = exponential;
  initial_delay_ms = 1000;
  max_delay_ms = 60000;
  jitter = false;
}

abbrev pub spec : JobSpec
spec = record {
  command = "train";
  args = [];
  env = [];
  timeout_seconds = 60;
  submitted_by = "alice";
  owner_principal = "user:alice";
  workflow_id = "";
  resources = record { cpu_millicores = 100; memory_bytes = 0; slots = 1; gpus = 0 };
  retry_policy = some policy;
  working_dir = "";
  outputs = [];
  node_selector = [];
  secret_keys = [];
}

abbrev pub job : String → JobStatus → Job
job id status = record {
  id = id;
  spec = spec;
  node_id = "";
  status = status;
  created_at = 5;
  dispatched_at = 0;
  finished_at = 0;
  exit_code = 0;
  error = "";
  runtime = "";
  priority = 50;
  attempt = 1;
  retry_after = 0;
  inputs = [];
  resolved_outputs = [];
  shares = [];
}

-- A store that holds one job, in memory and on disk.
abbrev holding : JobStatus → List Bool → JobStore
holding status faults = record {
  jobs = ("a", job "a" status) ∷ [];
  disk = ("a", job "a" status) ∷ [];
  faults = faults;
  audit = [];
  events = [];
}

submit_test :
    (find_job (submit 7 (job "a" failed) (new_job_store [])).0 "a")
    ≡ some (prepare 7 (job "a" failed))
unfolding submit insert lookup
submit_test = refl

life : List Op
life =
    submitting 7 (job "a" failed)
    ∷ moving 8 "a" scheduled no_options
    ∷ moving 9 "a" dispatching no_options
    ∷ moving 10 "a" running no_options
    ∷ moving 11 "a" failed no_options
    ∷ requeueing 12 0 "a"
    ∷ []

life_test : status_of (find_job (run life (new_job_store [])) "a") ≡ some pending
unfolding life run submit transition retry_if_eligible next_retry_delay insert lookup
life_test = refl

life-IsDurable : IsDurable (new_job_store [])
unfolding lookup
life-IsDurable = record { keyed = λ k j h. cc; same_status = λ k. refl }

holding-IsDurable : (status : JobStatus) (faults : List Bool) → IsDurable (holding status faults)
unfolding lookup
holding-IsDurable status faults = record {
  keyed = λ k j h. ground (arith, eq_iff "a" k);
  same_status = λ k. refl;
}

-- A retry, a dispatch, and a cancellation that was decided before.
abbrev rerun : List Op
rerun =
    requeueing 12 0 "a"
    ∷ moving 13 "a" scheduled no_options
    ∷ moving 14 "a" dispatching no_options
    ∷ cancelling by_transition 15 "a" "stop"
    ∷ []

run-ownership_example :
    (j' : Job) × (find_job (run rerun (holding failed [])) "a" ≡ some j')
    × ((j'.id ≡ "a") × (j'.spec ≡ spec) × (j'.created_at ≡ 5) × (j'.priority ≡ 50))
unfolding lookup
run-ownership_example = run-ownership "a" rerun (holding failed []) (job "a" failed) refl

run-is_final_example :
    (j' : Job) × (find_job (run rerun (holding completed [])) "a" ≡ some j')
    × (j'.status ≡ completed)
unfolding lookup is_final
run-is_final_example = run-is_final "a" rerun (holding completed []) (job "a" completed) refl refl

run-attempts_example :
    (j' : Job) × (find_job (run rerun (holding failed [])) "a" ≡ some j')
    × ((j'.spec ≡ spec)
        × IsCounted 1 (some policy) j'.attempt
        × (◌≡◌ {A = Option RetryPolicy} (some policy) none → j'.attempt ≡ 1))
unfolding lookup
run-attempts_example = run-attempts "a" rerun (holding failed []) (job "a" failed) refl

-- The second save of the retry fails, and a transition fails behind it.
run-IsDurable_example : IsDurable (run rerun (holding failed (false ∷ true ∷ true ∷ [])))
run-IsDurable_example =
    run-IsDurable rerun (holding failed (false ∷ true ∷ true ∷ [])) (tt, (tt, (tt, (tt, tt))))
      (holding-IsDurable failed (false ∷ true ∷ true ∷ []))

reset_fault_breaks_example :
    let t = (reset_to_pending "a" (holding running (true ∷ []))).0 in
    (status_of (find_job t "a") ≡ some dispatching)
    × (status_of (on_disk t "a") ≡ some running)
    × (¬ IsDurable t)
unfolding lookup
reset_fault_breaks_example =
    reset_fault_breaks (holding running (true ∷ [])) "a" (job "a" running)
      (holding-IsDurable running (true ∷ [])) refl refl refl (λ p. cc) (λ p. cc)

transition_ok_iff_example :
    ((transition 9 "a" running no_options (holding dispatching [])).1 ≡ none) ↔ (
      ((j : Job) × (find_job (holding dispatching []) "a" ≡ some j) × (j.status ⟶ running))
      × (next_fault [] ≡ false))
transition_ok_iff_example = transition_ok_iff 9 "a" running no_options (holding dispatching [])

abbrev crash : TransitionOptions
crash = record no_options { err_msg = "exit status 3"; exit_code = 3 }

transition_saves_example :
    let t = (transition 9 "a" failed crash (holding running [])).0 in
    (changed : Job) × (outcome : List Event) × (Written 9 crash (job "a" running) failed changed
      × Reported "a" changed failed outcome
      × (find_job t "a" ≡ some changed)
      × (on_disk t "a" ≡ some changed)
      × ((k : String)
          → k ≢ "a"
          → (find_job t k ≡ find_job (holding running []) k)
            × (on_disk t k ≡ on_disk (holding running []) k))
      × (t.events ≡ [] ++ (moved "a" running failed changed.node_id ∷ outcome)))
unfolding lookup transition
transition_saves_example =
    transition_saves 9 "a" failed crash (holding running []) (job "a" running) refl refl refl

retry_if_eligible_iff_example : ((retry_if_eligible 9 0 "a" (holding failed [])).1 ≡ true) ↔ (
    ((failed ≡ failed) ⊎ (failed ≡ timeout))
    × ((p : RetryPolicy) × (some policy ≡ some p) × (1 < p.max_attempts))
    × (false ≡ false)
    × (false ≡ false))
unfolding lookup
retry_if_eligible_iff_example =
    retry_if_eligible_iff 9 0 "a" (holding failed []) (job "a" failed) refl

retry_delay_bounds_example :
    (4000000000 ≤ next_retry_delay (some policy) 3 0)
    × (next_retry_delay (some policy) 3 0 ≤ 4000000000 + 4000000000 / 4)
    × (false ≡ false → next_retry_delay (some policy) 3 0 ≡ 4000000000)
retry_delay_bounds_example =
    retry_delay_bounds policy 3 0 (record { initial = omega arith; maximal = omega arith })
      (omega arith) (omega arith) (omega arith)

exponential_vanishes_example : next_retry_delay (some policy) 65 0 ≡ 0
exponential_vanishes_example = exponential_vanishes policy 65 0 refl (omega arith) (omega arith)

submit_outcome_example :
    let s = holding failed [] in
    ((a : Job) → find_job s "b" ≡ some a → submit 7 (job "b" failed) s ≡ (s, some job_exists))
    × (find_job s "b" ≡ none
        → next_fault s.faults ≡ true
        → let (t, answer) = submit 7 (job "b" failed) s in
          (answer ≡ some persist_failed)
          × ((k : String) → find_job t k ≡ find_job s k)
          × (t.disk ≡ s.disk)
          × (t.events ≡ s.events))
    × (find_job s "b" ≡ none
        → next_fault s.faults ≡ false
        → let (t, answer) = submit 7 (job "b" failed) s in
          let b = prepare 7 (job "b" failed) in
          (answer ≡ none)
          × ((k : String) → find_job t k ≡ (if str_eq "b" k then some b else find_job s k))
          × ((k : String) → on_disk t k ≡ (if str_eq "b" k then some b else on_disk s k))
          × ((b.status ≡ pending) × (0 < b.attempt) × (0 < b.priority) × (b.created_at ≡ 7))
          × (t.events ≡ s.events ++ submitted "b" "train" b.priority ∷ []))
submit_outcome_example = submit_outcome 7 (job "b" failed) (holding failed [])
