-- ===== src/JobStore/Outcomes.antt =====
-- What each operation of the store does on every branch.
use helion_v.Prelude.{
  ℕ, String, Bool, true, false, Option, none, some, List, [], ◌∷◌, ◌++◌, ◌≡◌, ◌≢◌, refl, ◌∙◌, ap,
  ◌↔◌, inl, inr, arith, lookup, insert, lookup-insert, lookup-insert_self, lookup-insert_at, eq_iff,
  if◌then◌else◌, Bool-cases, Option-cases,
}
use helion_v.Job.{
  JobStatus, pending, dispatching, retrying, cancelled, failed, timeout, scheduled, skipped,
  running, completed, is_terminal, is_allowed, Job,
}
use helion_v.JobStore.State.{
  Event, StoreError, job_not_found, invalid_transition, already_terminal, persist_failed, JobStore,
  job_transition, TransitionOptions, next_fault, later_faults, find_job, on_disk, moved,
}
use helion_v.JobStore.Transition.{transition, mutate, outcome_events}
use helion_v.JobStore.Lifecycle.{mutate_fixed}
use helion_v.JobStore.Written.{Written, Reported, mutate-Written, outcome_events-Reported}
use helion_v.JobStore.Durable.{status_of, status_of-insert}

-- The edges of the state machine. The comment at the head of job.go names six of them; the others
-- are in the table of transitions alone. The rows of that table for failed and timeout are not among
-- them: both statuses are terminal, and only a retry leaves them.
infix 40 ◌⟶◌
pub data ◌⟶◌ : JobStatus → JobStatus → Type 0 where
  schedule : pending ⟶ scheduled
  dispatch : pending ⟶ dispatching
  cancel_pending : pending ⟶ cancelled
  skip : pending ⟶ skipped
  reject : pending ⟶ failed
  send : scheduled ⟶ dispatching
  cancel_scheduled : scheduled ⟶ cancelled
  unschedule : scheduled ⟶ pending
  start : dispatching ⟶ running
  undelivered : dispatching ⟶ failed
  succeed : running ⟶ completed
  fail : running ⟶ failed
  expire : running ⟶ timeout
  cancel_running : running ⟶ cancelled
  resume : retrying ⟶ pending

ruleset edges = (
  schedule, dispatch, cancel_pending, skip, reject, send, cancel_scheduled, unschedule, start,
  undelivered, succeed, fail, expire, cancel_running, resume,
)

⟶_of_allowed :
    (from to : JobStatus) → is_terminal from ≡ false → is_allowed from to ≡ true → from ⟶ to
⟶_of_allowed from to t a = grind (arith, edges)

allowed_of_⟶ :
    {from to : JobStatus} → from ⟶ to → (is_terminal from ≡ false) × (is_allowed from to ≡ true)
allowed_of_⟶ schedule = (refl, refl)
allowed_of_⟶ _ = (refl, refl)

-- The answer of Transition, by the job and the next save.
abbrev pub transition_answer : Option Job → JobStatus → Bool → Option StoreError
transition_answer none to fault = some job_not_found
transition_answer (some j) to fault =
    if is_terminal j.status
    then some already_terminal
    else if is_allowed j.status to
    then (if fault then some persist_failed else none)
    else some invalid_transition

module _ (now : ℕ) (id : String) (to : JobStatus) (o : TransitionOptions) (s : JobStore) where
  transition_answers :
      (transition now id to o s).1 ≡ transition_answer (find_job s id) to (next_fault s.faults)
  unfolding transition
  transition_answers = ground arith

  module _ (j : Job) (e : find_job s id ≡ some j) where
    transition_conditions :
        (transition now id to o s).1 ≡ none
        → (is_terminal j.status ≡ false)
          × (is_allowed j.status to ≡ true)
          × (next_fault s.faults ≡ false)
    transition_conditions h = ground (arith, transition_answers)

  -- Transition returns nil exactly where the job exists, the state machine has an edge from its
  -- status to the target, and the save succeeds.
  pub transition_ok_iff :
      ((transition now id to o s).1 ≡ none)
      ↔ (((j : Job) × (find_job s id ≡ some j) × (j.status ⟶ to)) × (next_fault s.faults ≡ false))
  transition_ok_iff = (there, back)
    where
      there :
          (transition now id to o s).1 ≡ none
          → (((j : Job) × (find_job s id ≡ some j) × (j.status ⟶ to))
              × (next_fault s.faults ≡ false))
      there h = elim (Option-cases (find_job s id)) [
        | inl e ↦
            cc (h, transition_answers, ap (λ x. transition_answer x to (next_fault s.faults)) e)
        | inr (j, e) ↦
            let (t, a, w) = transition_conditions j e h in ((j, e, ⟶_of_allowed j.status to t a), w)
      ]

      back :
          (((j : Job) × (find_job s id ≡ some j) × (j.status ⟶ to)) × (next_fault s.faults ≡ false))
          → (transition now id to o s).1 ≡ none
      back ((j, e, edge), w) = let (t, a) = allowed_of_⟶ edge in rw (transition_answers, e, t, a, w)

  abbrev transitioned : Job → JobStore
  transitioned j =
      let changed = mutate to now o j in
      record s {
        jobs = insert id changed s.jobs;
        disk = insert changed.id changed s.disk;
        faults = later_faults s.faults;
        audit = s.audit ++ (job_transition, id) ∷ [];
        events = s.events ++ (moved id j.status to changed.node_id ∷ outcome_events to id changed);
      }

  transition-eq-transitioned :
      (j : Job)
      → find_job s id ≡ some j
      → (transition now id to o s).1 ≡ none
      → (transition now id to o s).0 ≡ transitioned j
  unfolding transition
  transition-eq-transitioned j e h =
      let (t, a, w) = transition_conditions j e h in rw (e, transition, t, a, w)

  -- A successful Transition leaves the same new record in memory and on disk, touches no other job,
  -- and publishes the transition event and, for completed and failed, the event of this outcome. The
  -- record has the target status and what this status sets: the node where one is given, and the
  -- time for dispatching; the time, the exit code, the error and the runtime where they are given
  -- for a job that ran, with its outputs if it completed; the time and the error for one that is
  -- cancelled or skipped. All else stays.
  pub transition_saves :
      (j : Job)
      → find_job s id ≡ some j
      → j.id ≡ id
      → (transition now id to o s).1 ≡ none
      → let t = (transition now id to o s).0 in
        (changed : Job) × (outcome : List Event) × (Written now o j to changed
          × Reported id changed to outcome
          × (find_job t id ≡ some changed)
          × (on_disk t id ≡ some changed)
          × ((k : String) → k ≢ id → (find_job t k ≡ find_job s k) × (on_disk t k ≡ on_disk s k))
          × (t.events ≡ s.events ++ (moved id j.status to changed.node_id ∷ outcome)))
  transition_saves j e i h =
      let changed : Job = mutate to now o j in
      let (same_id, _, _, _, st, _) = mutate_fixed now to o j in
      let (live, allowed, works) = transition_conditions j e h in
      (
        changed,
        outcome_events to id changed,
        rw (transition-eq-transitioned j e h) (
          mutate-Written now o j j.status to live allowed,
          outcome_events-Reported id changed to,
          lookup-insert_self id changed s.jobs,
          lookup-insert_at changed.id id changed s.disk (same_id ∙ i),
          λ k n. (
            ground (arith, lookup-insert id k changed s.jobs, eq_iff id k),
            ground
                (arith, lookup-insert changed.id k changed s.disk, eq_iff changed.id k, same_id, i),
          ),
          refl,
        ),
      )

  -- A Transition that returns an error leaves the disk, the audit and the event stream as they
  -- were, and every job with the status that it had.
  pub transition_error_unchanged :
      {x : StoreError}
      → (transition now id to o s).1 ≡ some x
      → let t = (transition now id to o s).0 in
        (t.disk ≡ s.disk)
        × (t.audit ≡ s.audit)
        × (t.events ≡ s.events)
        × ((k : String) → status_of (find_job t k) ≡ status_of (find_job s k))
  unfolding transition
  transition_error_unchanged h = elim (Option-cases (lookup id s.jobs)) [
    | inl e ↦ rw (e, transition) (refl, refl, refl, λ k. refl)
    | inr (j, e) ↦
        rw (e, transition)
          (elim (Bool-cases (is_terminal j.status)) [
            | inl t ↦ rw t (refl, refl, refl, λ k. refl)
            | inr t ↦ rw t (elim (Bool-cases (is_allowed j.status to)) [
              | inr n ↦ rw n (refl, refl, refl, λ k. refl)
              | inl a ↦ rw a (elim (Bool-cases (next_fault s.faults)) [
                | inl w ↦ rw w (refl, refl, refl, λ k. status_of-insert k id s.jobs j _ e refl)
                | inr w ↦ cc (h, transition_answers, t, a, w)
              ])
            ])
          ])
  ]
