-- ===== src/JobStore/Ends.antt =====
-- What CancelJob, MarkLost, RetryIfEligible and Submit do on each branch.
use helion_v.Prelude.{
  ℕ, ◌+◌, ◌%◌, ◌^◌, ◌<◌, String, Bool, true, false, ◌&&◌, not, Option, none, some, [], ◌∷◌, ◌++◌,
  ◌≡◌, ◌⊎◌, ◌↔◌, ◌∙◌, refl, ap, inl, inr, arith, lookup, insert, lookup-insert, lookup-delete,
  lookup-insert_self, lookup-insert_at, eq_iff, str_eq, if◌then◌else◌, Bool-cases,
}
use helion_v.Job.{
  JobStatus, RetryPolicy, failed, timeout, pending, lost, retrying, cancelled, scheduled, running,
  is_terminal, is_allowed, is_retryable, Job,
}
use helion_v.Job.Retry.{attempts_left, next_retry_delay, wrap64}
use helion_v.JobStore.State.{
  job_exists, persist_failed, JobStore, TransitionOptions, next_fault, later_faults, find_job,
  on_disk, submitted,
}
use helion_v.JobStore.Submit.{submit, prepare}
use helion_v.JobStore.Transition.{transition, mark_lost, lose, mutate}
use helion_v.JobStore.Cancel.{cancel_check, cancel_job}
use helion_v.JobStore.RetryLoop.{retry_if_eligible, requeue}
use helion_v.JobStore.Durable.{status_of}

-- Where a cancellation leaves a job that was not terminal.
abbrev pub cancelled_as : JobStatus → JobStatus
cancelled_as pending = cancelled
cancelled_as scheduled = cancelled
cancelled_as running = cancelled
cancelled_as _ = lost

module _ (id : String) (s : JobStore) (j : Job) (e : find_job s id ≡ some j) where
  transition_outcome :
      (now : ℕ) (to : JobStatus) (o : TransitionOptions)
      → is_terminal j.status ≡ false
      → is_allowed j.status to ≡ true
      → next_fault s.faults ≡ false
      → ((transition now id to o s).1 ≡ none)
        × (status_of (find_job (transition now id to o s).0 id) ≡ some to)
  unfolding transition
  transition_outcome now to o t a w =
      rw (e, transition, t, a, w)
        (refl, ap status_of (lookup-insert_self id (mutate to now o j) s.jobs))

  mark_lost_outcome :
      (now : ℕ) (reason : String)
      → is_terminal j.status ≡ false
      → next_fault s.faults ≡ false
      → ((mark_lost now id reason s).1 ≡ none)
        × (status_of (find_job (mark_lost now id reason s).0 id) ≡ some lost)
  unfolding mark_lost
  mark_lost_outcome now reason t w =
      rw (e, mark_lost, t, w)
        (refl, ap status_of (lookup-insert_self id (lose now reason j) s.jobs))

-- The table decides which way a cancellation goes.
cancelled_as_table :
    (a : JobStatus)
    → is_terminal a ≡ false
    → cancelled_as a ≡ (if is_allowed a cancelled then cancelled else lost)
cancelled_as_table a t = ground arith

module _ (now : ℕ) (id reason : String) (s : JobStore) (j : Job) (e : find_job s id ≡ some j) where
  -- Cancelling a job that is not terminal, where the save succeeds, returns nil and ends the job:
  -- as cancelled where it is pending, scheduled or running, and as lost in every other status.
  cancel_job-outcome :
      is_terminal j.status ≡ false
      → next_fault s.faults ≡ false
      → ((cancel_job now id reason s).1 ≡ none)
        × (status_of (find_job (cancel_job now id reason s).0 id) ≡ some (cancelled_as j.status))
  unfolding cancel_job
  cancel_job-outcome t w =
      rw (cancelled_as_table j.status t) (elim (Bool-cases (is_allowed j.status cancelled)) [
        | inl a ↦ rw (e, cancel_check, t, a) (transition_outcome id s j e now cancelled _ t a w)
        | inr a ↦ rw (e, cancel_check, t, a) (mark_lost_outcome id s j e now _ t w)
      ])

mark_lost_terminal :
    (now : ℕ) (id reason : String) (s : JobStore) (j : Job)
    → find_job s id ≡ some j
    → is_terminal j.status ≡ true
    → mark_lost now id reason s ≡ (s, none)
unfolding mark_lost
mark_lost_terminal now id reason s j e t = rw (e, mark_lost, t)

-- MarkLost is idempotent: where it succeeds on a job that was not terminal, a later call, with any
-- reason and clock, returns nil and changes nothing.
pub mark_lost_again :
    (now later : ℕ) (id reason other : String) (s : JobStore) (j : Job)
    → find_job s id ≡ some j
    → is_terminal j.status ≡ false
    → next_fault s.faults ≡ false
    → let t = (mark_lost now id reason s).0 in mark_lost later id other t ≡ (t, none)
mark_lost_again now later id reason other s j e t w =
    mark_lost_terminal later id other _ (lose now reason j) found refl
  where
    found : find_job (mark_lost now id reason s).0 id ≡ some (lose now reason j)
    found =
        unfold mark_lost in
        rw (e, mark_lost, t, w) (lookup-insert_self id (lose now reason j) s.jobs)

retryable_as : (a : JobStatus) → is_retryable a ≡ true → (a ≡ failed) ⊎ (a ≡ timeout)
retryable_as a h = ground (arith, h)

attempts_left-Some :
    (policy : Option RetryPolicy) (attempt : ℕ)
    → attempts_left policy attempt ≡ true
    → (p : RetryPolicy) × (policy ≡ some p) × (attempt < p.max_attempts)
attempts_left-Some none attempt h = (let bad : ⊥ = ground (arith, h) in elim bad [ ])
attempts_left-Some (some p) attempt h = (p, refl, ground (arith, h))

module _ (now draw : ℕ) (id : String) (s : JobStore) (j : Job) (e : find_job s id ≡ some j) where
  abbrev can_retry : Bool
  can_retry = is_retryable j.status && attempts_left j.spec.retry_policy j.attempt

  abbrev back_in_queue : Job
  back_in_queue = requeue now draw (record j { status = retrying })

  retry_if_eligible-eq :
      (retry_if_eligible now draw id s).1
      ≡ (can_retry && (not (next_fault s.faults) && not (next_fault (later_faults s.faults))))
  unfolding retry_if_eligible
  retry_if_eligible-eq =
      rw (e, retry_if_eligible)
        (elim (Bool-cases can_retry) [
          | inr n ↦ rw n
          | inl r ↦ rw r (elim (Bool-cases (next_fault s.faults)) [
            | inl w ↦ rw w
            | inr w ↦ rw w (elim (Bool-cases (next_fault (later_faults s.faults))) [
              | inl v ↦ rw v
              | inr v ↦ rw v
            ])
          ])
        ])

  -- RetryIfEligible answers true exactly where the job failed or timed out, it has a policy whose
  -- limit is above the attempt, and both of its saves succeed.
  pub retry_if_eligible_iff : ((retry_if_eligible now draw id s).1 ≡ true) ↔ (
      ((j.status ≡ failed) ⊎ (j.status ≡ timeout))
      × ((p : RetryPolicy) × (j.spec.retry_policy ≡ some p) × (j.attempt < p.max_attempts))
      × (next_fault s.faults ≡ false)
      × (next_fault (later_faults s.faults) ≡ false))
  retry_if_eligible_iff = (there, back)
    where
      there :
          (retry_if_eligible now draw id s).1 ≡ true
          → ((j.status ≡ failed) ⊎ (j.status ≡ timeout))
            × ((p : RetryPolicy) × (j.spec.retry_policy ≡ some p) × (j.attempt < p.max_attempts))
            × (next_fault s.faults ≡ false)
            × (next_fault (later_faults s.faults) ≡ false)
      there h =
          let ok : (is_retryable j.status ≡ true)
              × (attempts_left j.spec.retry_policy j.attempt ≡ true) =
            ground (arith, retry_if_eligible-eq, h) in
          (
            retryable_as j.status ok.0,
            attempts_left-Some j.spec.retry_policy j.attempt ok.1,
            ground (arith, retry_if_eligible-eq, h),
            ground (arith, retry_if_eligible-eq, h),
          )

      back :
          (((j.status ≡ failed) ⊎ (j.status ≡ timeout))
            × ((p : RetryPolicy) × (j.spec.retry_policy ≡ some p) × (j.attempt < p.max_attempts))
            × (next_fault s.faults ≡ false)
            × (next_fault (later_faults s.faults) ≡ false))
          → (retry_if_eligible now draw id s).1 ≡ true
      back (st, (p, q, below), w, v) =
          let retryable : is_retryable j.status ≡ true = ground (arith, st) in
          let left : attempts_left j.spec.retry_policy j.attempt ≡ true =
            rw q (ground (arith, below)) in
          retry_if_eligible-eq ∙ ground (arith, retryable, left, w, v)

  retry_conditions :
      (retry_if_eligible now draw id s).1 ≡ true
      → (can_retry ≡ true)
        × (next_fault s.faults ≡ false)
        × (next_fault (later_faults s.faults) ≡ false)
  retry_conditions h = ground (arith, retry_if_eligible-eq)

  -- Where RetryIfEligible answers true, one record is in memory and on disk: pending, with the
  -- attempt counted, no node, and the policy's delay for the new attempt behind the clock.
  pub retry_if_eligible-saves :
      j.id ≡ id
      → (retry_if_eligible now draw id s).1 ≡ true
      → let t = (retry_if_eligible now draw id s).0 in
        (b : Job) × ((find_job t id ≡ some b)
          × (on_disk t id ≡ some b)
          × (b.status ≡ pending)
          × (b.attempt ≡ (j.attempt + 1) % 2 ^ 32)
          × (b.retry_after ≡ wrap64 (now + next_retry_delay j.spec.retry_policy b.attempt draw))
          × (b.node_id ≡ ""))
  unfolding retry_if_eligible
  retry_if_eligible-saves i h =
      let (r, w, v) = retry_conditions h in
      (
        back_in_queue,
        (
          rw (e, retry_if_eligible, r, w, v) (lookup-insert_self id back_in_queue _),
          rw (e, retry_if_eligible, r, w, v) (lookup-insert_at j.id id back_in_queue _ i),
          refl,
          refl,
          refl,
          refl,
        ),
      )

  -- Where only the second save fails, the job is retrying in memory and on disk, though its
  -- attempt was counted in memory.
  retry_if_eligible-second_fault :
      can_retry ≡ true
      → next_fault s.faults ≡ false
      → next_fault (later_faults s.faults) ≡ true
      → let t = (retry_if_eligible now draw id s).0 in
        (status_of (find_job t id) ≡ some retrying)
        × (status_of (lookup j.id t.disk) ≡ some retrying)
  unfolding retry_if_eligible
  retry_if_eligible-second_fault r w v = (
    rw (e, retry_if_eligible, r, w, v)
        (ap status_of (lookup-insert_self id (record back_in_queue { status = retrying }) _)),
    rw (e, retry_if_eligible, r, w, v)
        (ap status_of (lookup-insert_self j.id (record j { status = retrying }) _)),
  )

module _ (now : ℕ) (j : Job) (s : JobStore) where
  -- Submit answers that the ID exists where the store holds it, and then changes nothing. Else the
  -- save decides: where it fails, every lookup and the disk are as before and nothing is published;
  -- where it succeeds, the prepared job is in memory and on disk, pending and with an attempt and a
  -- priority that are not 0, no other entry has changed, and one event is published.
  pub submit_outcome :
      ((a : Job) → find_job s j.id ≡ some a → submit now j s ≡ (s, some job_exists))
      × (find_job s j.id ≡ none
          → next_fault s.faults ≡ true
          → let (t, answer) = submit now j s in
            (answer ≡ some persist_failed)
            × ((k : String) → find_job t k ≡ find_job s k)
            × (t.disk ≡ s.disk)
            × (t.events ≡ s.events))
      × (find_job s j.id ≡ none
          → next_fault s.faults ≡ false
          → let (t, answer) = submit now j s in
            let b = prepare now j in
            (answer ≡ none)
            × ((k : String) → find_job t k ≡ (if str_eq j.id k then some b else find_job s k))
            × ((k : String) → on_disk t k ≡ (if str_eq j.id k then some b else on_disk s k))
            × ((b.status ≡ pending) × (0 < b.attempt) × (0 < b.priority) × (b.created_at ≡ now))
            × (t.events ≡ s.events ++ submitted j.id j.spec.command b.priority ∷ []))
  unfolding submit
  submit_outcome = (
    λ a e. rw (e, submit),
    λ e w.
        rw (e, submit, w)
          (
            refl,
            (λ k. ground (
              arith,
              lookup-delete j.id k (insert j.id (prepare now j) s.jobs),
              lookup-insert j.id k (prepare now j) s.jobs,
              eq_iff j.id k,
            )),
            refl,
            refl,
          ),
    λ e w.
        rw (e, submit, w)
          (
            refl,
            (λ k. lookup-insert j.id k (prepare now j) s.jobs),
            (λ k. lookup-insert j.id k (prepare now j) s.disk),
            (refl, ground arith, ground arith, refl),
            refl,
          ),
  )
