-- ===== src/JobStore/Saves.antt =====
-- What an operation on a stored job leaves, by the answer of the persister.
use helion_v.Prelude.{
  ℕ, String, true, false, none, some, ◌≡◌, ◌≢◌, refl, ap, arith, lookup, insert, Assoc,
  lookup-insert, lookup-insert_self, eq_iff,
}
use helion_v.Job.{JobStatus, Job, pending, status_eq, is_terminal, is_allowed}
use helion_v.JobStore.State.{
  persist_failed, JobStore, TransitionOptions, next_fault, later_faults, find_job,
}
use helion_v.JobStore.Transition.{transition, mark_lost, reset_to_pending, mutate, lose}
use helion_v.JobStore.Durable.{status_of}

-- Every other job is found as before.
abbrev pub OthersKept : String → JobStore → JobStore → Type 0
OthersKept id s s' = (k : String) → k ≢ id → find_job s' k ≡ find_job s k

-- The store has this job under the id and has used one answer of the persister.
abbrev pub Saved : String → Job → JobStore → JobStore → Type 0
Saved id j s s' =
    (find_job s' id ≡ some j) × (s'.faults ≡ later_faults s.faults) × OthersKept id s s'

lookup-insert_other :
    (id k : String) (j : Job) (jobs : Assoc Job)
    → k ≢ id
    → lookup k (insert id j jobs) ≡ lookup k jobs
lookup-insert_other id k j jobs n = ground (arith, lookup-insert id k j jobs, eq_iff id k)

module _ (now : ℕ) (id : String) (s : JobStore) (j : Job) (e : find_job s id ≡ some j)
    (t : is_terminal j.status ≡ false) where
  module _ (to : JobStatus) (o : TransitionOptions) (a : is_allowed j.status to ≡ true) where
    pub transition-Saved :
        next_fault s.faults ≡ false
        → (s' : JobStore) × (transition now id to o s ≡ (s', none))
          × Saved id (mutate to now o j) s s'
    unfolding transition
    transition-Saved w =
        rw (transition, e, t, a, w)
          (
            _,
            refl,
            (
              lookup-insert_self id (mutate to now o j) s.jobs,
              refl,
              λ k n. lookup-insert_other id k (mutate to now o j) s.jobs n,
            ),
          )

    pub transition_lost_save :
        next_fault s.faults ≡ true
        → (s' : JobStore) × (transition now id to o s ≡ (s', some persist_failed))
          × (status_of (find_job s' id) ≡ some j.status)
    unfolding transition
    transition_lost_save w =
        rw (transition, e, t, a, w) (_, refl, ap status_of (lookup-insert_self id _ s.jobs))

  pub mark_lost-Saved :
      (reason : String)
      → next_fault s.faults ≡ false
      → (s' : JobStore) × (mark_lost now id reason s ≡ (s', none))
        × Saved id (lose now reason j) s s'
  unfolding mark_lost
  mark_lost-Saved reason w =
      rw (mark_lost, e, t, w)
        (
          _,
          refl,
          (
            lookup-insert_self id (lose now reason j) s.jobs,
            refl,
            λ k n. lookup-insert_other id k (lose now reason j) s.jobs n,
          ),
        )

  pub reset-Saved :
      status_eq j.status pending ≡ false
      → next_fault s.faults ≡ false
      → (s' : JobStore) × (reset_to_pending id s ≡ (s', none))
        × Saved id (record j { status = pending }) s s'
  unfolding reset_to_pending
  reset-Saved n w =
      rw (reset_to_pending, e, n, t, w)
        (
          _,
          refl,
          (
            lookup-insert_self id (record j { status = pending }) s.jobs,
            refl,
            λ k n. lookup-insert_other id k (record j { status = pending }) s.jobs n,
          ),
        )
