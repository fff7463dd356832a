-- ===== src/JobStore/Steps.antt =====
-- One operation of the store, seen from one job: each operation keeps every job, up to `Evolves`.
use helion_v.Prelude.{
  ℕ, String, Bool, true, some, List, ◌≡◌, refl, inl, inr, arith, lookup, insert, Bool-cases,
  Option-cases,
}
use helion_v.Authz.{Share}
use helion_v.Job.{
  JobStatus, pending, dispatching, lost, retrying, is_terminal, is_allowed, is_retryable, status_eq,
  Job, ArtifactBinding,
}
use helion_v.Job.Retry.{attempts_left}
use helion_v.JobStore.State.{
  JobStore, TransitionOptions, next_fault, later_faults, find_job, write_through,
}
use helion_v.JobStore.Submit.{submit, prepare}
use helion_v.JobStore.Transition.{
  transition, report_transition, report_lost, report_reset, mark_lost, lose, reset_to_pending,
}
use helion_v.JobStore.Cancel.{CancelPlan, refuse, by_lost, by_transition, cancel_act}
use helion_v.JobStore.RetryLoop.{retry_if_eligible, retry_second, report_requeue, requeue}
use helion_v.JobStore.Read.{update_resolved_inputs, update_shares, report_saved}
use helion_v.JobStore.Lifecycle.{
  may_step, may_step_refl, may_step_allowed, may_step_lost, may_step_pending, may_step_dispatching,
  may_step_retrying, may_step_requeue, Evolves, Evolves-refl, Evolves-mutate, Kept, Kept-refl,
  Kept-insert, Kept-insert_new, Kept-delete_new, Kept-write_through, Kept-write_twice,
}

module _ (id : String) (s : JobStore) where
  -- The reports behind a write leave the jobs alone.
  jobs-report_transition :
      (from : JobStatus) (snap : Job) (b : Bool)
      → (report_transition id from snap b s).0.jobs ≡ s.jobs
  unfolding report_transition
  jobs-report_transition from snap b = ground arith

  jobs-report_lost : (b : Bool) → (report_lost id b s).0.jobs ≡ s.jobs
  unfolding report_lost
  jobs-report_lost b = ground arith

  jobs-report_requeue : (b : Bool) → (report_requeue id b s).0.jobs ≡ s.jobs
  unfolding report_requeue
  jobs-report_requeue b = ground arith

module _ (s : JobStore) where
  jobs-report_reset : (b : Bool) → (report_reset b s).0.jobs ≡ s.jobs
  unfolding report_reset
  jobs-report_reset b = ground arith

  jobs-report_saved : (b : Bool) → (report_saved b s).0.jobs ≡ s.jobs
  unfolding report_saved
  jobs-report_saved b = ground arith

-- What MarkLost, resetToPending and the field updates write.
module _ (j : Job) where
  Evolves-restatus :
      (b : JobStatus) → may_step j.status b ≡ true → Evolves j (record j { status = b })
  Evolves-restatus b h = record {
    ident = refl;
    spec = refl;
    created = refl;
    priority = refl;
    status = h;
    attempts = inl refl;
  }

  Evolves-same_status :
      (i : List ArtifactBinding) (sh : List Share)
      → Evolves j (record j { inputs = i; shares = sh })
  Evolves-same_status i sh = record {
    ident = refl;
    spec = refl;
    created = refl;
    priority = refl;
    status = may_step_refl j.status;
    attempts = inl refl;
  }

Evolves-status :
    (now : ℕ) (reason : String) (j : Job) (b : JobStatus)
    → may_step j.status b ≡ true
    → Evolves j (record (lose now reason j) { status = b })
Evolves-status now reason j b h = record {
  ident = refl;
  spec = refl;
  created = refl;
  priority = refl;
  status = h;
  attempts = inl refl;
}

pub Kept-submit :
    (k : String) (now : ℕ) (j : Job) (s : JobStore)
    → Kept (find_job s k) (find_job (submit now j s).0 k)
unfolding submit
Kept-submit k now j s = elim (Option-cases (lookup j.id s.jobs)) [
  | inr (a, e) ↦ rw (e, submit) (Kept-refl (find_job s k))
  | inl e ↦
      rw (e, submit)
        (elim (Bool-cases (next_fault s.faults)) [
          | inl fails ↦ rw fails (Kept-delete_new k j.id s.jobs (prepare now j) e)
          | inr works ↦ rw works (Kept-insert_new k j.id s.jobs (prepare now j) e)
        ])
]

pub Kept-transition :
    (k : String) (now : ℕ) (id : String) (to : JobStatus) (o : TransitionOptions) (s : JobStore)
    → Kept (find_job s k) (find_job (transition now id to o s).0 k)
unfolding transition
Kept-transition k now id to o s = elim (Option-cases (lookup id s.jobs)) [
  | inl e ↦ rw (e, transition) (Kept-refl (find_job s k))
  | inr (j, e) ↦
      rw (e, transition)
        (elim (Bool-cases (is_terminal j.status)) [
          | inl t ↦ rw t (Kept-refl (find_job s k))
          | inr t ↦ rw t (elim (Bool-cases (is_allowed j.status to)) [
            | inr n ↦ rw n (Kept-refl (find_job s k))
            | inl a ↦
                rw (a, jobs-report_transition)
                  (Kept-write_through k id j _ _ s e
                    (Evolves-mutate now to o j to (may_step_allowed j.status to t a))
                    (Evolves-mutate now to o j j.status (may_step_refl j.status)))
          ])
        ])
]

pub Kept-mark_lost :
    (k : String) (now : ℕ) (id reason : String) (s : JobStore)
    → Kept (find_job s k) (find_job (mark_lost now id reason s).0 k)
unfolding mark_lost
Kept-mark_lost k now id reason s = elim (Option-cases (lookup id s.jobs)) [
  | inl e ↦ rw (e, mark_lost) (Kept-refl (find_job s k))
  | inr (j, e) ↦
      rw (e, mark_lost)
        (elim (Bool-cases (is_terminal j.status)) [
          | inl t ↦ rw t (Kept-refl (find_job s k))
          | inr t ↦
              rw (t, jobs-report_lost)
                (Kept-write_through k id j _ _ s e
                  (Evolves-status now reason j lost (may_step_lost j.status t))
                  (Evolves-status now reason j j.status (may_step_refl j.status)))
        ])
]

pub Kept-reset_to_pending :
    (k id : String) (s : JobStore) → Kept (find_job s k) (find_job (reset_to_pending id s).0 k)
unfolding reset_to_pending
Kept-reset_to_pending k id s = elim (Option-cases (lookup id s.jobs)) [
  | inl e ↦ rw (e, reset_to_pending) (Kept-refl (find_job s k))
  | inr (j, e) ↦
      rw (e, reset_to_pending)
        (elim (Bool-cases (status_eq j.status pending)) [
          | inl p ↦ rw p (Kept-refl (find_job s k))
          | inr p ↦ rw p (elim (Bool-cases (is_terminal j.status)) [
            | inl t ↦ rw t (Kept-refl (find_job s k))
            | inr t ↦
                rw (t, jobs-report_reset)
                  (Kept-write_through k id j _ _ s e
                    (Evolves-restatus j pending (may_step_pending j.status t))
                    (Evolves-restatus j dispatching (may_step_dispatching j.status t)))
          ])
        ])
]

pub Kept-cancel_act :
    (k : String) (p : CancelPlan) (now : ℕ) (id reason : String) (s : JobStore)
    → Kept (find_job s k) (find_job (cancel_act p now id reason s).0 k)
unfolding cancel_act
Kept-cancel_act k (refuse e) now id reason s = Kept-refl (find_job s k)
Kept-cancel_act k by_lost now id reason s = Kept-mark_lost k now id _ s
Kept-cancel_act k by_transition now id reason s = Kept-transition k now id _ _ s

pub Kept-update_resolved_inputs :
    (k id : String) (inputs : List ArtifactBinding) (s : JobStore)
    → Kept (find_job s k) (find_job (update_resolved_inputs id inputs s).0 k)
unfolding update_resolved_inputs
Kept-update_resolved_inputs k id inputs s = elim (Option-cases (lookup id s.jobs)) [
  | inl e ↦ rw (e, update_resolved_inputs) (Kept-refl (find_job s k))
  | inr (j, e) ↦
      rw (e, update_resolved_inputs, jobs-report_saved)
        (Kept-write_through k id j _ _ s e (Evolves-same_status j inputs j.shares) (Evolves-refl j))
]

pub Kept-update_shares :
    (k id : String) (shares : List Share) (s : JobStore)
    → Kept (find_job s k) (find_job (update_shares id shares s).0 k)
unfolding update_shares
Kept-update_shares k id shares s = elim (Option-cases (lookup id s.jobs)) [
  | inl e ↦ rw (e, update_shares) (Kept-refl (find_job s k))
  | inr (j, e) ↦
      let changed = Evolves-same_status j j.inputs shares in
      rw (e, update_shares, jobs-report_saved) (Kept-write_through k id j _ _ s e changed changed)
]

-- The job as it is queued again, or left as retrying when the second save fails.
module _ (now draw : ℕ) (j : Job) (r : is_retryable j.status ≡ true)
    (more : attempts_left j.spec.retry_policy j.attempt ≡ true) where
  Evolves-requeue :
      (b : JobStatus)
      → may_step j.status b ≡ true
      → Evolves j (record (requeue now draw (record j { status = retrying })) { status = b })
  Evolves-requeue b h = record {
    ident = refl;
    spec = refl;
    created = refl;
    priority = refl;
    status = h;
    attempts = inr (more, refl);
  }

-- The store behind the first save.
abbrev pub saved_retrying : String → Job → JobStore → JobStore
saved_retrying id j s = record s {
  jobs = insert id (record j { status = retrying }) s.jobs;
  disk = insert j.id (record j { status = retrying }) s.disk;
  faults = later_faults s.faults;
}

Kept-retry_saved :
    (k : String) (now draw : ℕ) (id : String) (j : Job) (s : JobStore)
    → lookup id s.jobs ≡ some j
    → is_retryable j.status ≡ true
    → attempts_left j.spec.retry_policy j.attempt ≡ true
    → let (t, saved) = write_through id (record j { status = retrying }) j s in
      Kept
        (find_job s k)
        (find_job (retry_second now draw id (record j { status = retrying }) saved t).0 k)
unfolding retry_second
Kept-retry_saved k now draw id j s e r more = elim (Bool-cases (next_fault s.faults)) [
  | inl fails ↦ rw fails (Kept-insert k id s.jobs j j e (Evolves-refl j))
  | inr works ↦
      rw (works, jobs-report_requeue)
        (Kept-write_twice k id j (record j { status = retrying }) _ _ s (saved_retrying id j s) e
          refl (Evolves-requeue now draw j r more pending (may_step_requeue j.status r))
          (Evolves-requeue now draw j r more retrying (may_step_retrying j.status r)))
]

pub Kept-retry_if_eligible :
    (k : String) (now draw : ℕ) (id : String) (s : JobStore)
    → Kept (find_job s k) (find_job (retry_if_eligible now draw id s).0 k)
unfolding retry_if_eligible
Kept-retry_if_eligible k now draw id s = elim (Option-cases (lookup id s.jobs)) [
  | inl e ↦ rw (e, retry_if_eligible) (Kept-refl (find_job s k))
  | inr (j, e) ↦
      rw (e, retry_if_eligible)
        (elim (Bool-cases (is_retryable j.status)) [
          | inr r ↦ rw r (Kept-refl (find_job s k))
          | inl r ↦ rw r (elim (Bool-cases (attempts_left j.spec.retry_policy j.attempt)) [
            | inr m ↦ rw m (Kept-refl (find_job s k))
            | inl m ↦ rw m (Kept-retry_saved k now draw id j s e r m)
          ])
        ])
]
