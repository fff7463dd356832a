-- ===== src/JobStore/Agreement.antt =====
-- Every operation keeps the agreement of memory and disk, save one: the rollback of
-- resetToPending writes dispatching, whatever the status was.
use helion_v.Prelude.{
  ℕ, String, Bool, true, false, ◌&&◌, some, List, [], ◌∷◌, ◌≡◌, refl, sym, ap, ◌∙◌, inl, inr, arith,
  lookup, lookup-insert_self, ◌≢◌, Bool-cases, Option-cases,
}
use helion_v.Authz.{Share}
use helion_v.Job.{
  JobStatus, pending, dispatching, retrying, is_terminal, is_allowed, is_retryable, status_eq, Job,
  ArtifactBinding,
}
use helion_v.Job.Retry.{attempts_left}
use helion_v.JobStore.State.{
  JobStore, TransitionOptions, next_fault, find_job, on_disk, write_through,
}
use helion_v.JobStore.Submit.{submit, prepare}
use helion_v.JobStore.Transition.{
  transition, report_transition, report_lost, mark_lost, lose, reset_to_pending, mutate,
}
use helion_v.JobStore.Cancel.{CancelPlan, refuse, by_lost, by_transition, cancel_act}
use helion_v.JobStore.RetryLoop.{retry_if_eligible, retry_second, report_requeue, requeue}
use helion_v.JobStore.Read.{update_resolved_inputs, update_shares, report_saved}
use helion_v.JobStore.Lifecycle.{mutate_fixed}
use helion_v.JobStore.Durable.{
  IsDurable, status_of, Agree-withdrawn, Agree-rolled_back, Agree-saved, Agree-write_through,
}
use helion_v.JobStore.Steps.{saved_retrying}
use helion_v.JobStore.Trace.{
  Op, submitting, moving, losing, resetting, cancelling, requeueing, setting_inputs, sharing, step,
  run,
}

-- The reports behind a write leave memory and disk alone.
module _ (s : JobStore) (d : IsDurable s) where
  report_transition-IsDurable :
      (id : String) (from : JobStatus) (snap : Job) (b : Bool)
      → IsDurable (report_transition id from snap b s).0
  unfolding report_transition
  report_transition-IsDurable id from snap true = d
  report_transition-IsDurable id from snap false = d

  report_lost-IsDurable : (id : String) (b : Bool) → IsDurable (report_lost id b s).0
  unfolding report_lost
  report_lost-IsDurable id true = d
  report_lost-IsDurable id false = d

  report_requeue-IsDurable : (id : String) (b : Bool) → IsDurable (report_requeue id b s).0
  unfolding report_requeue
  report_requeue-IsDurable id true = d
  report_requeue-IsDurable id false = d

  report_saved-IsDurable : (b : Bool) → IsDurable (report_saved b s).0
  unfolding report_saved
  report_saved-IsDurable true = d
  report_saved-IsDurable false = d

module _ (s : JobStore) (d : IsDurable s) where
  submit-IsDurable : (now : ℕ) (j : Job) → IsDurable (submit now j s).0
  unfolding submit
  submit-IsDurable now j = elim (Option-cases (lookup j.id s.jobs)) [
    | inr (a, e) ↦ rw (e, submit) d
    | inl e ↦
        rw (e, submit)
          (elim (Bool-cases (next_fault s.faults)) [
            | inl fails ↦ rw fails (Agree-withdrawn j.id s.jobs s.disk d (prepare now j) e)
            | inr works ↦ rw works (Agree-saved j.id s.jobs s.disk d (prepare now j) refl)
          ])
  ]

  transition-IsDurable :
      (now : ℕ) (id : String) (to : JobStatus) (o : TransitionOptions)
      → IsDurable (transition now id to o s).0
  unfolding transition
  transition-IsDurable now id to o = elim (Option-cases (lookup id s.jobs)) [
    | inl e ↦ rw (e, transition) d
    | inr (j, e) ↦
        rw (e, transition)
          (elim (Bool-cases (is_terminal j.status)) [
            | inl t ↦ rw t d
            | inr t ↦ rw t (elim (Bool-cases (is_allowed j.status to)) [
              | inr n ↦ rw n d
              | inl a ↦
                  let same = (mutate_fixed now to o j).0 in
                  rw a (
                    report_transition-IsDurable _
                      (Agree-write_through id j (mutate to now o j) _ s d e same same refl) id
                      j.status _ _)
            ])
          ])
  ]

  mark_lost-IsDurable : (now : ℕ) (id reason : String) → IsDurable (mark_lost now id reason s).0
  unfolding mark_lost
  mark_lost-IsDurable now id reason = elim (Option-cases (lookup id s.jobs)) [
    | inl e ↦ rw (e, mark_lost) d
    | inr (j, e) ↦
        rw (e, mark_lost)
          (elim (Bool-cases (is_terminal j.status)) [
            | inl t ↦ rw t d
            | inr t ↦ rw t (
                report_lost-IsDurable _
                  (Agree-write_through id j (lose now reason j) _ s d e refl refl refl) id _)
          ])
  ]

  update_resolved_inputs-IsDurable :
      (id : String) (inputs : List ArtifactBinding)
      → IsDurable (update_resolved_inputs id inputs s).0
  unfolding update_resolved_inputs
  update_resolved_inputs-IsDurable id inputs = elim (Option-cases (lookup id s.jobs)) [
    | inl e ↦ rw (e, update_resolved_inputs) d
    | inr (j, e) ↦
        rw (e, update_resolved_inputs)
          (report_saved-IsDurable _ (Agree-write_through id j _ _ s d e refl refl refl) _)
  ]

  update_shares-IsDurable :
      (id : String) (shares : List Share) → IsDurable (update_shares id shares s).0
  unfolding update_shares
  update_shares-IsDurable id shares = elim (Option-cases (lookup id s.jobs)) [
    | inl e ↦ rw (e, update_shares) d
    | inr (j, e) ↦
        rw (e, update_shares)
          (report_saved-IsDurable _ (Agree-write_through id j _ _ s d e refl refl refl) _)
  ]

cancel_act-IsDurable :
    (s : JobStore) (d : IsDurable s) (p : CancelPlan) (now : ℕ) (id reason : String)
    → IsDurable (cancel_act p now id reason s).0
unfolding cancel_act
cancel_act-IsDurable s d (refuse e) now id reason = d
cancel_act-IsDurable s d by_lost now id reason = mark_lost-IsDurable s d now id _
cancel_act-IsDurable s d by_transition now id reason = transition-IsDurable s d now id _ _

retry_saved-IsDurable :
    (s : JobStore) (d : IsDurable s) (now draw : ℕ) (id : String) (j : Job)
    → lookup id s.jobs ≡ some j
    → let (t, saved) = write_through id (record j { status = retrying }) j s in
      IsDurable (retry_second now draw id (record j { status = retrying }) saved t).0
unfolding retry_second
retry_saved-IsDurable s d now draw id j e = elim (Bool-cases (next_fault s.faults)) [
  | inl fails ↦ rw fails (Agree-rolled_back id s.jobs s.disk d j j e refl refl)
  | inr works ↦
      let t : JobStore = saved_retrying id j s in
      let half = Agree-saved id s.jobs s.disk d (record j { status = retrying }) (d.keyed id j e) in
      rw works (
        report_requeue-IsDurable _
          (Agree-write_through id (record j { status = retrying })
            (requeue now draw (record j { status = retrying })) _ t half
            (lookup-insert_self id (record j { status = retrying }) s.jobs) refl refl refl)
          id _)
]

retry_if_eligible-IsDurable :
    (s : JobStore) (d : IsDurable s) (now draw : ℕ) (id : String)
    → IsDurable (retry_if_eligible now draw id s).0
unfolding retry_if_eligible
retry_if_eligible-IsDurable s d now draw id = elim (Option-cases (lookup id s.jobs)) [
  | inl e ↦ rw (e, retry_if_eligible) d
  | inr (j, e) ↦
      rw (e, retry_if_eligible)
        (elim (Bool-cases (is_retryable j.status && attempts_left j.spec.retry_policy j.attempt)) [
          | inr r ↦ rw r d
          | inl r ↦ rw r (retry_saved-IsDurable s d now draw id j e)
        ])
]

reset_to_pending-IsDurable :
    (s : JobStore) (d : IsDurable s) (id : String)
    → next_fault s.faults ≡ false
    → IsDurable (reset_to_pending id s).0
unfolding reset_to_pending
reset_to_pending-IsDurable s d id works = elim (Option-cases (lookup id s.jobs)) [
  | inl e ↦ rw (e, reset_to_pending) d
  | inr (j, e) ↦
      rw (e, reset_to_pending)
        (elim (Bool-cases (status_eq j.status pending)) [
          | inl p ↦ rw p d
          | inr p ↦ rw p (elim (Bool-cases (is_terminal j.status)) [
            | inl t ↦ rw t d
            | inr t ↦
                rw (t, works)
                  (Agree-saved id s.jobs s.disk d (record j { status = pending }) (d.keyed id j e))
          ])
        ])
]

-- No resetToPending of the run meets a failing save.
abbrev pub ResetWorks : Op → JobStore → Type 0
ResetWorks (resetting id) s = next_fault s.faults ≡ false
ResetWorks _ s = Unit

abbrev pub ResetsWork : List Op → JobStore → Type 0
ResetsWork [] s = Unit
ResetsWork (o ∷ os) s = ResetWorks o s × ResetsWork os (step o s)

step-IsDurable : (o : Op) (s : JobStore) → ResetWorks o s → IsDurable s → IsDurable (step o s)
unfolding step
step-IsDurable (submitting now j) s w d = submit-IsDurable s d now j
step-IsDurable (moving now id to o) s w d = transition-IsDurable s d now id to o
step-IsDurable (losing now id reason) s w d = mark_lost-IsDurable s d now id reason
step-IsDurable (resetting id) s w d = reset_to_pending-IsDurable s d id w
step-IsDurable (cancelling p now id reason) s w d = cancel_act-IsDurable s d p now id reason
step-IsDurable (requeueing now draw id) s w d = retry_if_eligible-IsDurable s d now draw id
step-IsDurable (setting_inputs id inputs) s w d = update_resolved_inputs-IsDurable s d id inputs
step-IsDurable (sharing id shares) s w d = update_shares-IsDurable s d id shares

-- From a store where memory and disk agree on every job's status, any sequence of operations ends
-- in such a store, whichever saves fail, so long as at no resetToPending the next save is one that
-- fails, whether it comes to a save there or not.
pub run-IsDurable :
    (os : List Op) (s : JobStore) → ResetsWork os s → IsDurable s → IsDurable (run os s)
unfolding run
run-IsDurable [] s w d = d
run-IsDurable (o ∷ os) s w d = run-IsDurable os (step o s) w.1 (step-IsDurable o s w.0 d)

reset_fault-not_IsDurable :
    (s : JobStore) (id : String) (j : Job)
    → IsDurable s
    → lookup id s.jobs ≡ some j
    → next_fault s.faults ≡ true
    → is_terminal j.status ≡ false
    → j.status ≢ pending
    → j.status ≢ dispatching
    → ¬ IsDurable (reset_to_pending id s).0
unfolding reset_to_pending
reset_fault-not_IsDurable s id j d e fails t p q after = ground (
  arith,
  after.same_status id,
  d.same_status id,
  lookup-insert_self id (record j { status = dispatching }) s.jobs,
)

-- A resetToPending whose save fails breaks the agreement where the job is neither pending,
-- dispatching nor terminal: the memory says dispatching, the disk has the old status.
pub reset_fault_breaks :
    (s : JobStore) (id : String) (j : Job)
    → IsDurable s
    → lookup id s.jobs ≡ some j
    → next_fault s.faults ≡ true
    → is_terminal j.status ≡ false
    → j.status ≢ pending
    → j.status ≢ dispatching
    → let t' = (reset_to_pending id s).0 in
      (status_of (find_job t' id) ≡ some dispatching)
      × (status_of (on_disk t' id) ≡ some j.status)
      × (¬ IsDurable t')
unfolding reset_to_pending
reset_fault_breaks s id j d e fails t p q = (
  rw (e, reset_to_pending, not_pending, t, fails) (ap status_of (lookup-insert_self id _ s.jobs)),
  rw (e, reset_to_pending, not_pending, t, fails) (sym (d.same_status id) ∙ ap status_of e),
  reset_fault-not_IsDurable s id j d e fails t p q,
)
  where
    not_pending : status_eq j.status pending ≡ false
    not_pending = ground (arith, p)
