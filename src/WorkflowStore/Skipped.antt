-- ===== src/WorkflowStore/Skipped.antt =====
-- The loops of the cascade: the chosen jobs do not wait any more.
use helion_v.Prelude.{
  ℕ, String, true, Option, some, List, [], ◌∷◌, In, here, there, ◌≡◌, ◌≢◌, sym, ◌∙◌, inl, inr,
  arith, Bool-cases, Option-cases, subst, lookup-insert_self,
}
use helion_v.Job.{JobStatus, pending, skipped, is_terminal, is_allowed}
use helion_v.JobStore.{JobStore, TransitionOptions, find_job, transition, mutate}
use helion_v.JobStore.Durable.{status_of}
use helion_v.JobStore.Lifecycle.{mutate_fixed}
use helion_v.Workflow.{WorkflowJob}
use helion_v.WorkflowStore.Progress.{to_skip, skip_named, skip_all}
use helion_v.WorkflowStore.Skipping.{Skips, Chosen, skip_one, skip_named-Skips, skip_all-Skips}

-- The other direction: what is chosen does not wait any more, where the saves succeed.
Skips-not_pending :
    {P : Type 0} {a b : Option JobStatus} → Skips P a b → a ≢ some pending → b ≢ some pending
Skips-not_pending (inl e) n h = n (sym e ∙ h)
Skips-not_pending (inr (p, x, y)) n h = n x

module _ (now : ℕ) (o : TransitionOptions) (js : JobStore) (w : js.faults ≡ []) where
  skip-faults : (id : String) → (transition now id skipped o js).0.faults ≡ []
  unfolding transition
  skip-faults id = ground (arith, w)

  skip-not_pending :
      (id : String) → status_of (find_job (transition now id skipped o js).0 id) ≢ some pending
  unfolding transition
  skip-not_pending id = elim (Option-cases (find_job js id)) [
    | inl e ↦ rw (e, transition, e) (λ h. ground (arith, h))
    | inr (j, e) ↦ elim (Bool-cases (is_terminal j.status)) [
      | inl t ↦ rw (e, transition, t, e) (λ h. ground (arith, h, t))
      | inr t ↦ elim (Bool-cases (is_allowed j.status skipped)) [
        | inr n ↦ rw (e, transition, t, n, e) (λ h. ground (arith, h, n))
        | inl a ↦
            rw (e, transition, t, a, w, lookup-insert_self id (mutate skipped now o j) js.jobs)
              (λ h. (let st = (mutate_fixed now skipped o j).4 in ground (arith, h, st)))
      ]
    ]
  ]

  skip_one-faults : (d : String) (wj : WorkflowJob) → (skip_one now o d wj js).faults ≡ []
  skip_one-faults d wj = elim (Bool-cases (to_skip d wj)) [
    | inr n ↦ rw n w
    | inl y ↦ rw y (skip-faults wj.job_id)
  ]

  skip_one-done :
      (d : String) (wj : WorkflowJob)
      → to_skip d wj ≡ true
      → status_of (find_job (skip_one now o d wj js) wj.job_id) ≢ some pending
  skip_one-done d wj y = rw y (skip-not_pending wj.job_id)

module _ (now : ℕ) (o : TransitionOptions) where
  skip_named-faults :
      (d : String) (wjs : List WorkflowJob) (js : JobStore)
      → js.faults ≡ []
      → (skip_named now o d wjs js).faults ≡ []
  unfolding skip_named
  skip_named-faults d [] js w = w
  skip_named-faults d (wj ∷ rest) js w =
      skip_named-faults d rest (skip_one now o d wj js) (skip_one-faults now o js w d wj)

  skip_named-done :
      (d : String) (wjs : List WorkflowJob) (js : JobStore)
      → js.faults ≡ []
      → (wj : WorkflowJob) → In wj wjs
      → to_skip d wj ≡ true
      → status_of (find_job (skip_named now o d wjs js) wj.job_id) ≢ some pending
  unfolding skip_named
  skip_named-done d [] js w wj i y = elim i [ ]
  skip_named-done d (x ∷ rest) js w wj (here e) y =
      Skips-not_pending (skip_named-Skips now o wj.job_id d rest (skip_one now o d x js)) (
        subst (λ z. status_of (find_job (skip_one now o d x js) z.job_id) ≢ some pending) e
          (skip_one-done now o js w d x (subst (λ z. to_skip d z ≡ true) (sym e) y)))
  skip_named-done d (x ∷ rest) js w wj (there i) y =
      skip_named-done d rest (skip_one now o d x js) (skip_one-faults now o js w d x) wj i y

  pub skip_all-done :
      (ds : List String) (wjs : List WorkflowJob) (js : JobStore)
      → js.faults ≡ []
      → (k : String) → Chosen ds wjs k
      → status_of (find_job (skip_all now o ds wjs js) k) ≢ some pending
  unfolding skip_all
  skip_all-done [] wjs js w k c = elim c.below [ ]
  skip_all-done (d ∷ ds) wjs js w k c =
      by_place c.below
        (skip_all-done ds wjs (skip_named now o d wjs js) (skip_named-faults d wjs js w) k)
    where
      by_place :
          In c.descendant (d ∷ ds)
          → (Chosen ds wjs k
              → status_of (find_job (skip_all now o ds wjs (skip_named now o d wjs js)) k)
                ≢ some pending)
          → status_of (find_job (skip_all now o ds wjs (skip_named now o d wjs js)) k)
            ≢ some pending
      by_place (here e) later =
          Skips-not_pending (skip_all-Skips now o k ds wjs (skip_named now o d wjs js)) (
            subst (λ z. status_of (find_job (skip_named now o d wjs js) z) ≢ some pending) c.its_id
              (skip_named-done d wjs js w c.job c.of_workflow
                (subst (λ z. to_skip z c.job ≡ true) (sym e) c.taken)))
      by_place (there i) later = later (record {
        job = c.job;
        of_workflow = c.of_workflow;
        descendant = c.descendant;
        below = i;
        taken = c.taken;
        its_id = c.its_id;
      })
