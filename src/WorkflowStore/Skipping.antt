-- ===== src/WorkflowStore/Skipping.antt =====
-- The loops of the cascade: which statuses they change.
use helion_v.Prelude.{
  ℕ, String, true, false, Option, some, List, [], ◌∷◌, In, here, there, lookup, insert,
  lookup-insert, ◌≡◌, ◌⊎◌, refl, sym, ap, ◌∙◌, inl, inr, arith, str_eq, eq_iff, Bool-cases,
  Option-cases, if◌then◌else◌,
}
use helion_v.Job.{JobStatus, Job, pending, skipped, is_terminal, is_allowed}
use helion_v.JobStore.{JobStore, TransitionOptions, find_job, transition, next_fault, mutate}
use helion_v.JobStore.Durable.{status_of, status_of-insert}
use helion_v.JobStore.Lifecycle.{mutate_fixed}
use helion_v.Workflow.{WorkflowJob}
use helion_v.WorkflowStore.Progress.{to_skip, skip_named, skip_all}

-- A status that stays, or goes from pending to skipped where `P` holds.
abbrev pub Skips : Type 0 → Option JobStatus → Option JobStatus → Type 0
Skips P a b = (b ≡ a) ⊎ (P × (a ≡ some pending) × (b ≡ some skipped))

pub Skips-trans : {P : Type 0} {a b c : Option JobStatus} → Skips P a b → Skips P b c → Skips P a c
Skips-trans (inl e) (inl f) = inl (f ∙ e)
Skips-trans (inl e) (inr (p, x, y)) = inr (p, sym e ∙ x, y)
Skips-trans (inr (p, x, y)) (inl f) = inr (p, x, f ∙ y)
Skips-trans (inr (p, x, y)) (inr (q, z, v)) = inr (p, x, v)

pub Skips-map : {P Q : Type 0} {a b : Option JobStatus} → (P → Q) → Skips P a b → Skips Q a b
Skips-map f (inl e) = inl e
Skips-map f (inr (p, x, y)) = inr (f p, x, y)

module _ (now : ℕ) (id : String) (o : TransitionOptions) (js : JobStore) where
  skip-Skips :
      (k : String)
      → Skips
          (id ≡ k)
          (status_of (find_job js k))
          (status_of (find_job (transition now id skipped o js).0 k))
  unfolding transition
  skip-Skips k = elim (Option-cases (find_job js id)) [
    | inl e ↦ rw (e, transition) (inl refl)
    | inr (j, e) ↦ elim (Bool-cases (is_terminal j.status)) [
      | inl t ↦ rw (e, transition, t) (inl refl)
      | inr t ↦ elim (Bool-cases (is_allowed j.status skipped)) [
        | inr n ↦ rw (e, transition, t, n) (inl refl)
        | inl a ↦ elim (Bool-cases (next_fault js.faults)) [
          | inl f ↦ rw (e, transition, t, a, f) (inl (status_of-insert k id js.jobs j _ e refl))
          | inr f ↦ rw (e, transition, t, a, f) (moved j e t a)
        ]
      ]
    ]
  ]
    where
      moved :
          (j : Job)
          → find_job js id ≡ some j
          → is_terminal j.status ≡ false
          → is_allowed j.status skipped ≡ true
          → Skips
              (id ≡ k)
              (status_of (lookup k js.jobs))
              (status_of (lookup k (insert id (mutate skipped now o j) js.jobs)))
      moved j e t a = elim (Bool-cases (str_eq id k)) [
        | inl same ↦
            let is_id = (eq_iff id k).0 same in
            inr (
              is_id,
              rw (← is_id, e) (ground arith),
              rw (lookup-insert, same) (ap some (mutate_fixed now skipped o j).4),
            )
        | inr other ↦ inl (rw (lookup-insert, other) refl)
      ]

-- The cascade takes the job with this id: it is a job of the workflow, named among the
-- descendants, with the condition on_success.
pub record Chosen (ds : List String) (wjs : List WorkflowJob) (k : String) : Type 0 where
  pub job : WorkflowJob
  pub of_workflow : In job wjs
  pub descendant : String
  pub below : In descendant ds
  pub taken : to_skip descendant job ≡ true
  pub its_id : job.job_id ≡ k

Chosen-there :
    {ds : List String} {x : WorkflowJob} {wjs : List WorkflowJob} {k : String}
    → Chosen ds wjs k
    → Chosen ds (x ∷ wjs) k
Chosen-there c = record {
  job = c.job;
  of_workflow = there c.of_workflow;
  descendant = c.descendant;
  below = c.below;
  taken = c.taken;
  its_id = c.its_id;
}

Chosen-below :
    {d : String} {ds : List String} {wjs : List WorkflowJob} {k : String}
    → Chosen ds wjs k
    → Chosen (d ∷ ds) wjs k
Chosen-below c = record {
  job = c.job;
  of_workflow = c.of_workflow;
  descendant = c.descendant;
  below = there c.below;
  taken = c.taken;
  its_id = c.its_id;
}

Chosen-first :
    {d : String} {ds : List String} {wjs : List WorkflowJob} {k : String}
    → Chosen (d ∷ []) wjs k
    → Chosen (d ∷ ds) wjs k
Chosen-first {d = d} {ds = ds} c = record {
  job = c.job;
  of_workflow = c.of_workflow;
  descendant = c.descendant;
  below = first c.below;
  taken = c.taken;
  its_id = c.its_id;
}
  where
    first : In c.descendant (d ∷ []) → In c.descendant (d ∷ ds)
    first (here e) = here e
    first (there i) = elim i [ ]

-- The turn of the loop for one job.
abbrev pub skip_one : ℕ → TransitionOptions → String → WorkflowJob → JobStore → JobStore
skip_one now o d wj js = if to_skip d wj then (transition now wj.job_id skipped o js).0 else js

module _ (now : ℕ) (o : TransitionOptions) (k : String) where
  skip_one-Skips :
      (d : String) (wj : WorkflowJob) (rest : List WorkflowJob) (js : JobStore)
      → Skips
          (Chosen (d ∷ []) (wj ∷ rest) k)
          (status_of (find_job js k))
          (status_of (find_job (skip_one now o d wj js) k))
  skip_one-Skips d wj rest js = elim (Bool-cases (to_skip d wj)) [
    | inr n ↦ rw n (inl refl)
    | inl y ↦ rw y (
        Skips-map
          (λ e. record {
            job = wj;
            of_workflow = here refl;
            descendant = d;
            below = here refl;
            taken = y;
            its_id = e;
          })
          (skip-Skips now wj.job_id o js k))
  ]

  pub skip_named-Skips :
      (d : String) (wjs : List WorkflowJob) (js : JobStore)
      → Skips
          (Chosen (d ∷ []) wjs k)
          (status_of (find_job js k))
          (status_of (find_job (skip_named now o d wjs js) k))
  unfolding skip_named
  skip_named-Skips d [] js = inl refl
  skip_named-Skips d (wj ∷ rest) js =
      Skips-trans (skip_one-Skips d wj rest js)
        (Skips-map Chosen-there (skip_named-Skips d rest (skip_one now o d wj js)))

  pub skip_all-Skips :
      (ds : List String) (wjs : List WorkflowJob) (js : JobStore)
      → Skips
          (Chosen ds wjs k)
          (status_of (find_job js k))
          (status_of (find_job (skip_all now o ds wjs js) k))
  unfolding skip_all
  skip_all-Skips [] wjs js = inl refl
  skip_all-Skips (d ∷ ds) wjs js =
      Skips-trans (Skips-map Chosen-first (skip_named-Skips d wjs js))
        (Skips-map Chosen-below (skip_all-Skips ds wjs (skip_named now o d wjs js)))
