-- ===== src/WorkflowStore/Starting.antt =====
-- What Start leaves in the job store.
use helion_v.Prelude.{
  ℕ, String, Option, none, some, List, [], ◌∷◌, In, here, there, lookup, lookup-insert_self, ◌≡◌,
  refl, ap, ◌∙◌, inl, inr, arith, str_eq, eq_iff, Bool-cases, Option-cases, subst, some_cancel,
  ◌++◌,
}
use helion_v.Job.{Job}
use helion_v.JobStore.{StoreError, JobStore, find_job, submit, prepare, next_fault}
use helion_v.JobStore.Ends.{submit_outcome}
use helion_v.Workflow.{
  WorkflowJob, Workflow, pending, running, failed, not_created, workflow_status_eq,
}
use helion_v.WorkflowStore.State.{WorkflowStore, job_not_created, save_workflow, put_workflow}
use helion_v.WorkflowStore.Eligible.{eligible_jobs}
use helion_v.WorkflowStore.Submit.{create_jobs, materialise, child_id, start}

module _ (now : ℕ) (j : Job) (s : JobStore) where
  submit-keeps :
      (k : String) (a : Job) → find_job s k ≡ some a → find_job (submit now j s).0 k ≡ some a
  submit-keeps k a e =
      let (exists, refused, accepted) = submit_outcome now j s in
      elim (Option-cases (find_job s j.id)) [
        | inr (b, f) ↦ rw (exists b f) e
        | inl f ↦ elim (Bool-cases (next_fault s.faults)) [
          | inl w ↦ (refused f w).1 k ∙ e
          | inr w ↦ (accepted f w).1 k ∙ elim (Bool-cases (str_eq j.id k)) [
            | inr n ↦ rw n e
            | inl y ↦ (let bad : ⊥ = ground (arith, e, f, (eq_iff j.id k).0 y) in elim bad [ ])
          ]
        ]
      ]

  submit-adds :
      (submit now j s).1 ≡ none
      → (find_job s j.id ≡ none) × (find_job (submit now j s).0 j.id ≡ some (prepare now j))
  submit-adds h =
      let (exists, refused, accepted) = submit_outcome now j s in
      elim (Option-cases (find_job s j.id)) [
        | inr (b, f) ↦ (let bad : ⊥ = ground (arith, h, exists b f) in elim bad [ ])
        | inl f ↦ elim (Bool-cases (next_fault s.faults)) [
          | inl w ↦ (let bad : ⊥ = ground (arith, h, (refused f w).0) in elim bad [ ])
          | inr w ↦ (f, rw ((accepted f w).1 j.id, (eq_iff j.id j.id).1 refl) refl)
        ]
      ]

abbrev pub with_ids : String → List WorkflowJob → List WorkflowJob
with_ids id [] = []
with_ids id (wj ∷ rest) = record wj { job_id = child_id id wj.name } ∷ with_ids id rest

module _ (now : ℕ) (id : String) (w : Workflow) where
  -- The job of this workflow job, as Submit prepares it: pending, with its first attempt.
  abbrev pub child : WorkflowJob → Job
  child wj = prepare now (materialise id w wj)

  abbrev pub HasChild : JobStore → WorkflowJob → Type 0
  HasChild js wj = find_job js (child_id id wj.name) ≡ some (child wj)

  abbrev first_submit : WorkflowJob → JobStore → JobStore × Option StoreError
  first_submit wj js = submit now (materialise id w wj) js

  create_jobs-keeps :
      (wjs : List WorkflowJob) (js : JobStore) (k : String) (a : Job)
      → find_job js k ≡ some a
      → find_job (create_jobs now id w wjs js).1 k ≡ some a
  unfolding create_jobs
  create_jobs-keeps [] js k a e = e
  create_jobs-keeps (wj ∷ rest) js k a e =
      let next = submit-keeps now (materialise id w wj) js k a e in
      let behind = create_jobs-keeps rest (first_submit wj js).0 k a next in
      elim (Option-cases (first_submit wj js).1) [
        | inl y ↦ rw (y, create_jobs) behind
        | inr (x, y) ↦ rw (y, create_jobs) next
      ]

  submit-HasChild :
      (wj : WorkflowJob) (js : JobStore)
      → (first_submit wj js).1 ≡ none
      → HasChild (first_submit wj js).0 wj
  unfolding materialise
  submit-HasChild wj js h = (submit-adds now (materialise id w wj) js h).1

  create_jobs-HasChild :
      (wjs : List WorkflowJob) (js : JobStore)
      → (create_jobs now id w wjs js).2 ≡ none
      → ((create_jobs now id w wjs js).0 ≡ with_ids id wjs)
        × ((wj : WorkflowJob) → In wj wjs → HasChild (create_jobs now id w wjs js).1 wj)
  unfolding create_jobs
  create_jobs-HasChild [] js h = (refl, λ wj i. elim i [ ])
  create_jobs-HasChild (wj ∷ rest) js h =
      let behind = create_jobs-HasChild rest (first_submit wj js).0 in
      elim (Option-cases (first_submit wj js).1) [
        | inr (x, y) ↦ (let bad : ⊥ = ground (arith, (rw (y, create_jobs) at h)) in elim bad [ ])
        | inl y ↦
            let (ids, all) = behind (rw (y, create_jobs) at h) in
            rw (y, create_jobs)
              (
                ap (λ z. record wj { job_id = child_id id wj.name } ∷ z) ids,
                λ x i. each (create_jobs now id w rest (first_submit wj js).0).1 x i all (
                    create_jobs-keeps rest (first_submit wj js).0 (child_id id wj.name) (child wj)
                      (submit-HasChild wj js y)),
              )
      ]
    where
      each :
          (end : JobStore) (x : WorkflowJob)
          → In x (wj ∷ rest)
          → ((z : WorkflowJob) → In z rest → HasChild end z)
          → HasChild end wj
          → HasChild end x
      each end x (here e) all this = subst (HasChild end) e this
      each end x (there i) all this = all x i

  -- The loop stopped at this job; the earlier ones are in the store.
  pub record Stopped (wjs : List WorkflowJob) (js : JobStore) (name : String) : Type 0 where
    pub done : List WorkflowJob
    pub at : WorkflowJob
    pub rest : List WorkflowJob
    pub parts : wjs ≡ done ++ at ∷ rest
    pub its_name : at.name ≡ name
    pub created : (wj : WorkflowJob) → In wj done → HasChild js wj

  create_jobs-Stopped :
      (wjs : List WorkflowJob) (js : JobStore) (name : String) (x : StoreError)
      → (create_jobs now id w wjs js).2 ≡ some (name, x)
      → Stopped wjs (create_jobs now id w wjs js).1 name
  unfolding create_jobs
  create_jobs-Stopped [] js name x h = (let bad : ⊥ = ground (arith, h) in elim bad [ ])
  create_jobs-Stopped (wj ∷ rest) js name x h =
      let behind = create_jobs-Stopped rest (first_submit wj js).0 name x in
      elim (Option-cases (first_submit wj js).1) [
        | inr (y, f) ↦
            rw (f, create_jobs)
              (record {
                done = [];
                at = wj;
                rest = rest;
                parts = refl;
                its_name = ap (λ p. p.0) (some_cancel (rw (f, create_jobs) at h));
                created = λ z i. elim i [ ];
              })
        | inl f ↦
            rw (f, create_jobs)
              (longer (create_jobs now id w rest (first_submit wj js).0).1
                (behind (rw (f, create_jobs) at h))
                (create_jobs-keeps rest (first_submit wj js).0 (child_id id wj.name) (child wj)
                  (submit-HasChild wj js f)))
      ]
    where
      longer :
          (end : JobStore) → Stopped rest end name → HasChild end wj → Stopped (wj ∷ rest) end name
      longer end s this = record {
        done = wj ∷ s.done;
        at = s.at;
        rest = s.rest;
        parts = ap (λ z. wj ∷ z) s.parts;
        its_name = s.its_name;
        created = λ x i. elim i [ here e ↦ subst (HasChild end) e this | there k ↦ s.created x k ];
      }

saved-memory :
    (id : String) (w : Workflow) (s : WorkflowStore)
    → lookup id (save_workflow w (put_workflow id w s)).0.workflows ≡ some w
saved-memory id w s = elim (Bool-cases (next_fault s.faults)) [
  | inl f ↦ rw f (lookup-insert_self id w s.workflows)
  | inr f ↦ rw f (lookup-insert_self id w s.workflows)
]

-- A Start that returns nil has put a job for each workflow job into the store, pending and under
-- the id "<workflow>/<name>", has kept all jobs that were there, and leaves the workflow running
-- with these ids.
pub start-runs :
    (now : ℕ) (id : String) (s : WorkflowStore) (js : JobStore) (w : Workflow)
    → lookup id s.workflows ≡ some w
    → let (s', js', answer) = start now id s js in
      answer ≡ none
      → ((wj : WorkflowJob) → In wj w.jobs → HasChild now id w js' wj)
        × ((k : String) (a : Job) → find_job js k ≡ some a → find_job js' k ≡ some a)
        × (lookup id s'.workflows
            ≡ some (record w { jobs = with_ids id w.jobs; status = running; started_at = now }))
unfolding start
start-runs now id s js w e h = elim (Bool-cases (workflow_status_eq w.status pending)) [
  | inr n ↦ (let bad : ⊥ = ground (arith, (rw (e, start, n) at h)) in elim bad [ ])
  | inl p ↦ elim (Option-cases (create_jobs now id w w.jobs js).2) [
    | inr ((name, x), y) ↦
        (let bad : ⊥ = ground (arith, (rw (e, start, p, y) at h)) in elim bad [ ])
    | inl y ↦
        let (ids, all) = create_jobs-HasChild now id w w.jobs js y in
        rw (e, start, p, y, ids) (all, create_jobs-keeps now id w w.jobs js, saved-memory id _ s)
  ]
]

failed-not_eligible :
    (id : String) (s : WorkflowStore) (js : JobStore) (w : Workflow)
    → lookup id s.workflows ≡ some w
    → w.status ≡ failed
    → eligible_jobs id s js ≡ []
unfolding eligible_jobs
failed-not_eligible id s js w e f = rw (e, eligible_jobs, f) refl

-- A Start that stops at a job leaves the workflow failed and returns the name of this job. The
-- jobs before it stay in the store as pending, and EligibleJobs answers with no job of the
-- workflow from then on, whatever the job store holds.
pub start-orphans :
    (now : ℕ) (id : String) (s : WorkflowStore) (js : JobStore) (w : Workflow) (name : String)
    (x : StoreError)
    → lookup id s.workflows ≡ some w
    → let (s', js', answer) = start now id s js in
      answer ≡ some (job_not_created name x)
      → Stopped now id w w.jobs js' name
        × ((w' : Workflow) × (lookup id s'.workflows ≡ some w')
            × (w'.status ≡ failed)
            × (w'.error ≡ not_created name x))
        × ((later : JobStore) → eligible_jobs id s' later ≡ [])
unfolding start
start-orphans now id s js w name x e h = elim (Bool-cases (workflow_status_eq w.status pending)) [
  | inr n ↦ (let bad : ⊥ = ground (arith, (rw (e, start, n) at h)) in elim bad [ ])
  | inl p ↦ elim (Option-cases (create_jobs now id w w.jobs js).2) [
    | inl y ↦ (let bad : ⊥ = ground (arith, (rw (e, start, p, y) at h)) in elim bad [ ])
    | inr ((n, z), y) ↦
        let same : (n ≡ name) × (z ≡ x) = ground (arith, (rw (e, start, p, y) at h)) in
        let w' = record w {
          jobs = (create_jobs now id w w.jobs js).0;
          status = failed;
          error = not_created n z;
          finished_at = now;
        } in
        rw (e, start, p, y)
          (
            subst (Stopped now id w w.jobs (create_jobs now id w w.jobs js).1) same.0
                (create_jobs-Stopped now id w w.jobs js n z y),
            (w', saved-memory id w' s, refl, rw (same.0, same.1) refl),
            λ later.
                failed-not_eligible id (save_workflow w' (put_workflow id w' s)).0 later w'
                  (saved-memory id w' s) refl,
          )
  ]
]
