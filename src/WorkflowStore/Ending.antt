-- ===== src/WorkflowStore/Ending.antt =====
-- What Cancel does to the workflow and its jobs.
use helion_v.Prelude.{
  ℕ, zero, suc, length, String, Bool, true, false, Option, none, some, List, [], ◌∷◌, In, here,
  there, lookup, ◌≡◌, ◌≢◌, refl, sym, ap, ◌∙◌, inl, inr, arith, str_eq, eq_iff, lookup-insert,
  lookup-insert_self, Bool-cases, Option-cases, if◌then◌else◌, subst, lookup-insert_at,
}
use helion_v.JobStore.Durable.{status_of, status_of-insert}
use helion_v.Job.{Job, is_terminal}
use helion_v.JobStore.{JobStore, find_job, mark_lost, lose, next_fault, later_faults}
use helion_v.Workflow.{WorkflowJob, Workflow, cancelled, is_workflow_terminal}
use helion_v.WorkflowStore.State.{WorkflowStore}
use helion_v.WorkflowStore.Progress.{lose_jobs, cancel_workflow}

-- No job, or one that has ended.
abbrev pub IsEnded : Option Job → Type 0
IsEnded none = Unit
IsEnded (some j) = is_terminal j.status ≡ true

module _ (now : ℕ) (id reason : String) (js : JobStore) (w : js.faults ≡ []) where
  mark_lost-faults : (mark_lost now id reason js).0.faults ≡ []
  unfolding mark_lost
  mark_lost-faults = ground (arith, w)

  mark_lost-other :
      (k : String) → k ≢ id → find_job (mark_lost now id reason js).0 k ≡ find_job js k
  unfolding mark_lost
  mark_lost-other k n = elim (Option-cases (find_job js id)) [
    | inl e ↦ rw (e, mark_lost) refl
    | inr (j, e) ↦ elim (Bool-cases (is_terminal j.status)) [
      | inl t ↦ rw (e, mark_lost, t) refl
      | inr t ↦
          rw (e, mark_lost, t, w)
            (ground (arith, eq_iff id k, lookup-insert id k (lose now reason j) js.jobs))
    ]
  ]

  mark_lost-IsEnded : IsEnded (find_job (mark_lost now id reason js).0 id)
  unfolding mark_lost
  mark_lost-IsEnded = elim (Option-cases (find_job js id)) [
    | inl e ↦ rw (e, mark_lost, e) tt
    | inr (j, e) ↦ elim (Bool-cases (is_terminal j.status)) [
      | inl t ↦ rw (e, mark_lost, t, e) t
      | inr t ↦ rw (e, mark_lost, t, w, lookup-insert_self id (lose now reason j) js.jobs) refl
    ]
  ]

  mark_lost-keeps :
      (k : String) → IsEnded (find_job js k) → IsEnded (find_job (mark_lost now id reason js).0 k)
  mark_lost-keeps k h = elim (Bool-cases (str_eq k id)) [
    | inl same ↦ rw ((eq_iff k id).0 same) mark_lost-IsEnded
    | inr n ↦ rw (mark_lost-other k (λ e. ground (arith, eq_iff k id))) h
  ]

-- The write of the loop for one job.
abbrev lose_one : ℕ → WorkflowJob → JobStore → JobStore
lose_one now wj js =
    if str_eq wj.job_id "" then js else (mark_lost now wj.job_id "workflow cancelled" js).0

module _ (now : ℕ) (wj : WorkflowJob) (js : JobStore) (w : js.faults ≡ []) where
  lose_one-faults : (lose_one now wj js).faults ≡ []
  lose_one-faults = elim (Bool-cases (str_eq wj.job_id "")) [
    | inl n ↦ rw n w
    | inr n ↦ rw n (mark_lost-faults now wj.job_id _ js w)
  ]

  lose_one-other : (k : String) → k ≢ wj.job_id → find_job (lose_one now wj js) k ≡ find_job js k
  lose_one-other k h = elim (Bool-cases (str_eq wj.job_id "")) [
    | inl n ↦ rw n refl
    | inr n ↦ rw n (mark_lost-other now wj.job_id _ js w k h)
  ]

  lose_one-keeps :
      (k : String) → IsEnded (find_job js k) → IsEnded (find_job (lose_one now wj js) k)
  lose_one-keeps k h = elim (Bool-cases (str_eq wj.job_id "")) [
    | inl n ↦ rw n h
    | inr n ↦ rw n (mark_lost-keeps now wj.job_id _ js w k h)
  ]

  lose_one-IsEnded : wj.job_id ≢ "" → IsEnded (find_job (lose_one now wj js) wj.job_id)
  lose_one-IsEnded h = elim (Bool-cases (str_eq wj.job_id "")) [
    | inl n ↦ elim (h ((eq_iff wj.job_id "").0 n)) [ ]
    | inr n ↦ rw n (mark_lost-IsEnded now wj.job_id _ js w)
  ]

lose_jobs-keeps :
    (now : ℕ) (wjs : List WorkflowJob) (js : JobStore)
    → js.faults ≡ []
    → (k : String) → IsEnded (find_job js k)
    → IsEnded (find_job (lose_jobs now wjs js) k)
unfolding lose_jobs
lose_jobs-keeps now [] js w k h = h
lose_jobs-keeps now (wj ∷ rest) js w k h =
    lose_jobs-keeps now rest (lose_one now wj js) (lose_one-faults now wj js w) k
      (lose_one-keeps now wj js w k h)

lose_jobs-IsEnded :
    (now : ℕ) (wjs : List WorkflowJob) (js : JobStore)
    → js.faults ≡ []
    → (wj : WorkflowJob) → In wj wjs
    → wj.job_id ≢ ""
    → IsEnded (find_job (lose_jobs now wjs js) wj.job_id)
unfolding lose_jobs
lose_jobs-IsEnded now [] js w wj i h = elim i [ ]
lose_jobs-IsEnded now (x ∷ rest) js w wj (here e) h =
    lose_jobs-keeps now rest (lose_one now x js) (lose_one-faults now x js w) wj.job_id (
      subst (λ y. IsEnded (find_job (lose_one now x js) y.job_id)) e
        (lose_one-IsEnded now x js w (λ n. h (ap (λ y. y.job_id) (sym e) ∙ n))))
lose_jobs-IsEnded now (x ∷ rest) js w wj (there i) h =
    lose_jobs-IsEnded now rest (lose_one now x js) (lose_one-faults now x js w) wj i h

lose_jobs-other :
    (now : ℕ) (wjs : List WorkflowJob) (js : JobStore)
    → js.faults ≡ []
    → (k : String) → ((wj : WorkflowJob) → In wj wjs → k ≢ wj.job_id)
    → find_job (lose_jobs now wjs js) k ≡ find_job js k
unfolding lose_jobs
lose_jobs-other now [] js w k f = refl
lose_jobs-other now (x ∷ rest) js w k f =
    lose_jobs-other now rest (lose_one now x js) (lose_one-faults now x js w) k
      (λ y i. f y (there i))
    ∙ lose_one-other now x js w k (f x (here refl))

-- The next saves, this many of them, fail.
abbrev pub FailsFor : ℕ → List Bool → Type 0
FailsFor zero faults = Unit
FailsFor (suc n) [] = ⊥
FailsFor (suc n) (fault ∷ faults) = (fault ≡ true) × FailsFor n faults

FailsFor-fewer : (n : ℕ) (faults : List Bool) → FailsFor (suc n) faults → FailsFor n faults
FailsFor-fewer zero faults h = tt
FailsFor-fewer (suc n) [] h = elim h [ ]
FailsFor-fewer (suc n) (fault ∷ faults) h = (h.0, FailsFor-fewer n faults h.1)

FailsFor-next :
    (n : ℕ) (faults : List Bool)
    → FailsFor (suc n) faults
    → (next_fault faults ≡ true) × FailsFor n (later_faults faults)
FailsFor-next n [] h = elim h [ ]
FailsFor-next n (fault ∷ faults) h = h

module _ (now : ℕ) (n : ℕ) (js : JobStore) (fails : FailsFor (suc n) js.faults) where
  abbrev KeepsStatuses : JobStore → Type 0
  KeepsStatuses js' =
      FailsFor n js'.faults
      × ((k : String) → status_of (find_job js' k) ≡ status_of (find_job js k))

  stays : KeepsStatuses js
  stays = (FailsFor-fewer n js.faults fails, λ k. refl)

  mark_lost-fault : (id reason : String) → KeepsStatuses (mark_lost now id reason js).0
  unfolding mark_lost
  mark_lost-fault id reason =
      let (fault, more) = FailsFor-next n js.faults fails in
      elim (Option-cases (lookup id js.jobs)) [
        | inl e ↦ rw (e, mark_lost) stays
        | inr (j, e) ↦ elim (Bool-cases (is_terminal j.status)) [
          | inl t ↦ rw (e, mark_lost, t) stays
          | inr t ↦
              rw (e, mark_lost, t, fault) (more, λ k. status_of-insert k id js.jobs j _ e refl)
        ]
      ]

  lose_one-fault : (wj : WorkflowJob) → KeepsStatuses (lose_one now wj js)
  lose_one-fault wj = elim (Bool-cases (str_eq wj.job_id "")) [
    | inl y ↦ rw y stays
    | inr m ↦ rw m (mark_lost-fault wj.job_id "workflow cancelled")
  ]

lose_jobs-fault :
    (now : ℕ) (wjs : List WorkflowJob) (js : JobStore)
    → FailsFor (length wjs) js.faults
    → (k : String) → status_of (find_job (lose_jobs now wjs js) k) ≡ status_of (find_job js k)
unfolding lose_jobs
lose_jobs-fault now [] js fails k = refl
lose_jobs-fault now (wj ∷ rest) js fails k =
    let (more, same) = lose_one-fault now (length rest) js fails wj in
    lose_jobs-fault now rest (lose_one now wj js) more k ∙ same k

module _ (now : ℕ) (id : String) (s : WorkflowStore) (js : JobStore) (w : Workflow) where
  -- Cancelling a workflow that has not ended, where all saves succeed, returns nil, leaves the
  -- workflow cancelled in memory and on disk, leaves each of its created jobs that the store has
  -- in a terminal status, and touches no other job.
  pub cancel_workflow-ends :
      lookup id s.workflows ≡ some w
      → w.id ≡ id
      → is_workflow_terminal w.status ≡ false
      → s.faults ≡ []
      → js.faults ≡ []
      → let (s', js', answer) = cancel_workflow now id s js in
        let w' = record w { status = cancelled; finished_at = now } in
        (answer ≡ none)
        × (lookup id s'.workflows ≡ some w')
        × (lookup id s'.saved ≡ some w')
        × ((wj : WorkflowJob) → In wj w.jobs → wj.job_id ≢ "" → IsEnded (find_job js' wj.job_id))
        × ((k : String)
            → ((wj : WorkflowJob) → In wj w.jobs → k ≢ wj.job_id)
            → find_job js' k ≡ find_job js k)
  unfolding cancel_workflow
  cancel_workflow-ends e i t f g =
      let w' = record w { status = cancelled; finished_at = now } in
      rw (e, cancel_workflow, t, f)
        (
          refl,
          lookup-insert_self id w' s.workflows,
          lookup-insert_at w.id id w' s.saved i,
          lose_jobs-IsEnded now w.jobs js g,
          lose_jobs-other now w.jobs js g,
        )

  -- Cancel ignores the errors of MarkLost: on a workflow that has not ended, whose own save succeeds
  -- while as many saves of the job store fail as it has jobs, it returns nil and ends the workflow in
  -- memory, and every job of the store keeps the status that it had.
  pub cancel_workflow-ignores_fault :
      lookup id s.workflows ≡ some w
      → is_workflow_terminal w.status ≡ false
      → s.faults ≡ []
      → FailsFor (length w.jobs) js.faults
      → let (s', js', answer) = cancel_workflow now id s js in
        (answer ≡ none)
        × (lookup id s'.workflows ≡ some (record w { status = cancelled; finished_at = now }))
        × ((k : String) → status_of (find_job js' k) ≡ status_of (find_job js k))
  unfolding cancel_workflow
  cancel_workflow-ignores_fault e t f fails =
      rw (e, cancel_workflow, t, f)
        (
          refl,
          lookup-insert_self id (record w { status = cancelled; finished_at = now }) s.workflows,
          lose_jobs-fault now w.jobs js fails,
        )
