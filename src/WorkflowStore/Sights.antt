-- ===== src/WorkflowStore/Sights.antt =====
-- What the pass of OnJobCompleted over the jobs finds (internal/cluster/workflow_lifecycle.go).
use helion_v.Prelude.{
  true, false, none, some, str_eq, eq_iff, ◌≡◌, ◌≢◌, refl, sym, subst, ◌∙◌, inl, inr, arith,
  Bool-cases, Option-cases,
}
use helion_v.Job.{JobStatus, Job, skipped, is_terminal}
use helion_v.JobStore.{JobStore, get, find_job}
use helion_v.Workflow.{WorkflowJob}
use helion_v.WorkflowStore.Progress.{
  Seen, not_created, missing, live, ended, look, is_loss, is_failure, is_failed_end,
}
use helion_v.WorkflowStore.Outcome.{is_over, is_lost}
use helion_v.WorkflowStore.Reports.{
  HasEnded, well, badly, late, gone, called_off, passed_over, IsBroken, IsUndone, broken, Reached,
  IsSettled,
}

pub terminal-HasEnded : (s : JobStatus) → is_terminal s ≡ true → HasEnded s
terminal-HasEnded s h = grind (arith, well, badly, late, gone, called_off, passed_over)

pub HasEnded-terminal : {s : JobStatus} → HasEnded s → is_terminal s ≡ true
HasEnded-terminal well = refl
HasEnded-terminal _ = refl

pub failure-IsBroken : (s : JobStatus) → is_failure s ≡ true → IsBroken s
failure-IsBroken s h = grind (arith, IsBroken.badly, IsBroken.late, IsBroken.gone)

pub IsBroken-failure : {s : JobStatus} → IsBroken s → is_failure s ≡ true
IsBroken-failure badly = refl
IsBroken-failure _ = refl

pub loss-IsUndone : (s : JobStatus) → is_loss s ≡ true → IsUndone s
loss-IsUndone s h = elim (Bool-cases (is_failure s)) [
  | inl f ↦ broken (failure-IsBroken s f)
  | inr n ↦
      let skip : s ≡ skipped = ground (arith, h, n) in
      subst IsUndone (sym skip) IsUndone.passed_over
]

pub IsUndone-loss : {s : JobStatus} → IsUndone s → is_loss s ≡ true
IsUndone-loss (broken b) = ground (arith, IsBroken-failure b)
IsUndone-loss passed_over = refl

pub IsUndone-terminal : {s : JobStatus} → IsUndone s → is_terminal s ≡ true
IsUndone-terminal passed_over = refl
IsUndone-terminal (broken badly) = refl
IsUndone-terminal (broken late) = refl
IsUndone-terminal (broken gone) = refl

pub undone :
    {s : JobStatus} {js : JobStore} {wj : WorkflowJob}
    → IsUndone s
    → Reached js wj (λ k. k ≡ s)
    → Reached js wj IsUndone
undone u r = record {
  created = r.created;
  job = r.job;
  found = r.found;
  status = subst IsUndone (sym r.status) u;
}

-- What the pass finds of a job.
pub data Sight (js : JobStore) (wj : WorkflowJob) (x : Seen) : Type 0 where
  unborn : wj.job_id ≡ "" → x ≡ not_created → Sight js wj x
  unknown_job : wj.job_id ≢ "" → find_job js wj.job_id ≡ none → x ≡ missing → Sight js wj x
  alive :
      wj.job_id ≢ ""
      → (j : Job) → find_job js wj.job_id ≡ some j
      → is_terminal j.status ≡ false
      → x ≡ live
      → Sight js wj x
  over :
      wj.job_id ≢ ""
      → (j : Job) → find_job js wj.job_id ≡ some j
      → is_terminal j.status ≡ true
      → x ≡ ended j.status
      → Sight js wj x

pub sight : (js : JobStore) (wj : WorkflowJob) → Sight js wj (look js wj.job_id)
unfolding look get
sight js wj = elim (Bool-cases (str_eq wj.job_id "")) [
  | inl e ↦ unborn ((eq_iff wj.job_id "").0 e) (rw (look, e) refl)
  | inr n ↦
      let created : wj.job_id ≢ "" = λ k. ground (arith, n, eq_iff wj.job_id "", k) in
      elim (Option-cases (find_job js wj.job_id)) [
        | inl f ↦ unknown_job created f (rw (n, look, f) refl)
        | inr (j, f) ↦ elim (Bool-cases (is_terminal j.status)) [
          | inl t ↦ over created j f t (rw (n, look, f, t) refl)
          | inr t ↦ alive created j f t (rw (n, look, f, t) refl)
        ]
      ]
]

pub some_same : {a b : Job} → some a ≡ some b → a ≡ b
some_same e = cc

module _ (js : JobStore) (wj : WorkflowJob) where
  pub over-IsSettled : is_over (look js wj.job_id) ≡ true → IsSettled js wj
  over-IsSettled h = elim (sight js wj) [
    | unborn e x ↦ inl e
    | unknown_job c f x ↦ (let bad : ⊥ = ground (arith, (rw x at h)) in elim bad [ ])
    | alive c j f t x ↦ (let bad : ⊥ = ground (arith, (rw x at h)) in elim bad [ ])
    | over c j f t x ↦
        inr (record { created = c; job = j; found = f; status = terminal-HasEnded j.status t })
  ]

  pub not_over-IsSettled : is_over (look js wj.job_id) ≡ false → ¬ IsSettled js wj
  not_over-IsSettled h s = elim (sight js wj) [
    | unborn e x ↦ ground (arith, (rw x at h))
    | over c j f t x ↦ ground (arith, (rw x at h))
    | unknown_job c f x ↦ elim s [ inl e ↦ c e | inr r ↦ ground (arith, f, r.found) ]
    | alive c j f t x ↦ elim s [
      | inl e ↦ c e
      | inr r ↦
          let same = some_same (sym f ∙ r.found) in
          ground (arith, t, (rw same at t), HasEnded-terminal r.status)
    ]
  ]

  pub lost-Reached : is_lost (look js wj.job_id) ≡ true → Reached js wj IsUndone
  lost-Reached h = elim (sight js wj) [
    | unborn e x ↦ (let bad : ⊥ = ground (arith, (rw x at h)) in elim bad [ ])
    | unknown_job c f x ↦ (let bad : ⊥ = ground (arith, (rw x at h)) in elim bad [ ])
    | alive c j f t x ↦ (let bad : ⊥ = ground (arith, (rw x at h)) in elim bad [ ])
    | over c j f t x ↦ record {
      created = c;
      job = j;
      found = f;
      status = loss-IsUndone j.status (rw x at h);
    }
  ]

  pub not_lost-Reached : is_lost (look js wj.job_id) ≡ false → ¬ Reached js wj IsUndone
  not_lost-Reached h r = elim (sight js wj) [
    | unborn e x ↦ r.created e
    | unknown_job c f x ↦ ground (arith, f, r.found)
    | alive c j f t x ↦
        let same = some_same (sym f ∙ r.found) in
        ground (arith, (rw same at t), IsUndone-terminal r.status)
    | over c j f t x ↦
        let same = some_same (sym f ∙ r.found) in
        ground (arith, (rw (x, same) at h), IsUndone-loss r.status)
  ]

  pub IsBroken-Reached : is_failed_end (look js wj.job_id) ≡ true → Reached js wj IsBroken
  IsBroken-Reached h = elim (sight js wj) [
    | unborn e x ↦ (let bad : ⊥ = ground (arith, (rw x at h)) in elim bad [ ])
    | unknown_job c f x ↦ (let bad : ⊥ = ground (arith, (rw x at h)) in elim bad [ ])
    | alive c j f t x ↦ (let bad : ⊥ = ground (arith, (rw x at h)) in elim bad [ ])
    | over c j f t x ↦ record {
      created = c;
      job = j;
      found = f;
      status = failure-IsBroken j.status (rw x at h);
    }
  ]

  pub not-IsBroken-Reached : is_failed_end (look js wj.job_id) ≡ false → ¬ Reached js wj IsBroken
  not-IsBroken-Reached h r = elim (sight js wj) [
    | unborn e x ↦ r.created e
    | unknown_job c f x ↦ ground (arith, f, r.found)
    | alive c j f t x ↦
        let same = some_same (sym f ∙ r.found) in
        ground (arith, (rw same at t), IsUndone-terminal (broken r.status))
    | over c j f t x ↦
        let same = some_same (sym f ∙ r.found) in
        ground (arith, (rw (x, same) at h), IsBroken-failure r.status)
  ]
