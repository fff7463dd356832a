-- ===== src/WorkflowStore/Outcome.antt =====
-- When OnJobCompleted ends the workflow, and how.
use helion_v.Prelude.{
  ℕ, ◌+◌, String, Bool, true, false, ◌&&◌, ◌||◌, some, List, [], ◌∷◌, ◌++◌, In, length, select,
  every, some_of, every-In, some_of-In, not_every-In, none_of-In, lookup, lookup-insert_self, ◌≡◌,
  ◌⊎◌, refl, inl, inr, arith, Bool-cases, ◌∙◌,
}
use helion_v.Job.{JobStatus, completed, status_eq}
use helion_v.JobStore.{JobStore, next_fault}
use helion_v.Workflow.{Workflow, WorkflowStatus}
use helion_v.Workflow.{completed as workflow_done, failed as workflow_lost}
use helion_v.WorkflowStore.State.{
  Counts, WorkflowEvent, workflow_completed, workflow_failed, WorkflowStore, save_workflow,
  put_workflow,
}
use helion_v.WorkflowStore.Progress.{
  Tally, Seen, not_created, missing, live, ended, looks, is_loss, tally, count_job, count_end,
  no_tally, find_target, blamed, publish_workflow, on_job_completed, complete_job, end_workflow,
  cascade,
}

-- The job was not created, or has ended.
abbrev pub is_over : Seen → Bool
is_over not_created = true
is_over (ended status) = true
is_over _ = false

-- The job ended as failed, timed out, lost or skipped.
abbrev pub is_lost : Seen → Bool
is_lost (ended status) = is_loss status
is_lost _ = false

abbrev pub is_success : Seen → Bool
is_success (ended status) = status_eq status completed
is_success _ = false

-- The counts of the workflow's events.
abbrev pub counts_of : List Seen → Counts
counts_of seen = record {
  jobs = length seen;
  successes = length (select is_success seen);
  failures = length (select is_lost seen);
}

tally-all_terminal :
    (seen : List Seen) (t : Tally)
    → (tally seen t).all_terminal ≡ (t.all_terminal && every is_over seen)
unfolding tally
tally-all_terminal [] t = ground arith
tally-all_terminal (not_created ∷ rest) t = tally-all_terminal rest _
tally-all_terminal (missing ∷ rest) t =
    ground (arith, tally-all_terminal rest (record (count_job t) { all_terminal = false }))
tally-all_terminal (live ∷ rest) t = ground arith
tally-all_terminal (ended s ∷ rest) t =
    ground (arith, tally-all_terminal rest (count_end s (count_job t)))

tally-any_failed :
    (seen : List Seen) (t : Tally)
    → every is_over seen ≡ true
    → (tally seen t).any_failed ≡ (t.any_failed || some_of is_lost seen)
unfolding tally
tally-any_failed [] t h = ground arith
tally-any_failed (not_created ∷ rest) t h = tally-any_failed rest _ h
tally-any_failed (missing ∷ rest) t h = (let bad : ⊥ = ground arith in elim bad [ ])
tally-any_failed (live ∷ rest) t h = (let bad : ⊥ = ground arith in elim bad [ ])
tally-any_failed (ended s ∷ rest) t h =
    ground (arith, tally-any_failed rest (count_end s (count_job t)) h)

abbrev plus : Counts → Counts → Counts
plus a b = record {
  jobs = a.jobs + b.jobs;
  successes = a.successes + b.successes;
  failures = a.failures + b.failures;
}

plus-zero : (c : Counts) → plus no_tally.counts c ≡ c
plus-zero c = ground arith

plus-one :
    (s : JobStatus) (c : Counts) (any all : Bool) (rest : List Seen)
    → plus
        (count_end s
          (count_job (record { all_terminal = all; any_failed = any; counts = c }))).counts
        (counts_of rest)
      ≡ plus c (counts_of (ended s ∷ rest))
plus-one s c any all rest = ground arith

tally-counts :
    (seen : List Seen) (t : Tally)
    → every is_over seen ≡ true
    → (tally seen t).counts ≡ plus t.counts (counts_of seen)
unfolding tally
tally-counts [] t h = ground arith
tally-counts (not_created ∷ rest) t h = tally-counts rest (count_job t) h ∙ ground arith
tally-counts (missing ∷ rest) t h = (let bad : ⊥ = ground arith in elim bad [ ])
tally-counts (live ∷ rest) t h = (let bad : ⊥ = ground arith in elim bad [ ])
tally-counts (ended s ∷ rest) t h =
    tally-counts rest (count_end s (count_job t)) h
    ∙ plus-one s t.counts t.any_failed t.all_terminal rest

-- The workflow has this status and this time of its end, in memory and, where the save succeeds, on
-- disk, and the event follows the earlier ones.
pub record EndsWith (now : ℕ) (key : String) (w : Workflow) (st : WorkflowStatus)
    (e : WorkflowEvent) (s s' : WorkflowStore) : Type 0 where
  pub memory : lookup key s'.workflows ≡ some (record w { status = st; finished_at = now })
  pub disk :
      next_fault s.faults ≡ false
      → lookup w.id s'.saved ≡ some (record w { status = st; finished_at = now })
  pub event : s'.events ≡ s.events ++ e ∷ []

module _ (now : ℕ) (key : String) (w : Workflow) (s : WorkflowStore) where
  EndsWith-saved :
      (st : WorkflowStatus) (e : WorkflowEvent)
      → let w' = record w { status = st; finished_at = now } in
        EndsWith now key w st e s (publish_workflow e (save_workflow w' (put_workflow key w' s)).0)
  EndsWith-saved st e = elim (Bool-cases (next_fault s.faults)) [
    | inl f ↦ rw f (record {
      memory = lookup-insert_self key _ s.workflows;
      disk = λ k. (let bad : ⊥ = ground (arith, k) in elim bad [ ]);
      event = refl;
    })
    | inr f ↦ rw f (record {
      memory = lookup-insert_self key _ s.workflows;
      disk = λ k. lookup-insert_self w.id _ s.saved;
      event = refl;
    })
  ]

  -- How the store ends the workflow, by the states of its jobs.
  abbrev pub Verdict : String → List Seen → WorkflowStore → Type 0
  Verdict job seen s' =
      (((x : Seen) × In x seen × (is_lost x ≡ true))
        × EndsWith now key w workflow_lost
            (workflow_failed w.id job w.owner_principal (counts_of seen) w.tags w.started_at now) s
            s')
      ⊎ (((x : Seen) → In x seen → is_lost x ≡ false)
          × EndsWith now key w workflow_done
              (workflow_completed w.id w.owner_principal (counts_of seen) w.tags w.started_at now) s
              s')

  end_workflow-Verdict :
      (name : String) (status : JobStatus) (js : JobStore)
      → let seen = looks js w.jobs in
        every is_over seen ≡ true
        → Verdict
            (blamed name status w.jobs js)
            seen
            (end_workflow now key w name status (tally seen no_tally) js s)
  unfolding end_workflow
  end_workflow-Verdict name status js h =
      let seen = looks js w.jobs in
      let failing : (tally seen no_tally).any_failed ≡ some_of is_lost seen =
        tally-any_failed seen no_tally h in
      let counts : (tally seen no_tally).counts ≡ counts_of seen =
        tally-counts seen no_tally h ∙ plus-zero (counts_of seen) in
      elim (Bool-cases (some_of is_lost seen)) [
        | inl l ↦
            inl
              (some_of-In is_lost seen l, rw (failing, l, counts) (EndsWith-saved workflow_lost _))
        | inr l ↦
            inr
              (none_of-In is_lost seen l, rw (failing, l, counts) (EndsWith-saved workflow_done _))
      ]

pub on_job_completed-settles :
    (now : ℕ) (id : String) (status : JobStatus) (s : WorkflowStore) (js : JobStore) (key : String)
    (w : Workflow) (name : String)
    → find_target id s.workflows ≡ some (key, w, name)
    → let (s', js') = on_job_completed now id status s js in
      let seen = looks js' w.jobs in
      (((x : Seen) × In x seen × (is_over x ≡ false)) × (s' ≡ s))
      ⊎ (((x : Seen) → In x seen → is_over x ≡ true)
          × Verdict now key w s (blamed name status w.jobs js') seen s')
unfolding on_job_completed complete_job
on_job_completed-settles now id status s js key w name e =
    let js' = cascade now name status w.jobs js in
    let seen = looks js' w.jobs in
    let done : (tally seen no_tally).all_terminal ≡ every is_over seen =
      tally-all_terminal seen no_tally in
    rw (e, on_job_completed, done)
      (elim (Bool-cases (every is_over seen)) [
        | inl h ↦
            rw h (inr (every-In is_over seen h, end_workflow-Verdict now key w s name status js' h))
        | inr h ↦ rw h (inl (not_every-In is_over seen h, refl))
      ])
