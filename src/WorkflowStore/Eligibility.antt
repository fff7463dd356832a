-- ===== src/WorkflowStore/Eligibility.antt =====
-- Which jobs EligibleJobs answers with.
use helion_v.Prelude.{
  String, true, false, some, List, [], ◌∷◌, Assoc, In, here, there, lookup, ◌≡◌, ◌≢◌, ◌↔◌, refl,
  sym, inl, inr, arith, str_eq, eq_iff, Bool-cases, Option-cases, subst, ap, ◌∙◌,
}
use helion_v.Job.{JobStatus, Job, pending, completed, failed, timeout, is_terminal}
use helion_v.JobStore.{JobStore, get}
use helion_v.Workflow.{
  DependencyCondition, on_success, on_failure, on_complete, other_condition, WorkflowJob, Workflow,
  running, workflow_status_eq,
}
use helion_v.Dag.{by_name}
use helion_v.WorkflowStore.State.{WorkflowStore}
use helion_v.WorkflowStore.Eligible.{
  is_dependency_satisfied, dep_ready, all_satisfied, is_eligible, eligible_among, eligible_jobs,
}

-- What each condition asks of the status of an upstream job.
pub data Satisfies : DependencyCondition → JobStatus → Type 0 where
  succeeded : Satisfies on_success completed
  broke : Satisfies on_failure failed
  expired : Satisfies on_failure timeout
  ended : {s : JobStatus} → is_terminal s ≡ true → Satisfies on_complete s
  by_default : Satisfies other_condition completed

satisfied-Satisfies :
    (s : JobStatus) (c : DependencyCondition) → is_dependency_satisfied s c ≡ true → Satisfies c s
unfolding is_dependency_satisfied
satisfied-Satisfies s on_success h = grind (arith, succeeded)
satisfied-Satisfies s on_failure h = grind (arith, broke, expired)
satisfied-Satisfies s on_complete h = ended h
satisfied-Satisfies s other_condition h = grind (arith, by_default)

Satisfies-satisfied :
    {s : JobStatus} {c : DependencyCondition} → Satisfies c s → is_dependency_satisfied s c ≡ true
unfolding is_dependency_satisfied
Satisfies-satisfied succeeded = refl
Satisfies-satisfied broke = refl
Satisfies-satisfied expired = refl
Satisfies-satisfied (ended h) = h
Satisfies-satisfied by_default = refl

-- The upstream job exists, has been created, and its status is what the condition asks for.
pub record DepReady (names : Assoc WorkflowJob) (js : JobStore) (c : DependencyCondition)
    (dep : String) : Type 0 where
  pub upstream : WorkflowJob
  pub named : lookup dep names ≡ some upstream
  pub created : upstream.job_id ≢ ""
  pub job : Job
  pub found : get upstream.job_id js ≡ some job
  pub satisfied : Satisfies c job.status

-- The job is there, waits, and all that it depends on is ready.
pub record Ready (names : Assoc WorkflowJob) (js : JobStore) (wj : WorkflowJob) : Type 0 where
  pub created : wj.job_id ≢ ""
  pub job : Job
  pub found : get wj.job_id js ≡ some job
  pub waits : job.status ≡ pending
  pub deps : (dep : String) → In dep wj.depends_on → DepReady names js wj.condition dep

not_empty : (x : String) → str_eq x "" ≡ false → x ≢ ""
not_empty x h e = ground (arith, eq_iff x "")

pub empty_test : (x : String) → x ≢ "" → str_eq x "" ≡ false
empty_test x n = ground (arith, eq_iff x "")

module _ (names : Assoc WorkflowJob) (js : JobStore) (c : DependencyCondition) where
  dep_ready-DepReady : (dep : String) → dep_ready names js c dep ≡ true → DepReady names js c dep
  unfolding dep_ready
  dep_ready-DepReady dep h = elim (Option-cases (lookup dep names)) [
    | inl e ↦ let bad : ⊥ = ground arith in elim bad [ ]
    | inr (d, e) ↦ elim (Bool-cases (str_eq d.job_id "")) [
      | inl n ↦ let bad : ⊥ = ground arith in elim bad [ ]
      | inr n ↦ elim (Option-cases (get d.job_id js)) [
        | inl g ↦ let bad : ⊥ = ground arith in elim bad [ ]
        | inr (j, g) ↦ record {
          upstream = d;
          named = e;
          created = not_empty d.job_id n;
          job = j;
          found = g;
          satisfied = satisfied-Satisfies j.status c (ground arith);
        }
      ]
    ]
  ]

  DepReady-dep_ready : (dep : String) → DepReady names js c dep → dep_ready names js c dep ≡ true
  unfolding dep_ready
  DepReady-dep_ready dep r =
      rw (r.named, dep_ready, empty_test r.upstream.job_id r.created, r.found, dep_ready)
        (Satisfies-satisfied r.satisfied)

  all_satisfied-DepReady :
      (deps : List String)
      → all_satisfied names js c deps ≡ true
      → (dep : String) → In dep deps
      → DepReady names js c dep
  unfolding all_satisfied
  all_satisfied-DepReady [] h dep i = elim i [ ]
  all_satisfied-DepReady (d ∷ deps) h dep (here e) = rw (← e) (dep_ready-DepReady d (ground arith))
  all_satisfied-DepReady (d ∷ deps) h dep (there i) =
      all_satisfied-DepReady deps (ground arith) dep i

  DepReady-all_satisfied :
      (deps : List String)
      → ((dep : String) → In dep deps → DepReady names js c dep)
      → all_satisfied names js c deps ≡ true
  unfolding all_satisfied
  DepReady-all_satisfied [] f = refl
  DepReady-all_satisfied (d ∷ deps) f =
      rw (DepReady-dep_ready d (f d (here refl)))
        (DepReady-all_satisfied deps (λ x i. f x (there i)))

module _ (names : Assoc WorkflowJob) (js : JobStore) where
  is_eligible-Ready : (wj : WorkflowJob) → is_eligible names js wj ≡ true → Ready names js wj
  unfolding is_eligible
  is_eligible-Ready wj h = elim (Bool-cases (str_eq wj.job_id "")) [
    | inl n ↦ let bad : ⊥ = ground arith in elim bad [ ]
    | inr n ↦ elim (Option-cases (get wj.job_id js)) [
      | inl g ↦ let bad : ⊥ = ground arith in elim bad [ ]
      | inr (j, g) ↦ record {
        created = not_empty wj.job_id n;
        job = j;
        found = g;
        waits = ground arith;
        deps = all_satisfied-DepReady names js wj.condition wj.depends_on (ground arith);
      }
    ]
  ]

  Ready-is_eligible : (wj : WorkflowJob) → Ready names js wj → is_eligible names js wj ≡ true
  unfolding is_eligible
  Ready-is_eligible wj r =
      rw (empty_test wj.job_id r.created, r.found, is_eligible, r.waits)
        (DepReady-all_satisfied names js wj.condition wj.depends_on r.deps)

  -- An entry of the map that is ready and has this id.
  pub record EntryFor (id : String) (entries : Assoc WorkflowJob) : Type 0 where
    pub key : String
    pub wj : WorkflowJob
    pub entry : In (key, wj) entries
    pub its_id : wj.job_id ≡ id
    pub ready : Ready names js wj

  In-EntryFor :
      (id : String) (entries : Assoc WorkflowJob)
      → In id (eligible_among names js entries)
      → EntryFor id entries
  unfolding eligible_among
  In-EntryFor id [] i = elim i [ ]
  In-EntryFor id ((k, wj) ∷ rest) i =
      let behind = In-EntryFor id rest in
      elim (Bool-cases (is_eligible names js wj)) [
        | inr n ↦ later (behind (rw n at i))
        | inl y ↦ either y behind (rw y at i)
      ]
    where
      later : EntryFor id rest → EntryFor id ((k, wj) ∷ rest)
      later r = record {
        key = r.key;
        wj = r.wj;
        entry = there r.entry;
        its_id = r.its_id;
        ready = r.ready;
      }

      either :
          is_eligible names js wj ≡ true
          → (In id (eligible_among names js rest) → EntryFor id rest)
          → In id (wj.job_id ∷ eligible_among names js rest)
          → EntryFor id ((k, wj) ∷ rest)
      either y behind (here e) = record {
        key = k;
        wj = wj;
        entry = here refl;
        its_id = e;
        ready = is_eligible-Ready wj y;
      }
      either y behind (there j) = later (behind j)

  EntryFor-In :
      (id key : String) (wj : WorkflowJob) (entries : Assoc WorkflowJob)
      → In (key, wj) entries
      → wj.job_id ≡ id
      → Ready names js wj
      → In id (eligible_among names js entries)
  unfolding eligible_among
  EntryFor-In id key wj [] i e r = elim i [ ]
  EntryFor-In id key wj ((k, x) ∷ rest) (here same) e r =
      rw (Ready-is_eligible x (subst (Ready names js) (sym (ap (λ p. p.1) same)) r))
        (here (ap (λ p. p.1.job_id) same ∙ e))
  EntryFor-In id key wj ((k, x) ∷ rest) (there i) e r =
      let later = EntryFor-In id key wj rest i e r in
      elim (Bool-cases (is_eligible names js x)) [ inl y ↦ rw y (there later) | inr n ↦ rw n later ]

-- EligibleJobs answers with an id exactly where the workflow is running and a job of its name map
-- has this id, is pending in the job store, and every job that it depends on is in the map, has
-- been created, and has a status that satisfies the condition: completed for on_success, failed or
-- timed out for on_failure, any end for on_complete, and completed for any other value.
pub eligible_jobs_iff :
    (id job_id : String) (s : WorkflowStore) (js : JobStore) (w : Workflow)
    → lookup id s.workflows ≡ some w
    → (In job_id (eligible_jobs id s js)
        ↔ ((w.status ≡ running) × EntryFor (by_name w.jobs []) js job_id (by_name w.jobs [])))
unfolding eligible_jobs
eligible_jobs_iff id job_id s js w e =
    rw (e, eligible_jobs)
      (elim (Bool-cases (workflow_status_eq w.status running)) [
        | inl r ↦ rw r (
          λ i. (ground arith, In-EntryFor (by_name w.jobs []) js job_id (by_name w.jobs []) i),
          λ p.
              (let x = p.1 in
                EntryFor-In (by_name w.jobs []) js job_id x.key x.wj (by_name w.jobs []) x.entry
                  x.its_id x.ready),
        )
        | inr r ↦ rw r (λ i. elim i [ ], λ p. (let bad : ⊥ = ground (arith, p.0) in elim bad [ ]))
      ])
