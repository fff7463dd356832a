-- ===== src/JobStore/Lifecycle.antt =====
-- How one operation of the store changes one job: the relation, and a lemma for each operation.
use helion_v.Prelude.{
  ℕ, ◌+◌, ◌%◌, ◌^◌, String, Bool, true, false, not, ◌&&◌, ◌||◌, Option, none, some, ◌≡◌, refl, sym,
  ◌⊎◌, inl, inr, arith, lookup, insert, delete, lookup-insert, lookup-delete, eq_iff, str_eq,
  Bool-cases, Assoc,
}
use helion_v.Job.{
  JobStatus, pending, dispatching, lost, retrying, is_terminal, is_allowed, is_retryable, status_eq,
  Job,
}
use helion_v.Job.Retry.{attempts_left}
use helion_v.JobStore.State.{JobStore, TransitionOptions, next_fault, find_job, write_through}
use helion_v.JobStore.Transition.{mutate}

-- The status changes that some operation makes: an edge of the table from a status that is not
-- terminal, a loss, a retry, or the reset of crash recovery.
unfoldable pub may_step : JobStatus → JobStatus → Bool
may_step a b =
    status_eq a b
    || (not (is_terminal a)
        && (is_allowed a b || status_eq b lost || status_eq b pending || status_eq b dispatching))
    || (is_retryable a && (status_eq b pending || status_eq b retrying))

module _ (a b : JobStatus) where
  pub may_step_allowed : is_terminal a ≡ false → is_allowed a b ≡ true → may_step a b ≡ true
  unfolding may_step
  may_step_allowed h k = ground (arith, h, k)

pub may_step_refl : (a : JobStatus) → may_step a a ≡ true
unfolding may_step
may_step_refl a = ground arith

module _ (a : JobStatus) (h : is_terminal a ≡ false) where
  pub may_step_lost : may_step a lost ≡ true
  unfolding may_step
  may_step_lost = ground arith

  pub may_step_pending : may_step a pending ≡ true
  unfolding may_step
  may_step_pending = ground arith

  pub may_step_dispatching : may_step a dispatching ≡ true
  unfolding may_step
  may_step_dispatching = ground arith

module _ (a : JobStatus) (h : is_retryable a ≡ true) where
  pub may_step_retrying : may_step a retrying ≡ true
  unfolding may_step
  may_step_retrying = ground arith

  pub may_step_requeue : may_step a pending ≡ true
  unfolding may_step
  may_step_requeue = ground arith

-- `b` is the job `a` after one operation: who owns it, what it runs and when it was created are
-- as they were, and an attempt is counted only where the policy has one left.
pub record Evolves (a b : Job) : Type 0 where
  pub ident : b.id ≡ a.id
  pub spec : b.spec ≡ a.spec
  pub created : b.created_at ≡ a.created_at
  pub priority : b.priority ≡ a.priority
  pub status : may_step a.status b.status ≡ true
  pub attempts :
      (b.attempt ≡ a.attempt)
      ⊎ ((attempts_left a.spec.retry_policy a.attempt ≡ true)
          × (b.attempt ≡ (a.attempt + 1) % 2 ^ 32))

pub Evolves-refl : (j : Job) → Evolves j j
Evolves-refl j = record {
  ident = refl;
  spec = refl;
  created = refl;
  priority = refl;
  status = may_step_refl j.status;
  attempts = inl refl;
}

-- No operation loses a job.
abbrev pub Kept : Option Job → Option Job → Type 0
Kept none after = Unit
Kept (some a) none = ⊥
Kept (some a) (some b) = Evolves a b

pub Kept-refl : (o : Option Job) → Kept o o
Kept-refl none = tt
Kept-refl (some j) = Evolves-refl j

module _ (k id : String) (m : Assoc Job) where
  pub Kept-insert :
      (a b : Job)
      → lookup id m ≡ some a
      → Evolves a b
      → Kept (lookup k m) (lookup k (insert id b m))
  Kept-insert a b f e = rw lookup-insert (elim (Bool-cases (str_eq id k)) [
    | inl same ↦ rw (same, sym ((eq_iff id k).0 same), f) e
    | inr other ↦ rw other (Kept-refl (lookup k m))
  ])

  pub Kept-insert_new :
      (b : Job) → lookup id m ≡ none → Kept (lookup k m) (lookup k (insert id b m))
  Kept-insert_new b f = rw lookup-insert (elim (Bool-cases (str_eq id k)) [
    | inl same ↦ rw (same, sym ((eq_iff id k).0 same), f) tt
    | inr other ↦ rw other (Kept-refl (lookup k m))
  ])

  pub Kept-delete_new :
      (b : Job) → lookup id m ≡ none → Kept (lookup k m) (lookup k (delete id (insert id b m)))
  Kept-delete_new b f = rw lookup-delete (elim (Bool-cases (str_eq id k)) [
    | inl same ↦ rw (same, sym ((eq_iff id k).0 same), f) tt
    | inr other ↦ rw (other, lookup-insert, other) (Kept-refl (lookup k m))
  ])

-- A second write to the same job hides the first.
Kept-insert_twice :
    (k id : String) (m : Assoc Job) (a b c : Job)
    → lookup id m ≡ some a
    → Evolves a c
    → Kept (lookup k m) (lookup k (insert id c (insert id b m)))
Kept-insert_twice k id m a b c f e =
    rw (lookup-insert, lookup-insert)
      (elim (Bool-cases (str_eq id k)) [
        | inl same ↦ rw (same, sym ((eq_iff id k).0 same), f) e
        | inr other ↦ rw other (Kept-refl (lookup k m))
      ])

-- Both outcomes of a write: the changed job, or the rolled-back one.
pub Kept-write_through :
    (k id : String) (a changed rolled_back : Job) (s : JobStore)
    → lookup id s.jobs ≡ some a
    → Evolves a changed
    → Evolves a rolled_back
    → Kept (find_job s k) (find_job (write_through id changed rolled_back s).0 k)
Kept-write_through k id a changed rolled_back s f e r = elim (Bool-cases (next_fault s.faults)) [
  | inl fails ↦ rw fails (Kept-insert k id s.jobs a rolled_back f r)
  | inr works ↦ rw works (Kept-insert k id s.jobs a changed f e)
]

-- The same for a write behind another write to the job.
pub Kept-write_twice :
    (k id : String) (a b changed rolled_back : Job) (s t : JobStore)
    → lookup id s.jobs ≡ some a
    → t.jobs ≡ insert id b s.jobs
    → Evolves a changed
    → Evolves a rolled_back
    → Kept (find_job s k) (find_job (write_through id changed rolled_back t).0 k)
Kept-write_twice k id a b changed rolled_back s t f w e r =
    elim (Bool-cases (next_fault t.faults)) [
      | inl fails ↦ rw (fails, w) (Kept-insert_twice k id s.jobs a b rolled_back f r)
      | inr works ↦ rw (works, w) (Kept-insert_twice k id s.jobs a b changed f e)
    ]

module _ (now : ℕ) (to : JobStatus) (o : TransitionOptions) (j : Job) where
  pub mutate_fixed :
      ((mutate to now o j).id ≡ j.id)
      × ((mutate to now o j).spec ≡ j.spec)
      × ((mutate to now o j).created_at ≡ j.created_at)
      × ((mutate to now o j).priority ≡ j.priority)
      × ((mutate to now o j).status ≡ to)
      × ((mutate to now o j).attempt ≡ j.attempt)
  unfolding mutate
  mutate_fixed = ground arith

  pub Evolves-mutate :
      (b : JobStatus)
      → may_step j.status b ≡ true
      → Evolves j (record (mutate to now o j) { status = b })
  Evolves-mutate b h =
      let (i, sp, c, p, st, at) = mutate_fixed in
      record { ident = i; spec = sp; created = c; priority = p; status = h; attempts = inl at }
