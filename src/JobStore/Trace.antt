-- ===== src/JobStore/Trace.antt =====
-- Every sequence of operations of the store. The halves of CancelJob are operations of their own,
-- so a trace holds any interleaving with it.
use helion_v.Prelude.{
  ℕ, ◌+◌, ◌%◌, ◌^◌, ◌≤◌, String, Bool, true, false, Option, none, some, List, [], ◌∷◌, ◌≡◌, refl,
  ◌∙◌, ◌⊎◌, inl, inr, arith, subst,
}
use helion_v.Authz.{Share}
use helion_v.Job.{
  JobStatus, completed, lost, cancelled, skipped, Job, JobSpec, RetryPolicy, ArtifactBinding,
}
use helion_v.Job.Retry.{attempts_left}
use helion_v.JobStore.State.{JobStore, TransitionOptions, find_job}
use helion_v.JobStore.Submit.{submit}
use helion_v.JobStore.Transition.{transition, mark_lost, reset_to_pending}
use helion_v.JobStore.Cancel.{CancelPlan, cancel_act}
use helion_v.JobStore.RetryLoop.{retry_if_eligible}
use helion_v.JobStore.Read.{update_resolved_inputs, update_shares}
use helion_v.JobStore.Lifecycle.{may_step, Evolves, Kept}
use helion_v.JobStore.Steps.{
  Kept-submit, Kept-transition, Kept-mark_lost, Kept-reset_to_pending, Kept-cancel_act,
  Kept-retry_if_eligible, Kept-update_resolved_inputs, Kept-update_shares,
}

pub data Op : Type 0 where
  submitting : (now : ℕ) (j : Job) → Op
  moving : (now : ℕ) (id : String) (to : JobStatus) (o : TransitionOptions) → Op
  losing : (now : ℕ) (id reason : String) → Op
  resetting : (id : String) → Op
  cancelling : (p : CancelPlan) (now : ℕ) (id reason : String) → Op
  requeueing : (now draw : ℕ) (id : String) → Op
  setting_inputs : (id : String) (inputs : List ArtifactBinding) → Op
  sharing : (id : String) (shares : List Share) → Op

unfoldable pub step : Op → JobStore → JobStore
step (submitting now j) s = (submit now j s).0
step (moving now id to o) s = (transition now id to o s).0
step (losing now id reason) s = (mark_lost now id reason s).0
step (resetting id) s = (reset_to_pending id s).0
step (cancelling p now id reason) s = (cancel_act p now id reason s).0
step (requeueing now draw id) s = (retry_if_eligible now draw id s).0
step (setting_inputs id inputs) s = (update_resolved_inputs id inputs s).0
step (sharing id shares) s = (update_shares id shares s).0

unfoldable pub run : List Op → JobStore → JobStore
unfolding step
run [] s = s
run (o ∷ os) s = run os (step o s)

pub Kept-step : (k : String) (o : Op) (s : JobStore) → Kept (find_job s k) (find_job (step o s) k)
unfolding step
Kept-step k (submitting now j) s = Kept-submit k now j s
Kept-step k (moving now id to o) s = Kept-transition k now id to o s
Kept-step k (losing now id reason) s = Kept-mark_lost k now id reason s
Kept-step k (resetting id) s = Kept-reset_to_pending k id s
Kept-step k (cancelling p now id reason) s = Kept-cancel_act k p now id reason s
Kept-step k (requeueing now draw id) s = Kept-retry_if_eligible k now draw id s
Kept-step k (setting_inputs id inputs) s = Kept-update_resolved_inputs k id inputs s
Kept-step k (sharing id shares) s = Kept-update_shares k id shares s

-- One operation, on a job that is there.
pub step-Evolves :
    (k : String) (o : Op) (s : JobStore) (j : Job)
    → find_job s k ≡ some j
    → (j' : Job) × (find_job (step o s) k ≡ some j') × Evolves j j'
step-Evolves k o s j e = open_kept (find_job (step o s) k) refl (rw e at (Kept-step k o s))
  where
    open_kept :
        (after : Option Job)
        → find_job (step o s) k ≡ after
        → Kept (some j) after
        → (j' : Job) × (find_job (step o s) k ≡ some j') × Evolves j j'
    open_kept none q h = elim h [ ]
    open_kept (some j') q h = (j', q, h)

-- A property of jobs that `Evolves` keeps holds through every run.
pub run_keeps {ℓ} :
    (P : Job → Type ℓ)
    → ((a b : Job) → Evolves a b → P a → P b)
    → (k : String) (os : List Op) (s : JobStore) (j : Job) → find_job s k ≡ some j
    → P j
    → (j' : Job) × (find_job (run os s) k ≡ some j') × P j'
unfolding run
run_keeps P keep k [] s j e p = (j, e, p)
run_keeps P keep k (o ∷ os) s j e p =
    let (j', e', ev) = step-Evolves k o s j e in
    run_keeps P keep k os (step o s) j' e' (keep j j' ev p)

-- Who owns a job, what it runs, when it was created and its submitted priority never change,
-- whatever operations run on the store, and no operation removes a job.
pub run-ownership :
    (k : String) (os : List Op) (s : JobStore) (j : Job)
    → find_job s k ≡ some j
    → (j' : Job) × (find_job (run os s) k ≡ some j')
      × ((j'.id ≡ j.id)
          × (j'.spec ≡ j.spec)
          × (j'.created_at ≡ j.created_at)
          × (j'.priority ≡ j.priority))
run-ownership k os s j e =
    run_keeps
      (λ b.
        (b.id ≡ j.id)
        × (b.spec ≡ j.spec)
        × (b.created_at ≡ j.created_at)
        × (b.priority ≡ j.priority))
      (λ a b ev (i, sp, c, p). (ev.ident ∙ i, ev.spec ∙ sp, ev.created ∙ c, ev.priority ∙ p)) k os s
      j e (refl, refl, refl, refl)

-- The statuses that no retry leaves: all terminal ones but failed and timeout.
unfoldable pub is_final : JobStatus → Bool
is_final completed = true
is_final lost = true
is_final cancelled = true
is_final skipped = true
is_final _ = false

final_stays : (a b : JobStatus) → is_final a ≡ true → may_step a b ≡ true → b ≡ a
unfolding is_final may_step
final_stays a b f m = ground arith

-- A job that is completed, lost, cancelled or skipped has that status after any sequence of
-- operations, also where a cancellation was decided before it finished.
pub run-is_final :
    (k : String) (os : List Op) (s : JobStore) (j : Job)
    → find_job s k ≡ some j
    → is_final j.status ≡ true
    → (j' : Job) × (find_job (run os s) k ≡ some j') × (j'.status ≡ j.status)
run-is_final k os s j e f =
    run_keeps (λ b. b.status ≡ j.status)
      (λ a b ev p. final_stays a.status b.status (rw p f) ev.status ∙ p) k os s j e refl

-- The attempt is the one at the start, or within the limit of the policy.
pub data IsCounted (start : ℕ) (policy : Option RetryPolicy) (attempt : ℕ) : Type 0 where
  unchanged : attempt ≡ start → IsCounted start policy attempt
  limited :
      (p : RetryPolicy)
      → policy ≡ some p
      → attempt ≤ p.max_attempts
      → IsCounted start policy attempt

IsCounted-next :
    {start : ℕ} (a b : ℕ) (policy : Option RetryPolicy)
    → IsCounted start policy a
    → (b ≡ a) ⊎ ((attempts_left policy a ≡ true) × (b ≡ (a + 1) % 2 ^ 32))
    → IsCounted start policy b
IsCounted-next a b policy c (inl same) = rw same c
IsCounted-next a b none c (inr (left, e)) = (let bad : ⊥ = ground (arith, left) in elim bad [ ])
IsCounted-next a b (some p) c (inr (left, e)) = limited p refl (ground (arith, left, e))

IsCounted-without :
    {start attempt : ℕ} {policy : Option RetryPolicy}
    → IsCounted start policy attempt
    → policy ≡ none
    → attempt ≡ start
IsCounted-without (unchanged e) n = e
IsCounted-without (limited p e h) n = cc

-- Whatever operations run, a job has the attempt that it had, or its retry policy has a limit and
-- the attempt is not above it; a job with no policy keeps its attempt.
pub run-attempts :
    (k : String) (os : List Op) (s : JobStore) (j : Job)
    → find_job s k ≡ some j
    → (j' : Job) × (find_job (run os s) k ≡ some j')
      × ((j'.spec ≡ j.spec)
          × IsCounted j.attempt j.spec.retry_policy j'.attempt
          × (j.spec.retry_policy ≡ none → j'.attempt ≡ j.attempt))
run-attempts k os s j e =
    let (j', f, (sp, c)) =
      run_keeps (λ b. (b.spec ≡ j.spec) × IsCounted j.attempt j.spec.retry_policy b.attempt) keep k
        os s j e (refl, unchanged refl) in
    (j', f, (sp, c, IsCounted-without c))
  where
    keep :
        (a b : Job)
        → Evolves a b
        → (a.spec ≡ j.spec) × IsCounted j.attempt j.spec.retry_policy a.attempt
        → (b.spec ≡ j.spec) × IsCounted j.attempt j.spec.retry_policy b.attempt
    keep a b ev (sp, at) = (
      ev.spec ∙ sp,
      IsCounted-next a.attempt b.attempt j.spec.retry_policy at (
          subst
            (λ (x : JobSpec).
              (b.attempt ≡ a.attempt)
              ⊎ ((attempts_left x.retry_policy a.attempt ≡ true)
                  × (b.attempt ≡ (a.attempt + 1) % 2 ^ 32)))
            sp ev.attempts),
    )
