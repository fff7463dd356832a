-- ===== src/JobStore/Written.antt =====
-- What a transition writes into the record and reports (internal/cluster/job_transition.go).
use helion_v.Prelude.{
  ℕ, String, true, false, List, [], ◌∷◌, ◌≡◌, ◌≢◌, ◌⊎◌, inl, inr, refl, arith, str_eq, eq_iff,
  Bool-cases,
}
use helion_v.Job.{
  JobStatus, unknown, pending, dispatching, running, completed, failed, timeout, lost, retrying,
  scheduled, cancelled, skipped, Job, ArtifactOutput, is_allowed, is_terminal,
}
use helion_v.JobStore.State.{Event, completed_with, failed_with, TransitionOptions}
use helion_v.JobStore.Transition.{or_keep, or_keep_outputs, mutate, outcome_events}

-- The new value of a field: what was given, or the old value where nothing was.
pub data Given (given old : String) : String → Type 0 where
  kept : given ≡ "" → Given given old old
  taken : given ≢ "" → Given given old given

pub data GivenOutputs (old : List ArtifactOutput)
    : List ArtifactOutput → List ArtifactOutput → Type 0 where
  kept : GivenOutputs old [] old
  taken : (o : ArtifactOutput) (os : List ArtifactOutput) → GivenOutputs old (o ∷ os) (o ∷ os)

-- The record that a transition to a status leaves.
pub data Written (now : ℕ) (o : TransitionOptions) (j : Job) : JobStatus → Job → Type 0 where
  sent_out :
      {node : String}
      → Given o.node_id j.node_id node
      → Written now o j dispatching
          (record j { status = dispatching; dispatched_at = now; node_id = node })
  placed :
      {node : String}
      → Given o.node_id j.node_id node
      → Written now o j scheduled (record j { status = scheduled; node_id = node })
  succeeded :
      {error runtime : String} {outputs : List ArtifactOutput}
      → Given o.err_msg j.error error
      → Given o.runtime j.runtime runtime
      → GivenOutputs j.resolved_outputs o.resolved_outputs outputs
      → Written now o j completed (record j {
        status = completed;
        finished_at = now;
        exit_code = o.exit_code;
        error = error;
        runtime = runtime;
        resolved_outputs = outputs;
      })
  broke :
      {to : JobStatus} {error runtime : String}
      → (to ≡ failed) ⊎ (to ≡ timeout)
      → Given o.err_msg j.error error
      → Given o.runtime j.runtime runtime
      → Written now o j to (record j {
        status = to;
        finished_at = now;
        exit_code = o.exit_code;
        error = error;
        runtime = runtime;
      })
  stopped :
      {to : JobStatus} {error : String}
      → (to ≡ cancelled) ⊎ (to ≡ skipped)
      → Given o.err_msg j.error error
      → Written now o j to (record j { status = to; finished_at = now; error = error })
  moved_on :
      {to : JobStatus}
      → (to ≡ pending) ⊎ (to ≡ running)
      → Written now o j to (record j { status = to })

-- The events behind the transition event.
pub data Reported (id : String) (j : Job) : JobStatus → List Event → Type 0 where
  completion : Reported id j completed (completed_with id j.node_id j.resolved_outputs ∷ [])
  failure : Reported id j failed (failed_with id j.error j.exit_code j.attempt ∷ [])
  silent : {to : JobStatus} → to ≢ completed → to ≢ failed → Reported id j to []

or_keep-Given : (given old : String) → Given given old (or_keep given old)
or_keep-Given given old = elim (Bool-cases (str_eq given "")) [
  | inl e ↦ rw e (kept ((eq_iff given "").0 e))
  | inr n ↦ rw n (taken (λ e. ground (arith, n, eq_iff given "", e)))
]

or_keep_outputs-Given :
    (given old : List ArtifactOutput) → GivenOutputs old given (or_keep_outputs given old)
or_keep_outputs-Given [] old = kept
or_keep_outputs-Given (o ∷ os) old = taken o os

module _ (now : ℕ) (o : TransitionOptions) (j : Job) where
  -- No edge of the table leads to lost or retrying.
  pub mutate-Written :
      (from to : JobStatus)
      → is_terminal from ≡ false
      → is_allowed from to ≡ true
      → Written now o j to (mutate to now o j)
  unfolding mutate
  mutate-Written from pending t a = moved_on (inl refl)
  mutate-Written from dispatching t a = sent_out (or_keep-Given o.node_id j.node_id)
  mutate-Written from running t a = moved_on (inr refl)
  mutate-Written from completed t a =
      succeeded (or_keep-Given o.err_msg j.error) (or_keep-Given o.runtime j.runtime)
        (or_keep_outputs-Given o.resolved_outputs j.resolved_outputs)
  mutate-Written from failed t a =
      broke (inl refl) (or_keep-Given o.err_msg j.error) (or_keep-Given o.runtime j.runtime)
  mutate-Written from timeout t a =
      broke (inr refl) (or_keep-Given o.err_msg j.error) (or_keep-Given o.runtime j.runtime)
  mutate-Written from unknown t a = (let bad : ⊥ = ground (arith, t, a) in elim bad [ ])
  mutate-Written from lost t a = (let bad : ⊥ = ground (arith, t, a) in elim bad [ ])
  mutate-Written from retrying t a = (let bad : ⊥ = ground (arith, t, a) in elim bad [ ])
  mutate-Written from scheduled t a = placed (or_keep-Given o.node_id j.node_id)
  mutate-Written from cancelled t a = stopped (inl refl) (or_keep-Given o.err_msg j.error)
  mutate-Written from skipped t a = stopped (inr refl) (or_keep-Given o.err_msg j.error)

pub outcome_events-Reported :
    (id : String) (j : Job) (to : JobStatus) → Reported id j to (outcome_events to id j)
unfolding outcome_events
outcome_events-Reported id j completed = completion
outcome_events-Reported id j failed = failure
outcome_events-Reported id j pending = silent (λ e. cc) (λ e. cc)
outcome_events-Reported id j dispatching = silent (λ e. cc) (λ e. cc)
outcome_events-Reported id j running = silent (λ e. cc) (λ e. cc)
outcome_events-Reported id j timeout = silent (λ e. cc) (λ e. cc)
outcome_events-Reported id j unknown = silent (λ e. cc) (λ e. cc)
outcome_events-Reported id j lost = silent (λ e. cc) (λ e. cc)
outcome_events-Reported id j retrying = silent (λ e. cc) (λ e. cc)
outcome_events-Reported id j scheduled = silent (λ e. cc) (λ e. cc)
outcome_events-Reported id j cancelled = silent (λ e. cc) (λ e. cc)
outcome_events-Reported id j skipped = silent (λ e. cc) (λ e. cc)
