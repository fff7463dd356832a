-- ===== src/Recovery/Steps.antt =====
-- What one call of recoverOne does (internal/cluster/recovery.go).
use Prim.Native.String.{◌++◌}
use helion_v.Prelude.{
  ℕ, String, false, Option, none, some, [], ◌≡◌, inl, inr, refl, ap, ◌∙◌, arith, Bool-cases,
  if◌then◌else◌,
}
use helion_v.Job.{Job, pending, dispatching, status_eq, is_terminal}
use helion_v.JobStore.{
  JobStore, StoreError, TransitionOptions, no_options, next_fault, later_faults, find_job, get,
  reset_to_pending, transition, mutate, lose,
}
use helion_v.JobStore.Saves.{OthersKept, transition-Saved, mark_lost-Saved, reset-Saved}
use helion_v.Recovery.{Answer, refused, accepted, recover_one, recover_current, redispatch}

-- Where a job ends that was not terminal, by the answer.
abbrev pub recovered_as : ℕ → Answer → Job → Job
recovered_as now (refused text) j = lose now ("crash recovery dispatch failed: " ++ text) j
recovered_as now (accepted node_id) j =
    mutate dispatching now (record no_options { node_id = node_id }) j

-- What one call of recoverOne does to the store.
pub record Recovers (id : String) (s s' : JobStore) (j' : Job) : Type 0 where
  pub found : find_job s' id ≡ some j'
  pub faults : s'.faults ≡ []
  pub others : OthersKept id s s'

pub redispatched :
    (now : ℕ) (id node_id : String) (s s' : JobStore)
    → transition now id dispatching (record no_options { node_id = node_id }) s ≡ (s', none)
    → redispatch now id node_id (s, none) ≡ (s', none)
unfolding redispatch
redispatched now id node_id s s' q = rw (redispatch, q) refl

-- The status before the move leaves no trace in the record.
pub same_move :
    (now : ℕ) (o : TransitionOptions) (j : Job)
    → mutate dispatching now o (record j { status = pending }) ≡ mutate dispatching now o j
unfolding mutate
same_move now o j = refl

module _ (now : ℕ) (id : String) (s : JobStore) (j : Job) (e : find_job s id ≡ some j)
    (safe : s.faults ≡ []) where
  pub saves : next_fault s.faults ≡ false
  saves = rw safe refl

  pub no_more : (s' : JobStore) → s'.faults ≡ later_faults s.faults → s'.faults ≡ []
  no_more s' q = q ∙ ap later_faults safe

  pub refused_saved :
      (text : String)
      → is_terminal j.status ≡ false
      → (s' : JobStore) × (recover_current now (refused text) id j s ≡ (s', none))
        × Recovers id s s' (recovered_as now (refused text) j)
  unfolding recover_current
  refused_saved text t =
      let (s', q, (found, later, others)) =
        mark_lost-Saved now id s j e t ("crash recovery dispatch failed: " ++ text) saves in
      rw (recover_current, q)
        (s', refl, record { found = found; faults = no_more s' later; others = others })

  pub after_reset :
      (node_id : String) (r : JobStore × Option StoreError)
      → (if status_eq j.status pending then (s, none) else reset_to_pending id s) ≡ r
      → recover_current now (accepted node_id) id j s ≡ redispatch now id node_id r
  unfolding recover_current
  after_reset node_id r q = ap (redispatch now id node_id) q

  pub accepted_pending :
      (node_id : String)
      → j.status ≡ pending
      → (s' : JobStore) × (recover_current now (accepted node_id) id j s ≡ (s', none))
        × Recovers id s s' (recovered_as now (accepted node_id) j)
  accepted_pending node_id waits =
      let (s', q, (found, later, others)) =
        transition-Saved now id s j e (rw waits refl) dispatching
          (record no_options { node_id = node_id }) (rw waits refl) saves in
      (
        s',
        after_reset node_id (s, none) (rw waits refl) ∙ redispatched now id node_id s s' q,
        record { found = found; faults = no_more s' later; others = others },
      )

  pub accepted_running :
      (node_id : String)
      → is_terminal j.status ≡ false
      → status_eq j.status pending ≡ false
      → (s' : JobStore) × (recover_current now (accepted node_id) id j s ≡ (s', none))
        × Recovers id s s' (recovered_as now (accepted node_id) j)
  accepted_running node_id t busy =
      let (m, r, (reset, one, kept)) = reset-Saved now id s j e t busy saves in
      let (s', q, (found, two, others)) =
        transition-Saved now id m (record j { status = pending }) reset refl dispatching
          (record no_options { node_id = node_id }) refl (ap next_fault (no_more m one)) in
      (
        s',
        after_reset node_id (m, none) (rw busy r) ∙ redispatched now id node_id m s' q,
        record {
          found = found ∙ ap some (same_move now (record no_options { node_id = node_id }) j);
          faults = two ∙ ap later_faults (no_more m one);
          others = λ k n. others k n ∙ kept k n;
        },
      )

  -- Whatever the dispatcher answers, a job that is not terminal is settled.
  pub recover_current_saved :
      (answer : Answer)
      → is_terminal j.status ≡ false
      → (s' : JobStore) × (recover_current now answer id j s ≡ (s', none))
        × Recovers id s s' (recovered_as now answer j)
  recover_current_saved (refused text) t = refused_saved text t
  recover_current_saved (accepted node_id) t = elim (Bool-cases (status_eq j.status pending)) [
    | inl waits ↦ accepted_pending node_id (ground (arith, waits))
    | inr busy ↦ accepted_running node_id t busy
  ]

  -- And so does recoverOne, which leaves a terminal job alone.
  pub recover_one_saved :
      (answer : Answer)
      → (s' : JobStore) × (recover_one now answer id s ≡ (s', none))
        × Recovers id s s' (if is_terminal j.status then j else recovered_as now answer j)
  unfolding recover_one get
  recover_one_saved answer = elim (Bool-cases (is_terminal j.status)) [
    | inl t ↦
        rw (recover_one, e, t) (s, refl, record { found = e; faults = safe; others = λ k n. refl })
    | inr t ↦
        (let (s', q, r) = recover_current_saved answer t in rw (recover_one, e, t, q) (s', refl, r))
  ]
