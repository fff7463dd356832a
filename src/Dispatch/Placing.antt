-- ===== src/Dispatch/Placing.antt =====
-- What happens to a job for which a node was chosen (internal/cluster/dispatch.go).
use helion_v.Prelude.{
  ℕ, true, false, none, some, List, [], ◌∷◌, ◌++◌, ◌≡◌, inl, inr, refl, ap, ◌∙◌, arith, Bool-cases,
  delete, str_eq,
}
use helion_v.Job.{Job, pending, dispatching, scheduled}
use helion_v.JobStore.{
  JobStore, StoreError, persist_failed, TransitionOptions, no_options, next_fault, later_faults,
  find_job, transition, mutate, or_keep,
}
use helion_v.JobStore.Durable.{status_of}
use helion_v.JobStore.Saves.{transition-Saved, transition_lost_save}
use helion_v.Node.{Node}
use helion_v.Scheduler.{Policy, chosen}
use helion_v.Dispatch.{Loop, Texts, hand_over, start_dispatch, place}

-- The three ways in which a chosen node can end, by the two saves.
pub data PlaceOutcome {State : Type 0} (n : Node) (job j : Job) (t t' : Loop State) : Type 0 where
  kept_waiting :
      next_fault t.jobs.faults ≡ true
      → t'.sent ≡ t.sent
      → status_of (find_job t'.jobs job.id) ≡ some pending
      → PlaceOutcome n job j t t'
  stranded :
      next_fault t.jobs.faults ≡ false
      → next_fault (later_faults t.jobs.faults) ≡ true
      → t'.sent ≡ t.sent
      → status_of (find_job t'.jobs job.id) ≡ some scheduled
      → PlaceOutcome n job j t t'
  handed_over :
      (k : Job)
      → next_fault t.jobs.faults ≡ false
      → next_fault (later_faults t.jobs.faults) ≡ false
      → t'.sent ≡ t.sent ++ record { node = n; job = job } ∷ []
      → find_job t'.jobs job.id ≡ some k
      → k.status ≡ dispatching
      → k.node_id ≡ or_keep n.node_id j.node_id
      → PlaceOutcome n job j t t'

module _ (p : Policy) (texts : Texts) (now : ℕ) (healthy snapshot : List Node) (n : Node)
    (job j : Job) (t : Loop p.State) (e : find_job t.jobs job.id ≡ some j)
    (waits : j.status ≡ pending) where
  abbrev opts : TransitionOptions
  opts = record no_options { node_id = n.node_id }

  abbrev cleared : Loop p.State
  cleared = record t { last_emit = delete job.id t.last_emit }

  abbrev Ends : Loop p.State → Type 0
  Ends t' = PlaceOutcome n job j t t'

  first_lost :
      (js : JobStore) (x : StoreError)
      → Ends (record cleared { jobs = js })
      → Ends (start_dispatch p texts now healthy snapshot n job cleared (js, some x))
  unfolding start_dispatch
  first_lost js x h = h

  first_saved :
      (js : JobStore)
      → Ends (
          hand_over p texts now healthy snapshot n job cleared
            (transition now job.id dispatching opts js))
      → Ends (start_dispatch p texts now healthy snapshot n job cleared (js, none))
  unfolding start_dispatch
  first_saved js h = h

  second_lost :
      (js : JobStore) (x : StoreError)
      → Ends (record cleared { jobs = js })
      → Ends (hand_over p texts now healthy snapshot n job cleared (js, some x))
  unfolding hand_over
  second_lost js x h = h

  second_saved :
      (js : JobStore)
      → Ends (record cleared { jobs = js; sent = t.sent ++ record { node = n; job = job } ∷ [] })
      → Ends (hand_over p texts now healthy snapshot n job cleared (js, none))
  unfolding hand_over
  second_saved js h = h

  abbrev mid : Job
  mid = mutate scheduled now opts j

  mid_status : mid.status ≡ scheduled
  unfolding mutate
  mid_status = refl

  end_status : (mutate dispatching now opts mid).status ≡ dispatching
  unfolding mutate
  end_status = refl

  node_kept : (mutate dispatching now opts mid).node_id ≡ or_keep n.node_id j.node_id
  unfolding mutate
  node_kept = ground (arith, str_eq n.node_id "")

  second_half :
      (js : JobStore)
      → find_job js job.id ≡ some mid
      → js.faults ≡ later_faults t.jobs.faults
      → next_fault t.jobs.faults ≡ false
      → Ends (
          hand_over p texts now healthy snapshot n job cleared
            (transition now job.id dispatching opts js))
  second_half js f lf w = elim (Bool-cases (next_fault (later_faults t.jobs.faults))) [
    | inl fails ↦
        (let (js', q, st) =
            transition_lost_save now job.id js mid f (rw mid_status refl) dispatching opts
              (rw mid_status refl) (rw lf fails) in
          rw q (second_lost js' persist_failed (stranded w fails refl (st ∙ ap some mid_status))))
    | inr works ↦
        (let (js', q, (found, _, _)) =
            transition-Saved now job.id js mid f (rw mid_status refl) dispatching opts
              (rw mid_status refl) (rw lf works) in
          rw q (
            second_saved js' (
              handed_over (mutate dispatching now opts mid) w works refl found end_status
                node_kept)))
  ]

  start_outcome : Ends (
      start_dispatch p texts now healthy snapshot n job cleared
        (transition now job.id scheduled opts t.jobs))
  start_outcome = elim (Bool-cases (next_fault t.jobs.faults)) [
    | inl fails ↦
        (let (js, q, st) =
            transition_lost_save now job.id t.jobs j e (rw waits refl) scheduled opts
              (rw waits refl) fails in
          rw q (first_lost js persist_failed (kept_waiting fails refl (st ∙ ap some waits))))
    | inr works ↦
        (let (js, q, (found, later, _)) =
            transition-Saved now job.id t.jobs j e (rw waits refl) scheduled opts (rw waits refl)
              works in
          rw q (first_saved js (second_half js found later works)))
  ]

  -- For a pending job that has been given a node, a tick either leaves it pending, as the first save failed; or
  -- leaves it scheduled, without a send, as the second save failed; or marks it dispatching on that node and sends it.
  pub place_outcome : PlaceOutcome n job j t (place p texts now healthy snapshot job t (chosen n)).0
  unfolding place
  place_outcome = start_outcome
