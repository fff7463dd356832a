-- ===== src/Dispatch/Passing.antt =====
-- What a tick may send, and how the turns of the loop keep it (internal/cluster/dispatch.go).
use helion_v.Prelude.{
  ℕ, ◌≤◌, String, false, Option, none, some, List, ◌≡◌, ◌⊎◌, inl, inr, refl, sym, subst, arith,
  Bool-cases, All, All-snoc, In, Assoc, delete, ◌∙◌,
}
use helion_v.Job.{Job, pending, scheduled}
use helion_v.JobStore.{JobStore, StoreError, transition, update_resolved_inputs, no_options}
use helion_v.Node.{Node}
use helion_v.Scheduler.{
  Policy, IsPolicy, Picked, chosen, no_healthy_nodes, no_node_matches_selector, pick_for_job,
}
use helion_v.Scheduler.Selection.{MayRun, pick_for_job_correct}
use helion_v.Resolve.{Resolution, resolved, has_any_from_ref}
use helion_v.Resolve.{failed as unresolved}
use helion_v.Resolve.Sound.{AllMatch}
use helion_v.Dispatch.{
  Loop, Send, Texts, hand_over, start_dispatch, place, schedule, with_saved, with_inputs,
}

-- A send comes from a stored job that waits, is due and is not blocked, changed in its inputs alone, and these are
-- what the upstream jobs had uploaded in the store at the start; and it goes to a healthy node that may run the job.
pub record IsSound (now : ℕ) (healthy : List Node) (eligible : List String) (stored : List Job)
    (start : JobStore) (send : Send) : Type 0 where
  pub source : Job
  pub known : In source stored
  pub waiting : source.status ≡ pending
  pub due : (source.retry_after ≡ 0) ⊎ (source.retry_after ≤ now)
  pub ready : (source.spec.workflow_id ≡ "") ⊎ In source.id eligible
  pub same : send.job ≡ record source { inputs = send.job.inputs }
  pub filled : AllMatch source.spec.workflow_id start source.inputs send.job.inputs
  pub available : In send.node healthy
  pub fits : MayRun send.job.spec.node_selector send.job.spec.resources.gpus send.node

pub chosen_cancel : {n m : Node} → chosen n ≡ chosen m → n ≡ m
chosen_cancel e = cc

module _ (p : Policy) (texts : Texts) (now : ℕ) (healthy snapshot : List Node) (law : IsPolicy p)
    (P : Send → Type 0) where
  pub hand_over-All :
      (n : Node) (job : Job) (t : Loop p.State) (r : JobStore × Option StoreError)
      → All P t.sent
      → P (record { node = n; job = job })
      → All P (hand_over p texts now healthy snapshot n job t r).sent
  unfolding hand_over
  hand_over-All n job t (js, some e) all h = all
  hand_over-All n job t (js, none) all h = All-snoc P _ t.sent all h

  pub start_dispatch-All :
      (n : Node) (job : Job) (t : Loop p.State) (r : JobStore × Option StoreError)
      → All P t.sent
      → P (record { node = n; job = job })
      → All P (start_dispatch p texts now healthy snapshot n job t r).sent
  unfolding start_dispatch
  start_dispatch-All n job t (js, some e) all h = all
  start_dispatch-All n job t (js, none) all h = hand_over-All n job t _ all h

  pub place-All :
      (job : Job) (t : Loop p.State) (answer : Picked)
      → All P t.sent
      → ((n : Node) → answer ≡ chosen n → P (record { node = n; job = job }))
      → All P (place p texts now healthy snapshot job t answer).0.sent
  unfolding place
  place-All job t no_node_matches_selector all h = all
  place-All job t no_healthy_nodes all h = all
  place-All job t (chosen n) all h =
      start_dispatch-All n job (record t { last_emit = delete job.id t.last_emit })
        (transition now job.id scheduled (record no_options { node_id = n.node_id }) t.jobs) all
        (h n refl)

  -- A node that was chosen is a healthy one that may run the job.
  pub chosen_fits :
      (selector : Assoc String) (gpus : ℕ) (s : p.State) (n : Node)
      → (pick_for_job p selector gpus s healthy).1 ≡ chosen n
      → In n healthy × MayRun selector gpus n
  chosen_fits selector gpus s n e = elim (pick_for_job_correct p law selector gpus s healthy) [
    | inl (_, q) ↦ (let bad : ⊥ = ground (arith, e, q) in elim bad [ ])
    | inr (_, inl (m, q, (i, fit))) ↦
        subst (λ z. In z healthy × MayRun selector gpus z) (chosen_cancel (sym q ∙ e)) (i, fit)
    | inr (_, inr (q, _)) ↦ (let bad : ⊥ = ground (arith, e, q) in elim bad [ ])
  ]

  -- What is sent for a job satisfies P where each fitting choice does.
  abbrev pub Fitting : Job → Type 0
  Fitting job =
      (n : Node)
      → In n healthy
      → MayRun job.spec.node_selector job.spec.resources.gpus n
      → P (record { node = n; job = job })

  pub schedule-All :
      (job : Job) (t : Loop p.State)
      → All P t.sent
      → Fitting job
      → All P (schedule p texts now healthy snapshot job t).0.sent
  unfolding schedule
  schedule-All job t all fit =
      place-All job _
        (pick_for_job p job.spec.node_selector job.spec.resources.gpus t.policy healthy).1 all
        (λ n e.
          (let (i, f) = chosen_fits job.spec.node_selector job.spec.resources.gpus t.policy n e in
            fit n i f))

  pub with_saved-All :
      (job rj : Job) (t : Loop p.State) (r : JobStore × Option StoreError)
      → All P t.sent
      → Fitting rj
      → All P (with_saved p texts now healthy snapshot job rj t r).0.sent
  unfolding with_saved
  with_saved-All job rj t (js, some e) all fit = all
  with_saved-All job rj t (js, none) all fit = schedule-All rj (record t { jobs = js }) all fit

  pub with_inputs-All :
      (job : Job) (t : Loop p.State) (r : Resolution Job)
      → All P t.sent
      → ((rj : Job) → r ≡ resolved rj → Fitting rj)
      → (has_any_from_ref job.inputs ≡ false → Fitting job)
      → All P (with_inputs p texts now healthy snapshot job t r).0.sent
  unfolding with_inputs
  with_inputs-All job t (unresolved e) all fit plain = all
  with_inputs-All job t (resolved rj) all fit plain =
      elim (Bool-cases (has_any_from_ref job.inputs)) [
        | inl refs ↦
            rw (with_inputs, refs)
              (with_saved-All job rj t (update_resolved_inputs job.id rj.inputs t.jobs) all
                (fit rj refl))
        | inr no_refs ↦ rw (with_inputs, no_refs) (schedule-All job t all (plain no_refs))
      ]
