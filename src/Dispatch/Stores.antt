-- ===== src/Dispatch/Stores.antt =====
-- What the turns of a tick leave of the uploads in the job store (internal/cluster/dispatch.go).
use Prim.Native.String.{◌++◌ as ◌+++◌}
use helion_v.Prelude.{
  ℕ, String, Option, none, some, List, [], ◌∷◌, Assoc, inl, inr, delete, lookup, Bool-cases,
}
use helion_v.Job.{Job, failed, scheduled, dispatching}
use helion_v.JobStore.{
  JobStore, StoreError, transition, update_resolved_inputs, no_options, publish, ml_resolve_failed,
}
use helion_v.JobStore.Uploads.{NoneNew, NoneNew-transition, NoneNew-update}
use helion_v.Node.{Node}
use helion_v.Scheduler.{
  Policy, Picked, chosen, no_healthy_nodes, no_node_matches_selector, pick_for_job,
}
use helion_v.Resolve.{Resolution, resolved, has_any_from_ref, resolve_job_inputs}
use helion_v.Resolve.{failed as unresolved}
use helion_v.Dispatch.{
  Loop, Texts, hand_over, start_dispatch, place, schedule, with_saved, with_inputs, held_back, turn,
  maybe_emit_unschedulable, throttled, classify_unschedulable, first_from_ref, fail_with,
}

module _ (before : Assoc Job) where
  emit-NoneNew :
      (now : ℕ) (job : Job) (reason : String) (last_emit : Assoc ℕ) (js : JobStore)
      → NoneNew before js.jobs
      → NoneNew before (maybe_emit_unschedulable now job reason last_emit js).1.jobs
  unfolding maybe_emit_unschedulable
  emit-NoneNew now job reason last_emit js all =
      elim (Bool-cases (throttled now (lookup job.id last_emit))) [
        | inl y ↦ rw (maybe_emit_unschedulable, y) all
        | inr n ↦ rw (maybe_emit_unschedulable, n) all
      ]

  fail_with-NoneNew :
      (now : ℕ) (id text : String) (js : JobStore)
      → NoneNew before js.jobs
      → NoneNew before (fail_with now id text js).jobs
  fail_with-NoneNew now id text js all =
      NoneNew-transition before now id failed (record no_options { err_msg = text }) js (λ e. cc)
        all

  module _ (p : Policy) (texts : Texts) (now : ℕ) (healthy snapshot : List Node) where
    hand_over-NoneNew :
        (n : Node) (job : Job) (t : Loop p.State) (r : JobStore × Option StoreError)
        → NoneNew before r.0.jobs
        → NoneNew before (hand_over p texts now healthy snapshot n job t r).jobs.jobs
    unfolding hand_over
    hand_over-NoneNew n job t (js, some e) all = all
    hand_over-NoneNew n job t (js, none) all = all

    start_dispatch-NoneNew :
        (n : Node) (job : Job) (t : Loop p.State) (r : JobStore × Option StoreError)
        → NoneNew before r.0.jobs
        → NoneNew before (start_dispatch p texts now healthy snapshot n job t r).jobs.jobs
    unfolding start_dispatch
    start_dispatch-NoneNew n job t (js, some e) all = all
    start_dispatch-NoneNew n job t (js, none) all =
        let o = record no_options { node_id = n.node_id } in
        hand_over-NoneNew n job t (transition now job.id dispatching o js)
          (NoneNew-transition before now job.id dispatching o js (λ e. cc) all)

    place-NoneNew :
        (job : Job) (t : Loop p.State) (answer : Picked)
        → NoneNew before t.jobs.jobs
        → NoneNew before (place p texts now healthy snapshot job t answer).0.jobs.jobs
    unfolding place
    place-NoneNew job t no_node_matches_selector all =
        emit-NoneNew now job (classify_unschedulable snapshot job.spec.node_selector) t.last_emit
          t.jobs all
    place-NoneNew job t no_healthy_nodes all =
        emit-NoneNew now job "no_healthy_node" t.last_emit t.jobs all
    place-NoneNew job t (chosen n) all =
        let o = record no_options { node_id = n.node_id } in
        start_dispatch-NoneNew n job (record t { last_emit = delete job.id t.last_emit })
          (transition now job.id scheduled o t.jobs)
          (NoneNew-transition before now job.id scheduled o t.jobs (λ e. cc) all)

    schedule-NoneNew :
        (job : Job) (t : Loop p.State)
        → NoneNew before t.jobs.jobs
        → NoneNew before (schedule p texts now healthy snapshot job t).0.jobs.jobs
    unfolding schedule
    schedule-NoneNew job t all =
        let (s, answer) =
          pick_for_job p job.spec.node_selector job.spec.resources.gpus t.policy healthy in
        place-NoneNew job (record t { policy = s }) answer all

    with_saved-NoneNew :
        (job rj : Job) (t : Loop p.State) (r : JobStore × Option StoreError)
        → NoneNew before r.0.jobs
        → NoneNew before (with_saved p texts now healthy snapshot job rj t r).0.jobs.jobs
    unfolding with_saved
    with_saved-NoneNew job rj t (js, some e) all =
        fail_with-NoneNew now job.id ("persist resolved inputs: " +++ texts.of_store e) js all
    with_saved-NoneNew job rj t (js, none) all = schedule-NoneNew rj (record t { jobs = js }) all

    with_inputs-NoneNew :
        (job : Job) (t : Loop p.State) (r : Resolution Job)
        → NoneNew before t.jobs.jobs
        → NoneNew before (with_inputs p texts now healthy snapshot job t r).0.jobs.jobs
    unfolding with_inputs
    with_inputs-NoneNew job t (unresolved e) all =
        let (upstream, output_name) = first_from_ref job.inputs in
        let text = texts.of_resolve e in
        fail_with-NoneNew now job.id ("artifact resolution: " +++ text)
          (publish (ml_resolve_failed job.id job.spec.workflow_id upstream output_name text ∷ [])
            t.jobs)
          all
    with_inputs-NoneNew job t (resolved rj) all = elim (Bool-cases (has_any_from_ref job.inputs)) [
      | inl refs ↦
          rw (with_inputs, refs)
            (with_saved-NoneNew job rj t (update_resolved_inputs job.id rj.inputs t.jobs)
              (NoneNew-update before job.id rj.inputs t.jobs all))
      | inr no_refs ↦ rw (with_inputs, no_refs) (schedule-NoneNew job t all)
    ]

    pub turn-NoneNew :
        (eligible : List String) (job : Job) (t : Loop p.State)
        → NoneNew before t.jobs.jobs
        → NoneNew before (turn p texts now healthy snapshot eligible job t).0.jobs.jobs
    unfolding turn
    turn-NoneNew eligible job t all =
        elim (Bool-cases (held_back p texts now healthy snapshot eligible job)) [
          | inl held ↦ rw (turn, held) all
          | inr free ↦
              rw (turn, free) (with_inputs-NoneNew job t (resolve_job_inputs job t.jobs) all)
        ]
