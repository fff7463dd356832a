-- ===== src/Dispatch/Turn.antt =====
-- dispatchPending and sendToNode (internal/cluster/dispatch.go).
use Prim.Native.String.{◌++◌ as ◌+++◌}
use helion_v.Prelude.{
  ℕ, String, Bool, true, false, not, ◌&&◌, ◌||◌, Option, none, some, List, [], ◌∷◌, ◌++◌, Assoc,
  delete, contains, ltb, ◌==◌, str_eq, if◌then◌else◌,
}
use helion_v.Job.{Job, ArtifactBinding, failed, scheduled, dispatching}
use helion_v.JobStore.{
  JobStore, StoreError, no_options, Event, ml_resolve_failed, artifact_downloaded, publish,
  transition, update_resolved_inputs,
}
use helion_v.Node.{Node}
use helion_v.Scheduler.{
  Policy, Picked, chosen, no_healthy_nodes, no_node_matches_selector, pick_for_job,
}
use helion_v.Queue.{pending_by_priority}
use helion_v.Resolve.{ResolveError, Resolution, resolved, has_any_from_ref, resolve_job_inputs}
use helion_v.Resolve.{failed as unresolved}
use helion_v.WorkflowStore.{WorkflowStore}
use helion_v.Dispatch.Eligible.{build_eligible_set, first_from_ref}
use helion_v.Dispatch.Unschedulable.{classify_unschedulable, maybe_emit_unschedulable}

-- A job that a tick has handed to a goroutine, with the node.
pub record Send : Type 0 where
  pub node : Node
  pub job : Job

-- What a tick changes: the store, the policy's state, the map of the last emits, and the sends.
pub record Loop (State : Type 0) : Type 0 where
  pub jobs : JobStore
  pub policy : State
  pub last_emit : Assoc ℕ
  pub sent : List Send

-- The texts of the errors.
pub record Texts : Type 0 where
  pub of_resolve : ResolveError → String
  pub of_store : StoreError → String

abbrev pub fail_with : ℕ → String → String → JobStore → JobStore
fail_with now id text js = (transition now id failed (record no_options { err_msg = text }) js).0

module _ (p : Policy) (texts : Texts) (now : ℕ) (healthy snapshot : List Node) where
  -- Behind the second transition.
  unfoldable pub hand_over : Node → Job → Loop p.State → JobStore × Option StoreError → Loop p.State
  hand_over n job t (js, some e) = record t { jobs = js }
  hand_over n job t (js, none) = record t {
    jobs = js;
    sent = t.sent ++ record { node = n; job = job } ∷ [];
  }

  -- Behind the first transition.
  unfoldable pub start_dispatch :
      Node → Job → Loop p.State → JobStore × Option StoreError → Loop p.State
  unfolding hand_over transition
  start_dispatch n job t (js, some e) = record t { jobs = js }
  start_dispatch n job t (js, none) =
      hand_over n job t
        (transition now job.id dispatching (record no_options { node_id = n.node_id }) js)

  abbrev pub emit : Job → String → Loop p.State → Loop p.State
  emit job reason t =
      let (last_emit, js) = maybe_emit_unschedulable now job reason t.last_emit t.jobs in
      record t { last_emit = last_emit; jobs = js }

  -- What follows PickForJob; the Boolean is false where the tick ends.
  unfoldable pub place : Job → Loop p.State → Picked → Loop p.State × Bool
  unfolding maybe_emit_unschedulable classify_unschedulable start_dispatch transition
  place job t no_node_matches_selector =
      (emit job (classify_unschedulable snapshot job.spec.node_selector) t, true)
  place job t no_healthy_nodes = (emit job "no_healthy_node" t, false)
  place job t (chosen n) = (
    start_dispatch n job (record t { last_emit = delete job.id t.last_emit })
        (transition now job.id scheduled (record no_options { node_id = n.node_id }) t.jobs),
    true,
  )

  -- PickForJob and what follows it.
  unfoldable pub schedule : Job → Loop p.State → Loop p.State × Bool
  unfolding place pick_for_job
  schedule job t =
      let (s, answer) =
        pick_for_job p job.spec.node_selector job.spec.resources.gpus t.policy healthy in
      place job (record t { policy = s }) answer

  -- Behind UpdateResolvedInputs.
  unfoldable pub with_saved :
      (job resolved_job : Job) → Loop p.State → JobStore × Option StoreError → Loop p.State × Bool
  unfolding schedule transition
  with_saved job resolved_job t (js, some e) = (
    record t { jobs = fail_with now job.id ("persist resolved inputs: " +++ texts.of_store e) js },
    true,
  )
  with_saved job resolved_job t (js, none) = schedule resolved_job (record t { jobs = js })

  -- Behind ResolveJobInputs. It returns its argument itself where no input refers to a job.
  unfoldable pub with_inputs : Job → Loop p.State → Resolution Job → Loop p.State × Bool
  unfolding first_from_ref transition has_any_from_ref update_resolved_inputs with_saved schedule
  with_inputs job t (unresolved e) =
      let (upstream, output_name) = first_from_ref job.inputs in
      let text = texts.of_resolve e in
      (
        record t {
          jobs = fail_with now job.id ("artifact resolution: " +++ text) (
              publish (ml_resolve_failed job.id job.spec.workflow_id upstream output_name text ∷ [])
                t.jobs);
        },
        true,
      )
  with_inputs job t (resolved resolved_job) =
      if has_any_from_ref job.inputs
      then with_saved job resolved_job t (update_resolved_inputs job.id resolved_job.inputs t.jobs)
      else schedule job t

  -- The two guards in front.
  unfoldable pub held_back : List String → Job → Bool
  unfolding contains
  held_back eligible job =
      (not (job.retry_after == 0) && ltb now job.retry_after)
      || (not (str_eq job.spec.workflow_id "") && not (contains job.id eligible))

  -- One job of the loop.
  unfoldable pub turn : List String → Job → Loop p.State → Loop p.State × Bool
  unfolding held_back resolve_job_inputs with_inputs
  turn eligible job t =
      if held_back eligible job
      then (t, true)
      else with_inputs job t (resolve_job_inputs job t.jobs)

  unfoldable pub turns : List String → List Job → Loop p.State → Loop p.State
  unfolding turn
  turns eligible [] t = t
  turns eligible (job ∷ jobs) t =
      let (t', goes_on) = turn eligible job t in
      elim goes_on [ true ↦ turns eligible jobs t' | false ↦ t' ]

  -- dispatchPending
  unfoldable pub dispatch_pending : Option WorkflowStore → Loop p.State → Loop p.State
  unfolding build_eligible_set pending_by_priority turns
  dispatch_pending workflows t =
      turns (build_eligible_set workflows t.jobs) (pending_by_priority now t.jobs) t

-- The events of the inputs that have a URI.
unfoldable pub downloads : String → List ArtifactBinding → List Event
downloads id [] = []
downloads id (b ∷ bs) =
    let rest = downloads id bs in
    if str_eq b.uri "" then rest else artifact_downloaded id b.uri ∷ rest

-- sendToNode; `answer` is the error of DispatchToNode.
unfoldable pub send_to_node : ℕ → Job → (answer : Option String) → JobStore → JobStore
unfolding downloads transition
send_to_node now job (some text) js = fail_with now job.id ("dispatch failed: " +++ text) js
send_to_node now job none js = publish (downloads job.id job.inputs) js
