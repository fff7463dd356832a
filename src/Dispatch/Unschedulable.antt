-- ===== src/Dispatch/Unschedulable.antt =====
-- classifyUnschedulable and maybeEmitUnschedulable (internal/cluster/dispatch.go).
use helion_v.Prelude.{
  ℕ, ◌-◌, String, Bool, false, Option, none, some, List, [], ◌∷◌, Assoc, lookup, insert, ltb,
  some_of, if◌then◌else◌,
}
use helion_v.Job.{Job}
use helion_v.JobStore.{JobStore, unschedulable, publish}
use helion_v.Node.{Node}
use helion_v.Scheduler.{node_matches_selector}

-- classifyUnschedulable
unfoldable pub classify_unschedulable : List Node → Assoc String → String
unfolding node_matches_selector
classify_unschedulable all_nodes [] = "no_matching_label"
classify_unschedulable all_nodes (r ∷ rs) =
    if some_of (λ n. node_matches_selector n (r ∷ rs)) all_nodes
    then "all_matching_unhealthy"
    else "no_matching_label"

-- unschedulableEmitCooldown, in nanoseconds
abbrev pub emit_cooldown : ℕ
emit_cooldown = 30000000000

-- `last, ok := ...; ok && now.Sub(last) < cooldown`
abbrev pub throttled : ℕ → Option ℕ → Bool
throttled now none = false
throttled now (some last) = ltb (now - last) emit_cooldown

-- maybeEmitUnschedulable, on the map of the last emits and the store.
unfoldable pub maybe_emit_unschedulable :
    ℕ → Job → (reason : String) → Assoc ℕ → JobStore → Assoc ℕ × JobStore
maybe_emit_unschedulable now job reason last_emit js =
    if throttled now (lookup job.id last_emit) then (last_emit, js) else (
      insert job.id now last_emit,
      publish (unschedulable job.id job.spec.node_selector reason ∷ []) js,
    )
