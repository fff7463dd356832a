-- ===== src/Dag/Reach.antt =====
-- Descendants and RootJobs (internal/cluster/dag.go).
use helion_v.Prelude.{
  ℕ, zero, suc, ◌+◌, String, Option, none, some, List, [], ◌∷◌, ◌++◌, Assoc, insert, contains,
  if◌then◌else◌,
}
use helion_v.Workflow.{WorkflowJob}
use helion_v.Dag.Sort.{children}
use helion_v.Dag.From.{total_deps}

unfoldable pub add_children : String → List String → Assoc (List String) → Assoc (List String)
unfolding children
add_children name [] down = down
add_children name (dep ∷ deps) down =
    add_children name deps (insert dep (children down dep ++ name ∷ []) down)

-- The adjacency list.
unfoldable pub downstream_of : List WorkflowJob → Assoc (List String) → Assoc (List String)
unfolding add_children
downstream_of [] down = down
downstream_of (j ∷ js) down = downstream_of js (add_children j.name j.depends_on down)

-- The loop over the children: the new result and queue. `visited` is true of the members of
-- `result`.
unfoldable pub discover : List String → List String → List String → List String × List String
discover [] result queue = (result, queue)
discover (child ∷ rest) result queue =
    let known = discover rest result queue in
    let new = discover rest (result ++ child ∷ []) (queue ++ child ∷ []) in
    if contains child result then known else new

-- The loop over the queue. `none` means that the fuel ran out.
unfoldable pub bfs : ℕ → Assoc (List String) → List String → List String → Option (List String)
unfolding children discover
bfs zero down queue result = none
bfs (suc fuel) down [] result = some result
bfs (suc fuel) down (curr ∷ queue) result =
    let (result', queue') = discover (children down curr) result queue in
    bfs fuel down queue' result'

-- Descendants
unfoldable pub descendants : List WorkflowJob → String → Option (List String)
unfolding downstream_of bfs total_deps
descendants jobs name = bfs (total_deps jobs + 2) (downstream_of jobs []) (name ∷ []) []

-- RootJobs
unfoldable pub root_jobs : List WorkflowJob → List String
root_jobs [] = []
root_jobs (j ∷ js) =
    let rest = root_jobs js in elim j.depends_on [ [] ↦ j.name ∷ rest | _ ∷ _ ↦ rest ]
