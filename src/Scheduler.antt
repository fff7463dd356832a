-- ===== src/Scheduler.antt =====
-- Node selection (internal/cluster/scheduler.go): the filters, the policy interface, and the Pick
-- methods. HealthyNodes returns no nil entry, so a node list holds nodes.
pub mod Selection
pub mod LeastLoaded
pub mod RoundRobin
pub mod ResourceAware
use helion_v.Prelude.{
  ℕ, String, Bool, true, false, ◌&&◌, Option, none, some, List, [], ◌∷◌, Assoc, lookup, leb, ltb,
  str_eq, select, if◌then◌else◌, In, ◌≡◌, ◌≢◌,
}
use helion_v.Node.{Node}

-- `got, ok := n.Labels[k]; !ok || got != v`, turned over.
abbrev pub has_label : Option String → String → Bool
has_label none v = false
has_label (some got) v = str_eq got v

-- The loop of nodeMatchesSelector over the selector.
unfoldable pub node_matches_selector : Node → Assoc String → Bool
node_matches_selector n [] = true
node_matches_selector n ((k, v) ∷ rest) =
    has_label (lookup k n.labels) v && node_matches_selector n rest

-- filterByGPU
abbrev pub filter_by_gpu : ℕ → List Node → List Node
filter_by_gpu gpus_requested nodes = select (λ n. leb gpus_requested n.total_gpus) nodes

-- filterBySelector
abbrev pub filter_by_selector : Assoc String → List Node → List Node
filter_by_selector selector nodes = select (λ n. node_matches_selector n selector) nodes

-- The interface Policy: a policy keeps a state between calls, and `none` is nil.
pub record Policy : Type 1 where
  pub State : Type 0
  pub pick : State → List Node → State × Option Node

-- What the comment on Policy asks: Pick on nodes that are there returns one of them.
pub record IsPolicy (p : Policy) : Type 0 where
  pub picks :
      (s : p.State) (nodes : List Node)
      → nodes ≢ []
      → (n : Node) × ((p.pick s nodes).1 ≡ some n) × In n nodes

-- The answer of a Pick method: a node, ErrNoHealthyNodes or ErrNoNodeMatchesSelector.
pub data Picked : Type 0 where
  chosen : Node → Picked
  no_healthy_nodes no_node_matches_selector : Picked

unfoldable pub or_else : Option Node → Picked → Picked
or_else none e = e
or_else (some n) e = chosen n

-- The candidates of PickForJob: a filter runs where the job asks for something.
abbrev pub by_selector : Assoc String → List Node → List Node
by_selector [] nodes = nodes
by_selector (r ∷ rs) nodes = filter_by_selector (r ∷ rs) nodes

abbrev pub by_gpu : ℕ → List Node → List Node
by_gpu gpus nodes = if ltb 0 gpus then filter_by_gpu gpus nodes else nodes

module _ (p : Policy) where
  abbrev pub ask : Picked → p.State → List Node → p.State × Picked
  ask e s [] = (s, e)
  ask e s (n ∷ ns) = let (s', answer) = p.pick s (n ∷ ns) in (s', or_else answer e)

  -- Scheduler.Pick, on what the source answered.
  unfoldable pub pick : p.State → List Node → p.State × Picked
  unfolding or_else
  pick s healthy = ask no_healthy_nodes s healthy

  -- Scheduler.PickForJob
  unfoldable pub pick_for_job : Assoc String → ℕ → p.State → List Node → p.State × Picked
  unfolding or_else
  pick_for_job selector gpus s [] = (s, no_healthy_nodes)
  pick_for_job selector gpus s (n ∷ ns) =
      ask no_node_matches_selector s (by_gpu gpus (by_selector selector (n ∷ ns)))

  -- Scheduler.PickForSelector
  unfoldable pub pick_for_selector : Assoc String → p.State → List Node → p.State × Picked
  unfolding pick_for_job
  pick_for_selector selector = pick_for_job selector 0
