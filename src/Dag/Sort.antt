-- ===== src/Dag/Sort.antt =====
-- TopologicalSort: Kahn's algorithm. A degree is an int, as its 64 bits.
use helion_v.Prelude.{
  ℕ, zero, suc, ◌+◌, ◌-◌, ◌%◌, ◌^◌, String, Option, none, some, List, [], ◌∷◌, ◌++◌, Assoc, lookup,
  insert, length, ◌==◌, if◌then◌else◌,
}
use helion_v.Workflow.{WorkflowJob}

-- A missing key reads as the zero value.
unfoldable pub degree : Assoc ℕ → String → ℕ
degree m k = elim (lookup k m) [ none ↦ 0 | some d ↦ d ]

unfoldable pub children : Assoc (List String) → String → List String
children m k = elim (lookup k m) [ none ↦ [] | some xs ↦ xs ]

pub record Graph : Type 0 where
  pub in_degree : Assoc ℕ
  pub downstream : Assoc (List String)

-- The loop over one job's dependencies.
unfoldable pub add_deps : String → List String → Graph → Graph
add_deps name [] g = g
add_deps name (dep ∷ deps) g = add_deps name deps (record {
  in_degree = insert name ((degree g.in_degree name + 1) % 2 ^ 64) g.in_degree;
  downstream = insert dep (children g.downstream dep ++ name ∷ []) g.downstream;
})

-- `if _, ok := inDegree[j.Name]; !ok { inDegree[j.Name] = 0 }`
abbrev pub declare : String → Graph → Graph
declare name g = elim (lookup name g.in_degree) [
  | none ↦ record g { in_degree = insert name 0 g.in_degree }
  | some _ ↦ g
]

unfoldable pub build_graph : List WorkflowJob → Graph → Graph
unfolding add_deps
build_graph [] g = g
build_graph (j ∷ js) g = build_graph js (add_deps j.name j.depends_on (declare j.name g))

abbrev pub empty_graph : Graph
empty_graph = record { in_degree = []; downstream = [] }

-- The seed of the queue.
unfoldable pub seed : List WorkflowJob → Assoc ℕ → List String
seed [] degrees = []
seed (j ∷ js) degrees =
    let rest = seed js degrees in if degree degrees j.name == 0 then j.name ∷ rest else rest

-- `inDegree[child]--`
abbrev pub decrement : ℕ → ℕ
decrement d = (d + (2 ^ 64 - 1)) % 2 ^ 64

-- The loop over the children of a name.
unfoldable pub visit : List String → Assoc ℕ → List String → Assoc ℕ × List String
visit [] degrees queue = (degrees, queue)
visit (child ∷ rest) degrees queue =
    let d = decrement (degree degrees child) in
    visit rest (insert child d degrees) (if d == 0 then queue ++ child ∷ [] else queue)

-- The loop over the queue. `none` means that the fuel ran out.
unfoldable pub drain :
    ℕ → Assoc (List String) → List String → Assoc ℕ → List String → Option (List String)
drain zero down queue degrees sorted = none
drain (suc fuel) down [] degrees sorted = some sorted
drain (suc fuel) down (name ∷ queue) degrees sorted =
    let (degrees', queue') = visit (children down name) degrees queue in
    drain fuel down queue' degrees' (sorted ++ name ∷ [])

pub data Sorted : Type 0 where
  order : List String → Sorted
  cycle : Sorted
  unfinished : Sorted

-- `if len(sorted) != len(jobs)`
abbrev pub check_complete : ℕ → Option (List String) → Sorted
check_complete n none = unfinished
check_complete n (some sorted) = if length sorted == n then order sorted else cycle

-- TopologicalSort
unfoldable pub topological_sort : List WorkflowJob → Sorted
unfolding build_graph seed drain visit degree children
topological_sort jobs =
    let g = build_graph jobs empty_graph in
    check_complete (length jobs)
      (drain (length jobs + 1) g.downstream (seed jobs g.in_degree) g.in_degree [])
