-- ===== src/Dag/From.antt =====
-- validateFromReferences (internal/cluster/dag.go).
use mathlib.Core.List.{reverse}
use helion_v.Prelude.{
  ℕ, zero, suc, ◌+◌, String, Bool, true, false, Option, none, some, List, [], ◌∷◌, ◌++◌, Assoc,
  lookup, insert, length, contains, str_eq, if◌then◌else◌, not, ◌||◌,
}
use helion_v.Job.{ArtifactBinding}
use helion_v.Workflow.{DependencyCondition, on_success, WorkflowJob}
use helion_v.Dag.Errors.{
  DagError, unreachable_from, malformed_from, unknown_from, from_not_ancestor, from_unknown_output,
  out_of_fuel,
}
use helion_v.Dag.DotRef.{split_dot_ref}

-- byName, as the loop builds it.
unfoldable pub by_name : List WorkflowJob → Assoc WorkflowJob → Assoc WorkflowJob
by_name [] m = m
by_name (j ∷ js) m = by_name js (insert j.name j m)

abbrev pub deps_of : Assoc WorkflowJob → String → List String
deps_of m n = elim (lookup n m) [ none ↦ [] | some up ↦ up.depends_on ]

-- The loop of ancestorsOf. The top of the stack, the slice's end, is the list's head. `none`
-- means that the fuel ran out.
unfoldable pub walk : ℕ → Assoc WorkflowJob → List String → List String → Option (List String)
walk zero m seen stack = none
walk (suc fuel) m seen [] = some seen
walk (suc fuel) m seen (n ∷ stack) =
    let again = walk fuel m seen stack in
    let next = walk fuel m (n ∷ seen) (reverse (deps_of m n) ++ stack) in
    if contains n seen then again else next

unfoldable pub total_deps : List WorkflowJob → ℕ
total_deps [] = 0
total_deps (j ∷ js) = length j.depends_on + total_deps js

-- ancestorsOf
unfoldable pub ancestors : List WorkflowJob → String → Option (List String)
unfolding walk by_name total_deps
ancestors jobs target =
    let m = by_name jobs [] in
    let start = deps_of m target in walk (total_deps jobs + length start + 1) m [] (reverse start)

abbrev pub is_on_success : DependencyCondition → Bool
is_on_success on_success = true
is_on_success _ = false

unfoldable pub declares_output : String → List ArtifactBinding → Bool
declares_output name [] = false
declares_output name (out ∷ outs) = str_eq out.name name || declares_output name outs

-- The checks on the upstream job of a reference.
unfoldable pub check_upstream :
    List WorkflowJob → String → String → String → WorkflowJob → Option DagError
unfolding ancestors declares_output
check_upstream jobs target upstream output up = elim (ancestors jobs target) [
  | none ↦ some out_of_fuel
  | some seen ↦
      if not (contains upstream seen)
      then some from_not_ancestor
      else if not (declares_output output up.outputs)
      then some from_unknown_output
      else none
]

-- One input of a job.
unfoldable pub check_input : List WorkflowJob → WorkflowJob → ArtifactBinding → Option DagError
unfolding split_dot_ref by_name check_upstream
check_input jobs j i =
    let (upstream, output) = split_dot_ref i.from in
    if str_eq i.from ""
    then none
    else if not (is_on_success j.condition)
    then some unreachable_from
    else if str_eq upstream ""
    then some malformed_from
    else elim (lookup upstream (by_name jobs [])) [
      | none ↦ some unknown_from
      | some up ↦ check_upstream jobs j.name upstream output up
    ]

-- The first error of a loop that returns at the first one.
module _ {A : Type 0} (check : A → Option DagError) where
  unfoldable pub first_error : List A → Option DagError
  first_error [] = none
  first_error (x ∷ xs) =
      let rest = first_error xs in elim (check x) [ none ↦ rest | some e ↦ some e ]

-- validateFromReferences
unfoldable pub validate_from_references : List WorkflowJob → Option DagError
unfolding first_error check_input
validate_from_references jobs = first_error (λ j. first_error (check_input jobs j) j.inputs) jobs
