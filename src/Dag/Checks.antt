-- ===== src/Dag/Checks.antt =====
-- ValidateDAG (internal/cluster/dag.go).
use helion_v.Prelude.{
  String, Option, none, some, List, [], ◌∷◌, map, contains, str_eq, if◌then◌else◌, not,
}
use helion_v.Workflow.{WorkflowJob}
use helion_v.Dag.Errors.{
  DagError, empty_name, duplicate_name, self_dep, unknown_dep, has_cycle, out_of_fuel,
}
use helion_v.Dag.Sort.{order, cycle, unfinished, topological_sort}
use helion_v.Dag.From.{first_error, validate_from_references}

abbrev pub job_names : List WorkflowJob → List String
job_names = map (λ j. j.name)

-- The first loop: `seen` are the names so far.
unfoldable pub check_names : List String → List WorkflowJob → Option DagError
check_names seen [] = none
check_names seen (j ∷ js) =
    let rest = check_names (j.name ∷ seen) js in
    if str_eq j.name ""
    then some empty_name
    else if contains j.name seen
    then some duplicate_name
    else rest

abbrev pub check_dep : List String → WorkflowJob → String → Option DagError
check_dep names j dep =
    if str_eq dep j.name
    then some self_dep
    else if not (contains dep names)
    then some unknown_dep
    else none

-- The second loop.
unfoldable pub check_deps : List String → List WorkflowJob → Option DagError
unfolding first_error
check_deps names jobs = first_error (λ j. first_error (check_dep names j) j.depends_on) jobs

unfoldable pub check_cycle : List WorkflowJob → Option DagError
unfolding topological_sort
check_cycle jobs = elim (topological_sort jobs) [
  | order _ ↦ none
  | cycle ↦ some has_cycle
  | unfinished ↦ some out_of_fuel
]

-- `if err := first; err != nil { return err }; second`
abbrev pub and_then : Option DagError → Option DagError → Option DagError
and_then none second = second
and_then (some e) second = some e

-- ValidateDAG. Its early return for no jobs is what the loops give.
unfoldable pub validate_dag : List WorkflowJob → Option DagError
unfolding check_names check_deps check_cycle validate_from_references
validate_dag [] = none
validate_dag (j ∷ js) =
    let jobs = j ∷ js in
    and_then (check_names [] jobs) (
      and_then (check_deps (job_names jobs) jobs)
        (and_then (check_cycle jobs) (validate_from_references jobs)))
