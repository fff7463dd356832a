-- ===== src/Dispatch/Eligible.antt =====
-- buildEligibleSet and firstFromRef (internal/cluster/dispatch.go).
use helion_v.Prelude.{
  String, ◌&&◌, not, Option, none, some, List, [], ◌∷◌, ◌++◌, str_eq, if◌then◌else◌,
}
use helion_v.Job.{ArtifactBinding}
use helion_v.JobStore.{JobStore}
use helion_v.WorkflowStore.{WorkflowStore, running_workflow_ids, eligible_jobs}
use helion_v.Dag.{last_dot}

-- The two loops of buildEligibleSet.
unfoldable pub eligible_of : List String → WorkflowStore → JobStore → List String
unfolding eligible_jobs
eligible_of [] ws js = []
eligible_of (id ∷ ids) ws js = eligible_jobs id ws js ++ eligible_of ids ws js

-- buildEligibleSet: a nil map, where no workflow store is attached, has no member.
unfoldable pub build_eligible_set : Option WorkflowStore → JobStore → List String
unfolding eligible_of running_workflow_ids
build_eligible_set none js = []
build_eligible_set (some ws) js = eligible_of (running_workflow_ids ws) ws js

-- A reference cut at its last dot, where both parts are there.
abbrev ref_parts : String → Option (String × String) → String × String
ref_parts ref none = (ref, "")
ref_parts ref (some (upstream, output)) =
    if not (str_eq upstream "") && not (str_eq output "") then (upstream, output) else (ref, "")

-- firstFromRef
unfoldable pub first_from_ref : List ArtifactBinding → String × String
unfolding last_dot
first_from_ref [] = ("", "")
first_from_ref (b ∷ bs) =
    let later = first_from_ref bs in
    if str_eq b.from "" then later else ref_parts b.from (last_dot b.from)
