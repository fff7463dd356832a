-- ===== src/Resolve.antt =====
-- ResolveJobInputs (internal/cluster/workflow_resolve.go): the references of a job's inputs,
-- rewritten to what the upstream jobs have uploaded.
pub mod Sound
use Prim.Native.String.{◌++◌}
use helion_v.Prelude.{
  String, Bool, false, ◌||◌, not, Option, none, some, List, [], ◌∷◌, str_eq, if◌then◌else◌,
}
use helion_v.Job.{Job, ArtifactBinding, ArtifactOutput, completed, status_eq}
use helion_v.JobStore.{JobStore, get}
use helion_v.Dag.{split_dot_ref}

pub data ResolveError : Type 0 where
  from_not_workflow malformed upstream_missing upstream_not_completed output_missing : ResolveError

pub data Resolution (A : Type 0) : Type 0 where
  failed : ResolveError → Resolution A
  resolved : A → Resolution A

-- hasAnyFromRef
unfoldable pub has_any_from_ref : List ArtifactBinding → Bool
has_any_from_ref [] = false
has_any_from_ref (b ∷ bs) = not (str_eq b.from "") || has_any_from_ref bs

-- findResolvedOutput
unfoldable pub find_resolved_output : String → List ArtifactOutput → Option ArtifactOutput
find_resolved_output name [] = none
find_resolved_output name (o ∷ os) =
    let later = find_resolved_output name os in if str_eq o.name name then some o else later

abbrev pub take_output : ArtifactBinding → Option ArtifactOutput → Resolution ArtifactBinding
take_output b none = failed output_missing
take_output b (some found) = resolved (record b { uri = found.uri; sha256 = found.sha256 })

-- One input of the loop.
unfoldable pub resolve_input : String → JobStore → ArtifactBinding → Resolution ArtifactBinding
unfolding split_dot_ref get find_resolved_output
resolve_input workflow_id js b =
    let (upstream_name, output_name) = split_dot_ref b.from in
    if str_eq b.from ""
    then resolved b
    else if str_eq upstream_name ""
    then failed malformed
    else elim (get (workflow_id ++ ("/" ++ upstream_name)) js) [
      | none ↦ failed upstream_missing
      | some upstream ↦
          if status_eq upstream.status completed
          then take_output b (find_resolved_output output_name upstream.resolved_outputs)
          else failed upstream_not_completed
    ]

abbrev pub and_rest :
    Resolution ArtifactBinding
    → Resolution (List ArtifactBinding)
    → Resolution (List ArtifactBinding)
and_rest (failed e) rest = failed e
and_rest (resolved b) (failed e) = failed e
and_rest (resolved b) (resolved bs) = resolved (b ∷ bs)

-- The loop: it stops at the first error.
unfoldable pub resolve_inputs :
    String → JobStore → List ArtifactBinding → Resolution (List ArtifactBinding)
unfolding resolve_input
resolve_inputs workflow_id js [] = resolved []
resolve_inputs workflow_id js (b ∷ bs) =
    and_rest (resolve_input workflow_id js b) (resolve_inputs workflow_id js bs)

abbrev pub with_inputs : Job → Resolution (List ArtifactBinding) → Resolution Job
with_inputs j (failed e) = failed e
with_inputs j (resolved bs) = resolved (record j { inputs = bs })

-- ResolveJobInputs, for a job that is not nil.
unfoldable pub resolve_job_inputs : Job → JobStore → Resolution Job
unfolding has_any_from_ref resolve_inputs
resolve_job_inputs j js =
    if not (has_any_from_ref j.inputs)
    then resolved j
    else if str_eq j.spec.workflow_id ""
    then failed from_not_workflow
    else with_inputs j (resolve_inputs j.spec.workflow_id js j.inputs)
