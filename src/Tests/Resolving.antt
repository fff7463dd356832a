-- ===== src/Tests/Resolving.antt =====
-- A job whose input refers to an upstream job.
use helion_v.Prelude.{[], ◌∷◌, ◌≡◌, refl, lookup}
use helion_v.Job.{Job, ArtifactOutput, completed, pending}
use helion_v.JobStore.{JobStore, new_job_store}
use helion_v.Resolve.{resolve_job_inputs}
use helion_v.Resolve.Sound.{AllMatch, resolve_job_inputs-AllMatch}
use helion_v.Tests.Jobs.{job, spec}
use helion_v.Tests.Workflows.{binding}

abbrev rows : ArtifactOutput
rows = record { name = "rows"; uri = "s3://x/rows"; size = 3; sha256 = "ab"; local_path = "rows" }

abbrev pub uploaded : JobStore
uploaded = record (new_job_store []) {
  jobs = ("w/prep", record (job "w/prep" completed) { resolved_outputs = rows ∷ [] }) ∷ [];
}

abbrev pub reader : Job
reader = record (job "w/train" pending) {
  spec = record spec { workflow_id = "w" };
  inputs = binding "data" "prep.rows" ∷ [];
}

abbrev pub ready : Job
ready = record reader {
  inputs = record (binding "data" "prep.rows") { uri = "s3://x/rows"; sha256 = "ab" } ∷ [];
}

resolve_job_inputs-AllMatch_example :
    (ready ≡ record reader { inputs = ready.inputs })
    × AllMatch "w" uploaded reader.inputs ready.inputs
unfolding resolve_job_inputs lookup
resolve_job_inputs-AllMatch_example = resolve_job_inputs-AllMatch reader ready uploaded refl
