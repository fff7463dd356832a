-- ===== src/Tests/Running.antt =====
-- A tick of the dispatch loop, a recovery, and GPU claims.
use helion_v.Prelude.{
  ℕ, ◌+◌, ◌≤◌, ◌<◌, ◌^◌, String, Bool, true, false, none, some, List, [], ◌∷◌, In, here, there,
  length, ◌≡◌, ◌⊎◌, refl, subst, arith, ◌-◌, lookup, insert, delete, contains,
}
use helion_v.Job.{Job, pending, running}
use helion_v.JobStore.{JobStore, new_job_store, find_job, non_terminal}
use helion_v.Scheduler.{chosen}
use helion_v.Scheduler.LeastLoaded.{least_loaded, least_loaded_pick}
use helion_v.WorkflowStore.{WorkflowStore}
use helion_v.WorkflowStore.Starting.{with_ids}
use helion_v.Workflow.{running as running_flow}
use helion_v.Tests.Workflows.{flow, with_flow, pipeline}
use helion_v.Tests.Resolving.{reader, ready, uploaded}
use helion_v.Dispatch.{Loop, Send, Texts, dispatch_pending, place}
use helion_v.Dispatch.Placing.{PlaceOutcome, place_outcome}
use helion_v.Recovery.{Answer, accepted, refused, recover}
use helion_v.Recovery.Outcome.{IsSettled, recover_settles}
use helion_v.Gpu.{GpuAllocator, insufficient, picked, allocate, release}
use helion_v.Gpu.Claims.{IsGrant, allocate_correct, release-allocate}
use helion_v.Tests.Jobs.{job}
use helion_v.Tests.Scheduling.{cluster, n2}

abbrev store : List Bool → JobStore
store faults = record (new_job_store faults) {
  jobs = ("a", job "a" pending) ∷ ("b", job "b" running) ∷ [];
}

abbrev pub texts : Texts
texts = record { of_resolve = λ e. "unresolved"; of_store = λ e. "not saved" }

abbrev pub idle : List Bool → Loop least_loaded.State
idle faults = record { jobs = store faults; policy = tt; last_emit = []; sent = [] }

abbrev tick : List Bool → Loop least_loaded.State
tick faults = dispatch_pending least_loaded texts 5 cluster cluster none (idle faults)

tick_test :
    ((tick []).sent ≡ record { node = n2; job = job "a" pending } ∷ [])
    × ((tick (false ∷ true ∷ [])).sent ≡ [])
    × ((tick (false ∷ true ∷ [])).jobs.faults ≡ [])
unfolding dispatch_pending lookup insert delete contains least_loaded_pick
tick_test = (refl, refl, refl)

-- A workflow whose second job reads what the first has uploaded.
abbrev pipeline_flow : WorkflowStore
pipeline_flow = with_flow (flow (with_ids "w" pipeline) running_flow)

abbrev half_done : Loop least_loaded.State
half_done = record {
  jobs = record (new_job_store []) { jobs = ("w/train", reader) ∷ uploaded.jobs };
  policy = tt;
  last_emit = [];
  sent = [];
}

abbrev reading : Send
reading = record { node = n2; job = ready }

pipeline_test :
    (dispatch_pending least_loaded texts 5 cluster cluster (some pipeline_flow) half_done).sent
    ≡ reading ∷ []
unfolding dispatch_pending lookup insert delete contains least_loaded_pick
pipeline_test = refl

place_outcome_example :
    PlaceOutcome n2
      (job "a" pending)
      (job "a" pending)
      (idle (false ∷ true ∷ []))
      (place least_loaded texts 5 cluster cluster
        (job "a" pending)
        (idle (false ∷ true ∷ []))
        (chosen n2)).0
unfolding lookup
place_outcome_example =
    place_outcome least_loaded texts 5 cluster cluster n2 (job "a" pending) (job "a" pending)
      (idle (false ∷ true ∷ [])) refl refl

abbrev answers : String → Answer
answers id = accepted "n2"

kept : (j : Job) → In j (non_terminal (store [])) → (k : Job) × (find_job (store []) j.id ≡ some k)
unfolding non_terminal lookup
kept j (here e) =
    (job "a" pending, subst (λ z. lookup z.id (store []).jobs ≡ some (job "a" pending)) e refl)
kept j (there (here e)) =
    (job "b" running, subst (λ z. lookup z.id (store []).jobs ≡ some (job "b" running)) e refl)
kept j (there (there i)) = elim i [ ]

recover_settles_example :
    let c = recover 9 answers (λ id. false) false (λ s. s) (store []) in
    (c.lost ≡ 0)
    × (c.dispatched ≡ length (non_terminal (store [])))
    × ((j : Job) → In j (non_terminal (store [])) → IsSettled c.store j.id)
recover_settles_example = recover_settles 9 answers (λ s. s) (store []) refl kept

-- Where nobody takes the jobs, they are lost, and counted as dispatched.
recover_test :
    let c = recover 9 (λ id. refused "down") (λ id. false) false (λ s. s) (store []) in
    (c.dispatched ≡ 2) × (c.lost ≡ 0)
unfolding recover lookup insert
recover_test = (refl, refl)

abbrev gpus : GpuAllocator
gpus = record { total = 4; busy = (1, "a") ∷ [] }

gpu_test :
    ((allocate "b" 2 gpus).1 ≡ picked (0 ∷ 2 ∷ []))
    × ((allocate "b" 4 gpus).1 ≡ insufficient)
    × (release "b" (allocate "b" 2 gpus).0 ≡ gpus)
unfolding allocate release
gpu_test = (refl, refl, refl)

-- A request near 2^32 wraps around the test and takes what is there.
gpu_wrap_test : (allocate "b" (2 ^ 32 - 1) gpus).1 ≡ picked (0 ∷ 2 ∷ 3 ∷ [])
unfolding allocate
gpu_wrap_test = refl

allocate_correct_example :
    ((gpus.total < length gpus.busy + 2) × (allocate "b" 2 gpus ≡ (gpus, insufficient)))
    ⊎ ((length gpus.busy + 2 ≤ gpus.total)
        × ((a' : GpuAllocator) × (indices : List ℕ) × (allocate "b" 2 gpus ≡ (a', picked indices))
            × IsGrant "b" 2 gpus a' indices))
allocate_correct_example = allocate_correct "b" 2 gpus (omega arith) (omega arith)

release-allocate_example : release "b" (allocate "b" 2 gpus).0 ≡ release "b" gpus
release-allocate_example = release-allocate "b" 2 gpus
