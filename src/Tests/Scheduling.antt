-- ===== src/Tests/Scheduling.antt =====
-- Three nodes, and picks among them.
use helion_v.Prelude.{
  ℕ, ◌<◌, ◌*◌, true, String, some, List, [], ◌∷◌, Assoc, In, get_elem?, ◌≡◌, ◌≢◌, ◌⊎◌, refl, arith,
  lookup, insert,
}
use mathlib.Core.List.{cons≢nil}
use helion_v.Job.{Job, pending, failed}
use helion_v.Node.{Node}
use helion_v.Scheduler.{chosen, no_healthy_nodes, no_node_matches_selector, pick_for_job}
use helion_v.Scheduler.Selection.{MayRun, pick_for_job_correct}
use helion_v.Scheduler.LeastLoaded.{
  least_loaded, least_loaded-IsPolicy, least_loaded_pick, IsFirstLeast,
  least_loaded_pick-IsFirstLeast,
}
use helion_v.Scheduler.ResourceAware.{resource_aware_pick}
use helion_v.Scheduler.RoundRobin.{round_robin_pick, candidate_set_key, nth_pick, round_robin_fair}
use helion_v.Queue.{minute, before, pending_by_priority, effective_priority}
use helion_v.Queue.{pending_jobs}
use helion_v.Queue.Order.{aged-before-younger, InOrder, pending_by_priority_correct}
use mathlib.Core.List.{Perm}
use helion_v.JobStore.{JobStore, new_job_store}
use helion_v.Tests.Jobs.{job}

abbrev node : String → ℕ → ℕ → ℕ → Assoc String → Node
node id running slots gpus labels = record {
  node_id = id;
  address = id;
  healthy = true;
  last_seen = 0;
  running_jobs = running;
  registered_at = 0;
  cpu_millicores = 0;
  total_mem_bytes = 0;
  max_slots = slots;
  total_gpus = gpus;
  labels = labels;
}

abbrev n1 : Node
n1 = node "n1" 3 4 0 []

abbrev pub n2 : Node
n2 = node "n2" 1 4 2 (("zone", "eu") ∷ [])

abbrev n3 : Node
n3 = node "n3" 1 1 0 []

abbrev pub cluster : List Node
cluster = n1 ∷ n2 ∷ n3 ∷ []

least_loaded_test : least_loaded_pick cluster ≡ some n2
unfolding least_loaded_pick
least_loaded_test = refl

-- A running-jobs count of -1 is less than 1.
negative_load_test :
    least_loaded_pick (n2 ∷ node "n4" 4294967295 0 0 [] ∷ []) ≡ some (node "n4" 4294967295 0 0 [])
unfolding least_loaded_pick
negative_load_test = refl

resource_aware_test : resource_aware_pick cluster ≡ some n1
unfolding resource_aware_pick
resource_aware_test = refl

rotation_test :
    (nth_pick 0 [] cluster ≡ some n1)
    × (nth_pick 1 [] cluster ≡ some n2)
    × (nth_pick 2 [] cluster ≡ some n3)
    × (nth_pick 3 [] cluster ≡ some n1)
unfolding round_robin_pick candidate_set_key lookup insert
rotation_test = (refl, refl, refl, refl)

key_test : candidate_set_key (n2 ∷ n1 ∷ []) ≡ "n1|n2"
unfolding candidate_set_key
key_test = refl

pick_for_job_correct_example :
    let answer = (pick_for_job least_loaded (("zone", "eu") ∷ []) 1 tt cluster).1 in
    ((cluster ≡ []) × (answer ≡ no_healthy_nodes))
    ⊎ ((cluster ≢ [])
        × (((n : Node) × (answer ≡ chosen n) × (In n cluster × MayRun (("zone", "eu") ∷ []) 1 n))
            ⊎ ((answer ≡ no_node_matches_selector)
                × ((n : Node) → In n cluster → ¬ MayRun (("zone", "eu") ∷ []) 1 n))))
pick_for_job_correct_example =
    pick_for_job_correct least_loaded least_loaded-IsPolicy (("zone", "eu") ∷ []) 1 tt cluster

least_loaded_pick-IsFirstLeast_example :
    (b : Node) × (least_loaded_pick cluster ≡ some b) × IsFirstLeast b cluster
least_loaded_pick-IsFirstLeast_example = least_loaded_pick-IsFirstLeast cluster cons≢nil

round_robin_fair_example :
    (t : ℕ) × ((t < 3)
      × (nth_pick t [] cluster ≡ get_elem? cluster 2)
      × ((u : ℕ)
          → u < 3
          → u ≢ t
          → (j : ℕ) × (j < 3) × (j ≢ 2) × (nth_pick u [] cluster ≡ get_elem? cluster j)))
unfolding lookup
round_robin_fair_example = round_robin_fair [] n1 (n2 ∷ n3 ∷ []) (omega arith) 2 (omega arith)

-- A job of the default priority, from 100 minutes before another of priority 100.
abbrev old_job : Job
old_job = record (job "old" pending) { priority = 1; created_at = 0 }

abbrev new_job : Job
new_job = record (job "new" pending) { priority = 100; created_at = 1 }

aged-before-younger_example : before (100 * minute) old_job new_job ≡ true
aged-before-younger_example =
    aged-before-younger (100 * minute) old_job new_job (omega arith) (omega arith) (omega arith)
      (omega arith)

young_test : before 10 new_job old_job ≡ true
unfolding before effective_priority
young_test = refl

-- Two pending jobs and a failed one.
abbrev backlog : JobStore
backlog = record (new_job_store []) {
  jobs = ("old", old_job) ∷ ("f", job "f" failed) ∷ ("new", new_job) ∷ [];
}

queue_test : pending_by_priority 10 backlog ≡ new_job ∷ old_job ∷ []
unfolding pending_by_priority before effective_priority
queue_test = refl

pending_by_priority_correct_example :
    Perm (pending_by_priority 10 backlog) (pending_jobs backlog)
    × InOrder 10 (pending_by_priority 10 backlog)
pending_by_priority_correct_example = pending_by_priority_correct 10 backlog
