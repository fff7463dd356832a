-- ===== src/Scheduler/ResourceAware.antt =====
-- ResourceAwarePolicy (internal/cluster/policy_resource.go).
use helion_v.Prelude.{
  ℕ, ◌+◌, ◌-◌, ◌*◌, ◌/◌, ◌%◌, ◌^◌, ◌≤◌, ◌<◌, Bool, true, not, ◌&&◌, Option, none, some, List, [],
  ◌∷◌, In, ltb, leb, ◌==◌, if◌then◌else◌, ◌≡◌, ◌≢◌, ◌⊎◌,
}
use helion_v.Node.{Node, int32_to_uint64}
use helion_v.Scheduler.{Policy}
use helion_v.Scheduler.LeastLoaded.{least_loaded_pick}

-- The two `continue` tests, turned over: the node reports a capacity and is not full.
unfoldable pub has_room : Node → Bool
has_room n =
    not (n.cpu_millicores == 0 && n.max_slots == 0)
    && not (ltb 0 n.max_slots && leb n.max_slots n.running_jobs)

abbrev pub slot_score : Node → ℕ
slot_score n =
    if ltb 0 n.max_slots && ltb n.running_jobs n.max_slots then n.max_slots - n.running_jobs else 0

-- DefaultResourceRequest().CpuMillicores is 100.
abbrev pub used_cpu : Node → ℕ
used_cpu n = int32_to_uint64 n.running_jobs * 100 % 2 ^ 64

abbrev pub cpu_score : Node → ℕ
cpu_score n = if ltb (used_cpu n) n.cpu_millicores then (n.cpu_millicores - used_cpu n) / 100 else 0

-- remainingScore
unfoldable pub remaining_score : Node → ℕ
remaining_score n = (slot_score n + cpu_score n) % 2 ^ 64

-- `best == nil || score < bestScore`; the best score is the score of the best node.
abbrev pub improves : Node → Option Node → Bool
improves n none = true
improves n (some b) = ltb (remaining_score n) (remaining_score b)

-- The loop over the nodes.
unfoldable pub best_fit_loop : Option Node → List Node → Option Node
best_fit_loop best [] = best
best_fit_loop best (n ∷ ns) =
    best_fit_loop (if has_room n && improves n best then some n else best) ns

abbrev pub or_fallback : Option Node → List Node → Option Node
or_fallback (some b) nodes = some b
or_fallback none nodes = least_loaded_pick nodes

-- ResourceAwarePolicy.Pick. Its fallback loop is that of LeastLoadedPolicy.
unfoldable pub resource_aware_pick : List Node → Option Node
unfolding best_fit_loop has_room remaining_score
resource_aware_pick [] = none
resource_aware_pick (n ∷ ns) = or_fallback (best_fit_loop none (n ∷ ns)) (n ∷ ns)

abbrev pub resource_aware : Policy
resource_aware = record { State = Unit; pick = λ s nodes. (s, resource_aware_pick nodes) }

-- What the loop chooses from: the best node so far, and the nodes ahead that have room.
abbrev IsCandidate : Option Node → List Node → Node → Type 0
IsCandidate best ns n = (best ≡ some n) ⊎ (In n ns × (has_room n ≡ true))

-- What it returns: nothing where there is no candidate, else a candidate of the least score.
data FitResult (best r : Option Node) (ns : List Node) : Type 0 where
  no_fit : r ≡ none → ((n : Node) → ¬ IsCandidate best ns n) → FitResult best r ns
  tightest :
      (b : Node)
      → r ≡ some b
      → IsCandidate best ns b
      → ((n : Node) → IsCandidate best ns n → remaining_score b ≤ remaining_score n)
      → FitResult best r ns

-- The node reports a capacity, and it has a free slot where it has a limit of slots.
pub record HasRoom (n : Node) : Type 0 where
  pub reports : (n.cpu_millicores ≢ 0) ⊎ (n.max_slots ≢ 0)
  pub free_slot : (n.max_slots ≡ 0) ⊎ (n.running_jobs < n.max_slots)

-- The free slots, and the free CPU in tenths of a core when each running job takes a tenth; nothing
-- is below zero.
abbrev pub remaining : Node → ℕ
remaining n = (n.max_slots - n.running_jobs) + (n.cpu_millicores - n.running_jobs * 100) / 100

-- The fields are within their machine types, and the count of the running jobs is not negative.
pub record InRange (n : Node) : Type 0 where
  pub running : n.running_jobs < 2 ^ 31
  pub slots : n.max_slots < 2 ^ 32
  pub cpu : n.cpu_millicores < 2 ^ 32
