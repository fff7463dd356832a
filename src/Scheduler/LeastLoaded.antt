-- ===== src/Scheduler/LeastLoaded.antt =====
-- LeastLoadedPolicy (internal/cluster/policy.go).
use helion_v.Prelude.{
  ℕ, ◌≤◌, ◌<◌, Option, none, some, List, [], ◌∷◌, ◌++◌, All, In, here, there, if◌then◌else◌, ◌≡◌,
  ◌≢◌, refl, sym, ap, subst, inl, inr, Bool-cases, ltb→lt, not_ltb→le, lt_trans, lt_of_lt_of_le,
}
use helion_v.Node.{Node, signed_key, lt_int32}
use helion_v.Scheduler.{Policy, IsPolicy}

-- The loop over `nodes[1:]`.
unfoldable pub least_loaded_loop : Node → List Node → Node
least_loaded_loop best [] = best
least_loaded_loop best (n ∷ ns) =
    least_loaded_loop (if lt_int32 n.running_jobs best.running_jobs then n else best) ns

-- LeastLoadedPolicy.Pick
unfoldable pub least_loaded_pick : List Node → Option Node
unfolding least_loaded_loop
least_loaded_pick [] = none
least_loaded_pick (n ∷ ns) = some (least_loaded_loop n ns)

abbrev pub least_loaded : Policy
least_loaded = record { State = Unit; pick = λ s nodes. (s, least_loaded_pick nodes) }

abbrev pub load : Node → ℕ
load n = signed_key n.running_jobs

-- `b` is in `ns` with more load on every node before it, and no less on every node behind it.
abbrev pub IsFirstLeast : Node → List Node → Type 0
IsFirstLeast b ns =
    (before after : List Node) × (ns ≡ before ++ b ∷ after)
    × (All (λ m. load b < load m) before × All (λ m. load b ≤ load m) after)

-- What the loop returns from `best`: `best`, or the first least node of the list.
data LoopResult (best r : Node) (ns : List Node) : Type 0 where
  kept : r ≡ best → All (λ m. load r ≤ load m) ns → LoopResult best r ns
  found : load r < load best → IsFirstLeast r ns → LoopResult best r ns

takes_next :
    {best n r : Node} {ns : List Node}
    → load n < load best
    → LoopResult n r ns
    → LoopResult best r (n ∷ ns)
takes_next {best} {n} {r} {ns} less (kept same least) =
    found (rw same less) ([], ns, ap (λ t. t ∷ ns) (sym same), (tt, least))
takes_next {best} {n} less (found lower (before, after, split, (more, least))) =
    found (lt_trans lower less) (n ∷ before, after, ap (λ t. n ∷ t) split, ((lower, more), least))

passes_next :
    {best n r : Node} {ns : List Node}
    → load best ≤ load n
    → LoopResult best r ns
    → LoopResult best r (n ∷ ns)
passes_next not_less (kept same least) = kept same (rw same not_less, least)
passes_next {best} {n} not_less (found lower (before, after, split, (more, least))) =
    found lower
      (n ∷ before, after, ap (λ t. n ∷ t) split, ((lt_of_lt_of_le lower not_less, more), least))

loop_result : (best : Node) (ns : List Node) → LoopResult best (least_loaded_loop best ns) ns
unfolding least_loaded_loop
loop_result best [] = kept refl tt
loop_result best (n ∷ ns) = elim (Bool-cases (lt_int32 n.running_jobs best.running_jobs)) [
  | inl less ↦ rw less (takes_next (ltb→lt _ _ less) (loop_result n ns))
  | inr more ↦ rw more (passes_next (not_ltb→le _ _ more) (loop_result best ns))
]

from_loop : (n r : Node) (ns : List Node) → LoopResult n r ns → IsFirstLeast r (n ∷ ns)
from_loop n r ns (kept same least) = ([], ns, ap (λ t. t ∷ ns) (sym same), (tt, least))
from_loop n r ns (found lower (before, after, split, (more, least))) =
    (n ∷ before, after, ap (λ t. n ∷ t) split, ((lower, more), least))

-- On nodes that are there, the policy picks the first of those with the fewest running jobs.
pub least_loaded_pick-IsFirstLeast :
    (nodes : List Node)
    → nodes ≢ []
    → (b : Node) × (least_loaded_pick nodes ≡ some b) × IsFirstLeast b nodes
unfolding least_loaded_pick
least_loaded_pick-IsFirstLeast [] h = absurd (h refl)
least_loaded_pick-IsFirstLeast (n ∷ ns) h =
    (least_loaded_loop n ns, refl, from_loop n (least_loaded_loop n ns) ns (loop_result n ns))

In-middle : (b : Node) (before after : List Node) → In b (before ++ b ∷ after)
In-middle b [] after = here refl
In-middle b (n ∷ before) after = there (In-middle b before after)

pub least_loaded-IsPolicy : IsPolicy least_loaded
least_loaded-IsPolicy = record {
  picks = λ s nodes h.
      let (b, q, (before, after, split, _)) = least_loaded_pick-IsFirstLeast nodes h in
      (b, q, subst (λ ns. In b ns) (sym split) (In-middle b before after));
}
