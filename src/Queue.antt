-- ===== src/Queue.antt =====
-- The dispatch order (internal/cluster/priority.go). The clock is read once: the source reads it at
-- each comparison.
pub mod Order
use helion_v.Prelude.{
  ℕ, ◌+◌, ◌-◌, ◌/◌, ◌%◌, ◌^◌, Bool, List, [], ◌∷◌, ltb, ◌==◌, if◌then◌else◌, select,
}
use helion_v.Job.{Job, pending, status_eq}
use helion_v.JobStore.{JobStore, entries}

abbrev pub minute : ℕ
minute = 60000000000

-- `uint32(age.Minutes())`. A job from after the clock has age 0 here; Go leaves the conversion of a
-- negative float open.
abbrev pub boost : ℕ → Job → ℕ
boost now j = (now - j.created_at) / minute % 2 ^ 32

-- EffectivePriority
unfoldable pub effective_priority : ℕ → Job → ℕ
effective_priority now j =
    let base = if j.priority == 0 then 50 else j.priority in
    let eff = (base + boost now j) % 2 ^ 32 in if ltb 100 eff then 100 else eff

-- The comparison of PendingByPriority.
unfoldable pub before : ℕ → Job → Job → Bool
before now a b =
    let pa = effective_priority now a in
    let pb = effective_priority now b in
    if pa == pb then ltb a.created_at b.created_at else ltb pb pa

-- sort.Slice leaves open how equal elements lie; this is one way.
abbrev pub insert_by : (Job → Job → Bool) → Job → List Job → List Job
insert_by less x [] = x ∷ []
insert_by less x (y ∷ ys) =
    let rest = insert_by less x ys in if less y x then y ∷ rest else x ∷ y ∷ ys

abbrev pub sort_by : (Job → Job → Bool) → List Job → List Job
sort_by less [] = []
sort_by less (x ∷ xs) = insert_by less x (sort_by less xs)

-- The jobs that PendingByPriority collects.
abbrev pub pending_jobs : JobStore → List Job
pending_jobs s = select (λ j. status_eq j.status pending) (entries s.jobs)

-- PendingByPriority
unfoldable pub pending_by_priority : ℕ → JobStore → List Job
pending_by_priority now s = sort_by (before now) (pending_jobs s)
