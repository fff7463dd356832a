-- ===== src/Queue/Order.antt =====
-- The queue holds the pending jobs, sorted, and age decides in the end.
use mathlib.Core.List.{Perm}
use mathlib.Core.List.Perm
use helion_v.Prelude.{
  ℕ, ◌+◌, ◌*◌, ◌^◌, ◌≤◌, ◌<◌, Bool, true, false, List, [], ◌∷◌, All, ◌≡◌, inl, inr, arith,
  Bool-cases, select, ◌==◌,
}
use helion_v.Job.{Job, pending, status_eq}
use helion_v.JobStore.{JobStore, entries}
use helion_v.Queue.{
  minute, effective_priority, before, insert_by, sort_by, pending_jobs, pending_by_priority,
}

-- The job may stand in front of the other: its effective priority is higher, or the same and it
-- was not created later.
pub data MayPrecede (now : ℕ) (a b : Job) : Type 0 where
  more_urgent : effective_priority now b < effective_priority now a → MayPrecede now a b
  older :
      effective_priority now a ≡ effective_priority now b
      → a.created_at ≤ b.created_at
      → MayPrecede now a b

abbrev pub InOrder : ℕ → List Job → Type 0
InOrder now [] = Unit
InOrder now (x ∷ xs) = All (MayPrecede now x) xs × InOrder now xs

-- No job comes before one that should precede it, by the comparison.
abbrev pub IsSorted : (Job → Job → Bool) → List Job → Type 0
IsSorted less [] = Unit
IsSorted less (x ∷ xs) = All (λ y. less y x ≡ false) xs × IsSorted less xs

-- The order on effective priorities and creation times is total and transitive.
module _ (now : ℕ) where
  before_asym : (a b : Job) → before now a b ≡ true → before now b a ≡ false
  unfolding before
  before_asym a b h = ground arith

  before_trans :
      (a b c : Job) → before now b a ≡ false → before now c b ≡ false → before now c a ≡ false
  unfolding before
  before_trans a b c h k = ground arith

All-insert_by :
    (P : Job → Type 0) (less : Job → Job → Bool) (x : Job) (xs : List Job)
    → P x
    → All P xs
    → All P (insert_by less x xs)
All-insert_by P less x [] p ps = (p, tt)
All-insert_by P less x (y ∷ ys) p ps = elim (Bool-cases (less y x)) [
  | inl h ↦ rw h (ps.0, All-insert_by P less x ys p ps.1)
  | inr h ↦ rw h (p, ps)
]

All-impl : {P Q : Job → Type 0} (xs : List Job) → ((x : Job) → P x → Q x) → All P xs → All Q xs
All-impl [] f ps = tt
All-impl (x ∷ xs) f ps = (f x ps.0, All-impl xs f ps.1)

module _ (now : ℕ) where
  insert_by-IsSorted :
      (x : Job) (xs : List Job)
      → IsSorted (before now) xs
      → IsSorted (before now) (insert_by (before now) x xs)
  insert_by-IsSorted x [] h = (tt, tt)
  insert_by-IsSorted x (y ∷ ys) h = elim (Bool-cases (before now y x)) [
    | inl lt ↦ rw lt (
      All-insert_by (λ z. before now z y ≡ false) (before now) x ys (before_asym now y x lt) h.0,
      insert_by-IsSorted x ys h.1,
    )
    | inr ge ↦ rw ge ((ge, All-impl ys (λ z k. before_trans now x y z ge k) h.0), h)
  ]

  sort_by-IsSorted : (xs : List Job) → IsSorted (before now) (sort_by (before now) xs)
  sort_by-IsSorted [] = tt
  sort_by-IsSorted (x ∷ xs) = insert_by-IsSorted x _ (sort_by-IsSorted xs)

insert_by-perm :
    (less : Job → Job → Bool) (x : Job) (xs : List Job) → Perm (insert_by less x xs) (x ∷ xs)
insert_by-perm less x [] = Perm.refl (x ∷ [])
insert_by-perm less x (y ∷ ys) = elim (Bool-cases (less y x)) [
  | inl lt ↦ rw lt (Perm.trans (Perm.cons y (insert_by-perm less x ys)) (Perm.swap x y ys))
  | inr ge ↦ rw ge (Perm.refl (x ∷ y ∷ ys))
]

sort_by-perm : (less : Job → Job → Bool) (xs : List Job) → Perm (sort_by less xs) xs
sort_by-perm less [] = Perm.refl []
sort_by-perm less (x ∷ xs) =
    Perm.trans (insert_by-perm less x (sort_by less xs)) (Perm.cons x (sort_by-perm less xs))

before-MayPrecede : (now : ℕ) (a b : Job) → before now b a ≡ false → MayPrecede now a b
unfolding before
before-MayPrecede now a b h =
    elim (Bool-cases (effective_priority now b == effective_priority now a)) [
      | inl same ↦ older (ground (arith, same)) (ground (arith, h, same))
      | inr other ↦ more_urgent (ground (arith, h, other))
    ]

IsSorted-InOrder : (now : ℕ) (xs : List Job) → IsSorted (before now) xs → InOrder now xs
IsSorted-InOrder now [] h = tt
IsSorted-InOrder now (x ∷ xs) h =
    (All-impl xs (λ y k. before-MayPrecede now x y k) h.0, IsSorted-InOrder now xs h.1)

-- The queue is a rearrangement of the pending jobs of the store in which no job stands behind one
-- of a lower effective priority, or of the same priority and created later.
pub pending_by_priority_correct :
    (now : ℕ) (s : JobStore)
    → Perm (pending_by_priority now s) (select (λ j. status_eq j.status pending) (entries s.jobs))
      × InOrder now (pending_by_priority now s)
unfolding pending_by_priority
pending_by_priority_correct now s = (
  sort_by-perm (before now) (pending_jobs s),
  IsSorted-InOrder now (pending_by_priority now s) (sort_by-IsSorted now (pending_jobs s)),
)

effective_priority_cap : (now : ℕ) (j : Job) → effective_priority now j ≤ 100
unfolding effective_priority
effective_priority_cap now j = ground arith

effective_priority_aged :
    (now : ℕ) (a : Job)
    → a.priority ≤ 100
    → a.created_at + 100 * minute ≤ now
    → now < a.created_at + 2 ^ 31 * minute
    → effective_priority now a ≡ 100
unfolding effective_priority
effective_priority_aged now a p old range = ground arith

-- Starvation is bounded: a job of a priority of at most 100 that has waited 100 minutes, within
-- the range of uint32 minutes, precedes every job that was created later, whatever its priority.
pub aged-before-younger :
    (now : ℕ) (a b : Job)
    → a.priority ≤ 100
    → a.created_at + 100 * minute ≤ now
    → now < a.created_at + 2 ^ 31 * minute
    → a.created_at < b.created_at
    → before now a b ≡ true
unfolding before
aged-before-younger now a b p old range younger =
    ground (arith, effective_priority_cap now b, effective_priority_aged now a p old range)
