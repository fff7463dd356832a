-- ===== src/Gpu/Claims.antt =====
-- What Allocate and Release guarantee (internal/runtime/gpu_alloc.go).
use helion_v.Prelude.{
  ℕ, zero, suc, ◌+◌, ◌-◌, ◌%◌, ◌^◌, ◌≤◌, ◌<◌, String, true, false, not, some, List, ◌∷◌, length,
  select, ltb, ◌==◌, str_eq, eq_iff, ◌≡◌, ◌⊎◌, inl, inr, refl, ap, ◌∙◌, arith, Bool-cases, In,
}
use helion_v.Gpu.{GpuAllocator, owner, claimed, pick_free, insufficient, picked, allocate, release}
use helion_v.Gpu.Loop.{IsAscending, enough_free, done, skips, takes, turn, pick_free-Picks}

-- Release takes away what the loop has put in.
module _ (job : String) where
  abbrev others : List (ℕ × String) → List (ℕ × String)
  others busy = select (λ entry. not (str_eq entry.1 job)) busy

  others-own : (idx : ℕ) (busy : List (ℕ × String)) → others ((idx, job) ∷ busy) ≡ others busy
  others-own idx busy = ground (arith, eq_iff job job)

  others-pick_free :
      (left idx need : ℕ) (busy : List (ℕ × String))
      → others (pick_free job left idx need busy).0 ≡ others busy
  unfolding pick_free
  others-pick_free zero idx need busy = refl
  others-pick_free (suc left) idx need busy =
      let skip = others-pick_free left (idx + 1) need busy in
      let take = others-pick_free left (idx + 1) (need - 1) ((idx, job) ∷ busy) in
      elim (turn job left idx need busy) [
        | done z q ↦ rw q refl
        | skips n c q ↦ rw q skip
        | takes n c q ↦ rw q (take ∙ others-own idx busy)
      ]

-- Releasing a job's devices behind an Allocate for it leaves the allocator as releasing them before
-- it would have: whatever Allocate has claimed, and however many, is free again.
pub release-allocate :
    (job : String) (n : ℕ) (a : GpuAllocator) → release job (allocate job n a).0 ≡ release job a
unfolding release allocate
release-allocate job n a = elim (Bool-cases (n == 0)) [
  | inl z ↦ rw (allocate, z) refl
  | inr m ↦ elim (Bool-cases (ltb a.total ((length a.busy % 2 ^ 32 + n) % 2 ^ 32))) [
    | inl over ↦ rw (allocate, m, over) refl
    | inr fits ↦
        rw (allocate, m, fits)
          (ap (λ b. record a { busy = b }) (others-pick_free job a.total 0 n a.busy))
  ]
]

-- A grant of n devices: n different indices below the total that were free, the lowest such, in
-- ascending order; they are the job's now, and every
-- other device is with whom it was.
pub record IsGrant (job : String) (n : ℕ) (a a' : GpuAllocator) (indices : List ℕ) : Type 0 where
  pub same_total : a'.total ≡ a.total
  pub as_many : length indices ≡ n
  pub ascending : IsAscending indices
  pub fresh : (i : ℕ) → In i indices → (i < a.total) × (claimed i a.busy ≡ false)
  pub owned : (i : ℕ) → In i indices → owner i a'.busy ≡ some job
  pub kept : (i : ℕ) → (In i indices → ⊥) → owner i a'.busy ≡ owner i a.busy
  pub lowest :
      (i : ℕ) → claimed i a.busy ≡ false → (In i indices → ⊥) → (k : ℕ) → In k indices → k < i

-- Where the claims and the request together stay below 2^32, Allocate of at least one device refuses and changes
-- nothing when they exceed the total, and otherwise grants the lowest free devices, as many different ones as were asked for.
pub allocate_correct :
    (job : String) (n : ℕ) (a : GpuAllocator)
    → 0 < n
    → length a.busy + n < 2 ^ 32
    → ((a.total < length a.busy + n) × (allocate job n a ≡ (a, insufficient)))
      ⊎ ((length a.busy + n ≤ a.total)
          × ((a' : GpuAllocator) × (indices : List ℕ) × (allocate job n a ≡ (a', picked indices))
              × IsGrant job n a a' indices))
unfolding allocate
allocate_correct job n a pos small =
    elim (Bool-cases (ltb a.total ((length a.busy % 2 ^ 32 + n) % 2 ^ 32))) [
      | inl over ↦ inl (exceeds over, rw (allocate, nonzero, over) refl)
      | inr fits ↦
          (let p = pick_free-Picks job a.total 0 n a.busy in
            inr (
              room fits,
              (
                _,
                _,
                rw (allocate, nonzero, fits) refl,
                record {
                  same_total = refl;
                  as_many = p.enough (omega (arith, room fits, enough_free a.total 0 a.busy));
                  ascending = p.ascending;
                  fresh = λ i m. (let (_, b, f) = p.fresh i m in (omega (arith, b), f));
                  owned = p.owned;
                  kept = p.kept;
                  lowest = λ i f m k h. p.lowest i (omega arith) f m k h;
                },
              ),
            ))
    ]
  where
    nonzero : (n == 0) ≡ false
    nonzero = ground (arith, pos)

    no_wrap : (length a.busy % 2 ^ 32 + n) % 2 ^ 32 ≡ length a.busy + n
    no_wrap = omega (arith, small)

    exceeds :
        ltb a.total ((length a.busy % 2 ^ 32 + n) % 2 ^ 32) ≡ true → a.total < length a.busy + n
    exceeds h = ground (arith, h, no_wrap)

    room : ltb a.total ((length a.busy % 2 ^ 32 + n) % 2 ^ 32) ≡ false → length a.busy + n ≤ a.total
    room h = ground (arith, h, no_wrap)
