-- ===== src/Job/Retry/Backoff.antt =====
-- What the backoff delay of a retry can be (internal/cluster/retry.go).
use helion_v.Prelude.{
  ℕ, ◌+◌, ◌-◌, ◌*◌, ◌/◌, ◌%◌, ◌^◌, ◌≤◌, ◌<◌, ◌≡◌, refl, Bool, true, false, some, inl, inr,
  Bool-cases, arith, leb, ltb, ltb→lt, if◌then◌else◌,
}
use native.Mathlib.Nat.{mod-eq_of_lt, pow-le-pow_right, one-le-pow}
use helion_v.Job.{BackoffStrategy, linear, exponential, RetryPolicy}
use helion_v.Job.Retry.{
  initial_delay, max_delay, base_delay, delay_cap, raw_delay, capped, add_jitter, policy_delay,
  next_retry_delay, shift_one, pred32, millisecond,
}

-- The cap, on a delay that is not negative.
capped_lem : (cap d : ℕ) → d < 2 ^ 63 → capped cap d ≡ (if leb d cap then d else cap)
unfolding capped
capped_lem cap d h = ground arith

-- Jitter adds at most a quarter.
draw_bound : (draw q : ℕ) → 0 < q → draw % q < q
draw_bound draw q h = omega arith

jitter_bounds :
    (jitter : Bool) (draw d : ℕ)
    → 4 ≤ d
    → d < 2 ^ 62
    → (d ≤ add_jitter jitter draw d) × (add_jitter jitter draw d ≤ d + d / 4)
unfolding add_jitter
jitter_bounds false draw d l h = ground arith
jitter_bounds true draw d l h = ground (arith, draw_bound draw (d / 4))

-- The fields of a policy are uint32.
pub record IsUint32 (p : RetryPolicy) : Type 0 where
  pub initial : p.initial_delay_ms < 2 ^ 32
  pub maximal : p.max_delay_ms < 2 ^ 32

-- The delay that a strategy means, in nanoseconds, as a number that cannot overflow.
abbrev pub ideal_delay : BackoffStrategy → ℕ → ℕ → ℕ
ideal_delay linear base attempt = base * attempt
ideal_delay exponential base attempt = base * 2 ^ (attempt - 1)
ideal_delay BackoffStrategy.none base attempt = base

abbrev pub ideal : RetryPolicy → ℕ → ℕ
ideal p attempt = ideal_delay p.backoff (initial_delay p * millisecond) attempt

-- The ideal delay under the cap.
abbrev pub bounded : RetryPolicy → ℕ → ℕ
bounded p attempt =
    if leb (ideal p attempt) (max_delay p * millisecond)
    then ideal p attempt
    else max_delay p * millisecond

-- An exponential delay that fits has shifted by less than 63.
shift_fits : (base k : ℕ) → 0 < base → base * 2 ^ k < 2 ^ 63 → k < 63
shift_fits base k p h = elim (Bool-cases (ltb k 63)) [
  | inl small ↦ ltb→lt k 63 small
  | inr large ↦
      absurd (grind (arith, pow-le-pow_right {n = 2} (omega arith) {i = 63} {j = k} (ground arith)))
]

shift_one_lem : (k : ℕ) → k < 63 → shift_one k ≡ 2 ^ k
unfolding shift_one
shift_one_lem k h = ground arith

raw_delay-ideal :
    (b : BackoffStrategy) (base attempt : ℕ)
    → 0 < base
    → 0 < attempt
    → attempt < 2 ^ 32
    → ideal_delay b base attempt < 2 ^ 63
    → raw_delay b base attempt ≡ ideal_delay b base attempt
unfolding raw_delay
raw_delay-ideal linear base attempt q p u h = mod-eq_of_lt (omega arith)
raw_delay-ideal exponential base attempt q p u h =
    let down : pred32 attempt ≡ attempt - 1 = omega arith in
    rw (down, shift_one_lem (attempt - 1) (shift_fits base (attempt - 1) q h))
      (mod-eq_of_lt (omega arith))
raw_delay-ideal BackoffStrategy.none base attempt q p u h = refl

-- A delay is not below the base.
base-le-ideal :
    (b : BackoffStrategy) (base attempt : ℕ) → 0 < attempt → base ≤ ideal_delay b base attempt
base-le-ideal linear base attempt p = grind arith
base-le-ideal exponential base attempt p = grind (arith, one-le-pow (attempt - 1) 2 (omega arith))
base-le-ideal BackoffStrategy.none base attempt p = omega arith

-- Neither product of a uint32 and a millisecond wraps.
delay_cap_lem : (p : RetryPolicy) → IsUint32 p → delay_cap p ≡ max_delay p * millisecond
delay_cap_lem p h = ground arith

base_delay_lem : (p : RetryPolicy) → IsUint32 p → base_delay p ≡ initial_delay p * millisecond
base_delay_lem p h = ground arith

capped_raw :
    (p : RetryPolicy) (attempt : ℕ)
    → IsUint32 p
    → 0 < attempt
    → attempt < 2 ^ 32
    → ideal p attempt < 2 ^ 63
    → capped (delay_cap p) (raw_delay p.backoff (base_delay p) attempt) ≡ bounded p attempt
capped_raw p attempt u a b h =
    rw
      (
        base_delay_lem p u,
        delay_cap_lem p u,
        raw_delay-ideal p.backoff (initial_delay p * millisecond) attempt (ground arith) a b h,
      )
      (capped_lem _ _ h)

bounded_range :
    (p : RetryPolicy) (attempt : ℕ)
    → IsUint32 p
    → 0 < attempt
    → (4 ≤ bounded p attempt) × (bounded p attempt < 2 ^ 62)
bounded_range p attempt u a =
    ground (arith, base-le-ideal p.backoff (initial_delay p * millisecond) attempt a)

-- For a policy with uint32 fields and an attempt that is not 0, where the strategy's delay fits an
-- int64 of nanoseconds, NextRetryDelay is at least the strategy's delay under the cap, and at
-- most a quarter above that; without jitter it is exactly that.
pub retry_delay_bounds :
    (p : RetryPolicy) (attempt draw : ℕ)
    → IsUint32 p
    → 0 < attempt
    → attempt < 2 ^ 32
    → ideal p attempt < 2 ^ 63
    → let d = next_retry_delay (some p) attempt draw in
      (bounded p attempt ≤ d)
      × (d ≤ bounded p attempt + bounded p attempt / 4)
      × (p.jitter ≡ false → d ≡ bounded p attempt)
unfolding next_retry_delay
retry_delay_bounds p attempt draw u a b h =
    let (four, room) = bounded_range p attempt u a in
    let (low, high) = jitter_bounds p.jitter draw (bounded p attempt) four room in
    rw (policy_delay, capped_raw p attempt u a b h) (low, high, λ calm. rw (add_jitter, calm) refl)

-- From the 65th attempt on, an exponential delay is 0: the shift count leaves the 64 bits.
pub exponential_vanishes :
    (p : RetryPolicy) (attempt draw : ℕ)
    → p.backoff ≡ exponential
    → 65 ≤ attempt
    → attempt < 2 ^ 32
    → next_retry_delay (some p) attempt draw ≡ 0
unfolding next_retry_delay
exponential_vanishes p attempt draw e l u = ground arith
