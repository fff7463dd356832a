-- ===== src/Job/Retry.antt =====
-- Retry policy and backoff delay (internal/cluster/retry.go).
pub mod Backoff
use helion_v.Prelude.{
  ℕ, zero, suc, ◌+◌, ◌-◌, ◌*◌, ◌/◌, ◌%◌, ◌^◌, ◌≤◌, ◌<◌, ◌≡◌, refl, Bool, true, false, ◌&&◌, Option,
  some, none, arith, ltb, leb, ◌==◌, if◌then◌else◌,
}
use helion_v.Job.{BackoffStrategy, linear, exponential, RetryPolicy, JobSpec, Job}

-- The lines of `ShouldRetry` under the nil test.
abbrev pub attempts_left : Option RetryPolicy → ℕ → Bool
attempts_left none attempt = false
attempts_left (some p) attempt = ltb attempt p.max_attempts

-- ShouldRetry
unfoldable pub should_retry : Job → Bool
should_retry j = attempts_left j.spec.retry_policy j.attempt

-- A time.Duration is an int64: a number below 2 ^ 64 that is read as negative from 2 ^ 63 on.
abbrev pub wrap64 : ℕ → ℕ
wrap64 n = n % 2 ^ 64

-- `0 < d` for a time.Duration, and `a > b` for b ≥ 0.
abbrev pub is_positive : ℕ → Bool
is_positive d = ltb 0 d && ltb d (2 ^ 63)

abbrev pub exceeds : ℕ → ℕ → Bool
exceeds d cap = ltb cap d && ltb d (2 ^ 63)

abbrev pub millisecond : ℕ
millisecond = 1000000

-- `uint64(1) << k`: a count of 64 or more gives 0.
pub shift_one : ℕ → ℕ
shift_one k = if ltb k 64 then 2 ^ k else 0

-- `attempt - 1` on uint32.
abbrev pub pred32 : ℕ → ℕ
pred32 attempt = (attempt + 2 ^ 32 - 1) % 2 ^ 32

abbrev pub initial_delay : RetryPolicy → ℕ
initial_delay p = if p.initial_delay_ms == 0 then 1000 else p.initial_delay_ms

abbrev pub max_delay : RetryPolicy → ℕ
max_delay p = if p.max_delay_ms == 0 then 60000 else p.max_delay_ms

-- `time.Duration(initialDelay) * time.Millisecond`, and the cap likewise.
abbrev pub base_delay : RetryPolicy → ℕ
base_delay p = wrap64 (initial_delay p * millisecond)

abbrev pub delay_cap : RetryPolicy → ℕ
delay_cap p = wrap64 (max_delay p * millisecond)

-- The `switch` on the strategy.
pub raw_delay : BackoffStrategy → ℕ → ℕ → ℕ
raw_delay linear base attempt = wrap64 (base * attempt)
raw_delay exponential base attempt = wrap64 (base * shift_one (pred32 attempt))
raw_delay BackoffStrategy.none base attempt = base

-- `if delay > cap { delay = cap }`
pub capped : ℕ → ℕ → ℕ
capped cap delay = if exceeds delay cap then cap else delay

-- `rand.Int63n(int64(delay) / 4)` is below its argument; `draw` is the number drawn, reduced to
-- that range. `Int63n(0)` panics, which needs a delay below 4 ns.
pub add_jitter : Bool → ℕ → ℕ → ℕ
add_jitter jitter draw delay =
    if jitter && is_positive delay then wrap64 (delay + draw % (delay / 4)) else delay

-- NextRetryDelay, for a policy that is not nil.
pub policy_delay : RetryPolicy → ℕ → ℕ → ℕ
policy_delay p attempt draw =
    add_jitter p.jitter draw (capped (delay_cap p) (raw_delay p.backoff (base_delay p) attempt))

-- NextRetryDelay
unfoldable pub next_retry_delay : Option RetryPolicy → ℕ → ℕ → ℕ
unfolding policy_delay add_jitter capped raw_delay shift_one
next_retry_delay none attempt draw = 0
next_retry_delay (some p) attempt draw = policy_delay p attempt draw

-- DefaultRetryPolicy
abbrev pub default_retry_policy : RetryPolicy
default_retry_policy = record {
  max_attempts = 1;
  backoff = exponential;
  initial_delay_ms = 1000;
  max_delay_ms = 60000;
  jitter = true;
}
