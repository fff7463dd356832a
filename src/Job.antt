-- ===== src/Job.antt =====
-- The job record and its lifecycle status (internal/proto/coordinatorpb/types.go), and the
-- transition table (internal/cluster/job.go).
pub mod Retry
use helion_v.Prelude.{ℕ, String, Bool, true, false, ◌||◌, Option, List, [], ◌∷◌, Assoc, ◌==◌}
use helion_v.Authz.{Share}

-- `type JobStatus int32`; a number with no name is the zero value, unknown.
pub data JobStatus : Type 0 where
  unknown pending dispatching running completed failed : JobStatus
  timeout lost retrying scheduled cancelled skipped : JobStatus

-- The number of a status, by which Go compares two of them.
abbrev pub status_code : JobStatus → ℕ
status_code unknown = 0
status_code pending = 1
status_code dispatching = 2
status_code running = 3
status_code completed = 4
status_code failed = 5
status_code timeout = 6
status_code lost = 7
status_code retrying = 8
status_code scheduled = 9
status_code cancelled = 10
status_code skipped = 11

abbrev pub status_eq : JobStatus → JobStatus → Bool
status_eq s t = status_code s == status_code t

-- JobStatus.IsTerminal
abbrev pub is_terminal : JobStatus → Bool
is_terminal completed = true
is_terminal failed = true
is_terminal timeout = true
is_terminal lost = true
is_terminal cancelled = true
is_terminal skipped = true
is_terminal _ = false

-- JobStatus.String
abbrev pub status_name : JobStatus → String
status_name pending = "pending"
status_name dispatching = "dispatching"
status_name running = "running"
status_name completed = "completed"
status_name failed = "failed"
status_name timeout = "timeout"
status_name lost = "lost"
status_name retrying = "retrying"
status_name scheduled = "scheduled"
status_name cancelled = "cancelled"
status_name skipped = "skipped"
status_name unknown = "unknown"

-- `allowedTransitions`; a missing key reads as the empty list.
abbrev pub allowed_transitions : JobStatus → List JobStatus
allowed_transitions pending = scheduled ∷ dispatching ∷ cancelled ∷ skipped ∷ failed ∷ []
allowed_transitions scheduled = dispatching ∷ cancelled ∷ pending ∷ []
allowed_transitions dispatching = running ∷ failed ∷ []
allowed_transitions running = completed ∷ failed ∷ timeout ∷ cancelled ∷ []
allowed_transitions failed = retrying ∷ []
allowed_transitions timeout = retrying ∷ []
allowed_transitions retrying = pending ∷ []
allowed_transitions _ = []

-- The loop of `isAllowed`.
abbrev pub lists_status : List JobStatus → JobStatus → Bool
lists_status [] to = false
lists_status (allowed ∷ rest) to = status_eq allowed to || lists_status rest to

-- isAllowed
abbrev pub is_allowed : JobStatus → JobStatus → Bool
is_allowed from to = lists_status (allowed_transitions from) to

-- isRetryable
abbrev pub is_retryable : JobStatus → Bool
is_retryable s = status_eq s failed || status_eq s timeout

pub data BackoffStrategy : Type 0 where
  none linear exponential : BackoffStrategy

pub record RetryPolicy : Type 0 where
  pub max_attempts : ℕ  -- uint32
  pub backoff : BackoffStrategy
  pub initial_delay_ms : ℕ  -- uint32
  pub max_delay_ms : ℕ  -- uint32
  pub jitter : Bool

pub record ResourceRequest : Type 0 where
  pub cpu_millicores : ℕ  -- uint32
  pub memory_bytes : ℕ  -- uint64
  pub slots : ℕ  -- uint32
  pub gpus : ℕ  -- uint32

pub record ArtifactOutput : Type 0 where
  pub name : String
  pub uri : String
  pub size : ℕ  -- int64, as its bit pattern
  pub sha256 : String
  pub local_path : String

pub record ArtifactBinding : Type 0 where
  pub name : String
  pub uri : String
  pub from : String
  pub local_path : String
  pub sha256 : String

-- The fields of `Job` that are set by the submitter and that no operation of JobStore writes.
pub record JobSpec : Type 0 where
  pub command : String
  pub args : List String
  pub env : Assoc String
  pub timeout_seconds : ℕ  -- int64
  pub submitted_by : String
  pub owner_principal : String
  pub workflow_id : String
  pub resources : ResourceRequest
  pub retry_policy : Option RetryPolicy
  pub working_dir : String
  pub outputs : List ArtifactBinding
  pub node_selector : Assoc String
  pub secret_keys : List String

-- A time is its count of nanoseconds; 0 is the zero time.Time.
pub record Job : Type 0 where
  pub id : String
  pub spec : JobSpec
  pub node_id : String
  pub status : JobStatus
  pub created_at : ℕ
  pub dispatched_at : ℕ
  pub finished_at : ℕ
  pub exit_code : ℕ  -- int32, as its bit pattern
  pub error : String
  pub runtime : String
  pub priority : ℕ  -- uint32
  pub attempt : ℕ  -- uint32
  pub retry_after : ℕ
  pub inputs : List ArtifactBinding
  pub resolved_outputs : List ArtifactOutput
  pub shares : List Share
