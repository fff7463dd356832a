-- ===== src/Node.antt =====
-- The coordinator's record of a worker node (internal/proto/coordinatorpb/types.go). The two
-- percentages are floats that no modelled operation reads, and are left out.
use helion_v.Prelude.{ℕ, ◌+◌, ◌-◌, ◌%◌, ◌^◌, String, Bool, Assoc, ltb, if◌then◌else◌}

pub record Node : Type 0 where
  pub node_id : String
  pub address : String
  pub healthy : Bool
  pub last_seen : ℕ
  pub running_jobs : ℕ  -- int32, as its bit pattern
  pub registered_at : ℕ
  pub cpu_millicores : ℕ  -- uint32
  pub total_mem_bytes : ℕ  -- uint64
  pub max_slots : ℕ  -- uint32
  pub total_gpus : ℕ  -- uint32
  pub labels : Assoc String

-- `a < b` on int32: the order of the bit patterns once the sign bit is turned over.
abbrev pub signed_key : ℕ → ℕ
signed_key bits = (bits + 2 ^ 31) % 2 ^ 32

abbrev pub lt_int32 : ℕ → ℕ → Bool
lt_int32 a b = ltb (signed_key a) (signed_key b)

-- `uint64(x)` of an int32 extends the sign.
abbrev pub int32_to_uint64 : ℕ → ℕ
int32_to_uint64 bits = if ltb bits (2 ^ 31) then bits else bits + (2 ^ 64 - 2 ^ 32)
