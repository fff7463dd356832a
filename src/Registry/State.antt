-- ===== src/Registry/State.antt =====
-- The state of the registry (internal/cluster/registry.go, internal/cluster/registry_node.go).
use helion_v.Prelude.{ℕ, ◌-◌, ◌*◌, String, Bool, not, ◌&&◌, List, [], Assoc, insert, ltb, ◌==◌}
use helion_v.Node.{Node}

-- nodeEntry; a last_seen of 0 is never.
pub record Entry : Type 0 where
  pub node_id : String
  pub registered_at : ℕ
  pub labels : Assoc String
  pub address : String
  pub last_seen : ℕ
  pub running_jobs : ℕ  -- int32, as its bit pattern
  pub cpu_millicores : ℕ  -- uint32
  pub total_mem_bytes : ℕ  -- uint64
  pub max_slots : ℕ  -- uint32
  pub total_gpus : ℕ  -- uint32

-- `saved` is what the persister holds, `pins` the map of the MemCertPinner.
pub record Registry : Type 0 where
  pub nodes : Assoc Entry
  pub revoked : List String
  pub pins : Assoc String
  pub saved : Assoc Node
  pub audit : List (String × String)
  pub stale_after : ℕ

-- NewRegistry, on what the persister holds.
unfoldable pub new_registry : (heartbeat_interval : ℕ) → Assoc Node → Registry
new_registry heartbeat_interval saved = record {
  nodes = [];
  revoked = [];
  pins = [];
  saved = saved;
  audit = [];
  stale_after = 2 * heartbeat_interval;
}

pub data RegistryError : Type 0 where
  invalid_node_id node_revoked not_verified fingerprint_mismatch not_registered : RegistryError

-- isHealthy
unfoldable pub is_healthy : (now stale_after : ℕ) → Entry → Bool
is_healthy now stale_after e = not (e.last_seen == 0) && ltb (now - e.last_seen) stale_after

-- snapshot
unfoldable pub snapshot_of : (now stale_after : ℕ) → Entry → Node
unfolding is_healthy
snapshot_of now stale_after e = record {
  node_id = e.node_id;
  address = e.address;
  healthy = is_healthy now stale_after e;
  last_seen = e.last_seen;
  running_jobs = e.running_jobs;
  registered_at = e.registered_at;
  cpu_millicores = e.cpu_millicores;
  total_mem_bytes = e.total_mem_bytes;
  max_slots = e.max_slots;
  total_gpus = e.total_gpus;
  labels = e.labels;
}

-- persistNodeAsync
abbrev pub persist_node : Node → Registry → Registry
persist_node n r = record r { saved = insert n.node_id n r.saved }
