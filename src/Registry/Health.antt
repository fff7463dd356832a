-- ===== src/Registry/Health.antt =====
-- Heartbeats, staleness, reads and revocation (internal/cluster/registry_heartbeat.go,
-- internal/cluster/registry_read.go, internal/cluster/registry_revoke.go).
use helion_v.Prelude.{
  ℕ, ◌-◌, String, Bool, not, ◌||◌, Option, none, some, List, [], ◌∷◌, ◌++◌, Assoc, lookup, insert,
  delete, length, select, map, ltb, ◌==◌, if◌then◌else◌,
}
use helion_v.Node.{Node}
use helion_v.Registry.State.{
  Entry, Registry, RegistryError, not_registered, is_healthy, snapshot_of, persist_node,
}

pub record Heartbeat : Type 0 where
  pub node_id : String
  pub running_jobs : ℕ  -- int32, as its bit pattern
  pub cpu_millicores : ℕ  -- uint32
  pub total_memory_bytes : ℕ  -- uint64
  pub max_slots : ℕ  -- uint32
  pub total_gpus : ℕ  -- uint32

-- The atomic updates of an entry.
unfoldable pub beat : ℕ → Heartbeat → Entry → Entry
beat now msg e =
    let seen = record e { last_seen = now; running_jobs = msg.running_jobs } in
    if ltb 0 msg.cpu_millicores
      || ltb 0 msg.total_memory_bytes
      || ltb 0 msg.max_slots
      || ltb 0 msg.total_gpus
    then record seen {
      cpu_millicores = msg.cpu_millicores;
      total_mem_bytes = msg.total_memory_bytes;
      max_slots = msg.max_slots;
      total_gpus = msg.total_gpus;
    }
    else seen

-- HandleHeartbeat
unfoldable pub handle_heartbeat : ℕ → Heartbeat → Registry → Registry × Option RegistryError
unfolding beat snapshot_of lookup insert
handle_heartbeat now msg r = elim (lookup msg.node_id r.nodes) [
  | none ↦ (r, some not_registered)
  | some e ↦
      (let e' = beat now msg e in
        (
          persist_node (snapshot_of now r.stale_after e')
              (record r { nodes = insert msg.node_id e' r.nodes }),
          none,
        ))
]

-- RevokeNode
unfoldable pub revoke_node : String → Registry → Registry
unfolding delete
revoke_node id r = record r {
  revoked = id ∷ r.revoked;
  nodes = delete id r.nodes;
  pins = delete id r.pins;
  audit = r.audit ++ ("node.revoked", id) ∷ [];
}

unfoldable pub entries_of : Assoc Entry → List Entry
entries_of [] = []
entries_of ((key, e) ∷ rest) = e ∷ entries_of rest

-- Snapshot
unfoldable pub snapshot : ℕ → Registry → List Node
unfolding entries_of snapshot_of
snapshot now r = map (snapshot_of now r.stale_after) (entries_of r.nodes)

-- HealthyNodes
unfoldable pub healthy_nodes : ℕ → Registry → List Node
unfolding entries_of snapshot_of is_healthy
healthy_nodes now r =
    map (snapshot_of now r.stale_after) (select (is_healthy now r.stale_after) (entries_of r.nodes))

-- Lookup
unfoldable pub lookup_node : ℕ → String → Registry → Option Node
unfolding lookup snapshot_of
lookup_node now id r = elim (lookup id r.nodes) [
  | none ↦ none
  | some e ↦ some (snapshot_of now r.stale_after e)
]

-- Len, CountTotal
unfoldable pub count_nodes : Registry → ℕ
count_nodes r = length r.nodes

-- CountHealthy
unfoldable pub count_healthy : ℕ → Registry → ℕ
unfolding healthy_nodes
count_healthy now r = length (healthy_nodes now r)

-- `ls.IsZero() || now.Sub(ls) >= staleAfter`
unfoldable pub is_stale : (now stale_after : ℕ) → Entry → Bool
is_stale now stale_after e = e.last_seen == 0 || not (ltb (now - e.last_seen) stale_after)

-- The save and the audit record of a stale node.
unfoldable pub report_stale : ℕ → Entry → Registry → Registry
unfolding is_stale snapshot_of insert
report_stale now e r =
    if is_stale now r.stale_after e
    then record (persist_node (snapshot_of now r.stale_after e) r) {
      audit = r.audit ++ ("node.stale", e.node_id) ∷ [];
    }
    else r

-- The loop of PruneStaleNodes, with the ids that it collects.
unfoldable pub prune_each : ℕ → List Entry → Registry → Registry × List String
unfolding report_stale is_stale
prune_each now [] r = (r, [])
prune_each now (e ∷ es) r =
    let (r', ids) = prune_each now es (report_stale now e r) in
    (r', if is_stale now r.stale_after e then e.node_id ∷ ids else ids)

-- PruneStaleNodes
unfoldable pub prune_stale_nodes : ℕ → Registry → Registry × List String
unfolding prune_each entries_of
prune_stale_nodes now r = prune_each now (entries_of r.nodes) r

-- The entry of a persisted node: its id, its address and when it registered.
unfoldable pub restored_entry : Node → Entry
restored_entry n = record {
  node_id = n.node_id;
  registered_at = n.registered_at;
  labels = [];
  address = n.address;
  last_seen = 0;
  running_jobs = 0;
  cpu_millicores = 0;
  total_mem_bytes = 0;
  max_slots = 0;
  total_gpus = 0;
}

unfoldable pub restore_nodes : List Node → Assoc Entry → Assoc Entry
unfolding restored_entry insert
restore_nodes [] m = m
restore_nodes (n ∷ ns) m = restore_nodes ns (insert n.node_id (restored_entry n) m)

unfoldable pub saved_nodes : Assoc Node → List Node
saved_nodes [] = []
saved_nodes ((key, n) ∷ rest) = n ∷ saved_nodes rest

-- Restore, where LoadAllNodes succeeds.
unfoldable pub restore_registry : Registry → Registry
unfolding restore_nodes saved_nodes
restore_registry r = record r { nodes = restore_nodes (saved_nodes r.saved) r.nodes }
