-- ===== src/Registry/Revocation.antt =====
-- Revoked nodes and the jobs (internal/cluster/registry_revoke.go, internal/cluster/dispatch.go).
use helion_v.Prelude.{ℕ, ◌-◌, ◌<◌, String, Bool, false, List, [], ◌∷◌, All, In, contains, ◌≡◌, ◌≢◌}
use helion_v.Node.{Node}
use helion_v.WorkflowStore.{WorkflowStore}
use helion_v.Registry.{
  Entry, Registry, RegisterRequest, Heartbeat, is_revoked, register_check, register_insert,
  saved_nodes, restore_registry, handle_heartbeat, revoke_node, prune_stale_nodes,
}

-- Register is two steps, since it takes the lock behind its checks.
pub data RegistryOp : Type 0 where
  checking :
      (verify : String → Bool) → (fingerprint : String → String) → RegisterRequest → RegistryOp
  inserting : (now : ℕ) → RegisterRequest → RegistryOp
  restoring : RegistryOp
  beating : (now : ℕ) → Heartbeat → RegistryOp
  pruning : (now : ℕ) → RegistryOp
  revoking : (id : String) → RegistryOp

abbrev pub act : RegistryOp → Registry → Registry
act (checking verify fingerprint req) r = (register_check verify fingerprint req r).0
act (inserting now req) r = register_insert now req r
act restoring r = restore_registry r
act (beating now msg) r = (handle_heartbeat now msg r).0
act (pruning now) r = (prune_stale_nodes now r).0
act (revoking id) r = revoke_node id r

abbrev pub act_all : List RegistryOp → Registry → Registry
act_all [] r = r
act_all (op ∷ ops) r = act_all ops (act op r)

-- What brings a node in meets no node that has been revoked by then.
abbrev pub Admits : RegistryOp → Registry → Type 0
Admits (inserting now req) r = is_revoked req.node_id r ≡ false
Admits restoring r = (n : Node) → In n (saved_nodes r.saved) → is_revoked n.node_id r ≡ false
Admits _ r = Unit

abbrev pub AdmitsAll : List RegistryOp → Registry → Type 0
AdmitsAll [] r = Unit
AdmitsAll (op ∷ ops) r = Admits op r × AdmitsAll ops (act op r)

-- An entry stands under its own id, which is not revoked.
abbrev Clean : List String → String × Entry → Type 0
Clean revoked (key, e) = (e.node_id ≡ key) × (contains key revoked ≡ false)

abbrev IsClean : Registry → Type 0
IsClean r = All (Clean r.revoked) r.nodes

-- What a healthy node is to the registry: not revoked, and heard from in time.
pub record IsLive (now : ℕ) (r : Registry) (n : Node) : Type 0 where
  pub not_revoked : is_revoked n.node_id r ≡ false
  pub seen : n.last_seen ≢ 0
  pub recent : now - n.last_seen < r.stale_after
