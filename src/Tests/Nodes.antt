-- ===== src/Tests/Nodes.antt =====
-- A registry with one node, and a tick over it.
use helion_v.Prelude.{
  true, false, none, some, List, [], ◌∷◌, lookup, insert, delete, contains, ◌≡◌, refl,
}
use helion_v.Node.{Node}
use helion_v.Registry.{
  Registry, RegisterRequest, Heartbeat, new_registry, register, register_check, register_insert,
  revoke_node, is_revoked, handle_heartbeat, restore_registry, count_healthy, valid_node_id,
  sanitise_node_labels, node_revoked, not_registered, snapshot_of, registered_entry,
  prune_stale_nodes,
}
use helion_v.Registry.Revocation.{RegistryOp, checking, inserting, act_all}

abbrev request : RegisterRequest
request = record {
  node_id = "gpu-1";
  address = "10.0.0.1:80";
  labels = ("zone", "eu") ∷ ("a=b", "x") ∷ [];
  certificate = "cert";
}

abbrev ops : List RegistryOp
ops = checking (λ c. true) (λ c. c) request ∷ inserting 4 request ∷ []

abbrev one_node : Registry
one_node = act_all ops (new_registry 10 [])

abbrev gpu_1 : Node
gpu_1 = snapshot_of 5 20 (registered_entry 4 request none)

abbrev message : Heartbeat
message = record {
  node_id = "gpu-1";
  running_jobs = 0;
  cpu_millicores = 0;
  total_memory_bytes = 0;
  max_slots = 0;
  total_gpus = 1;
}

registry_test :
    (count_healthy 5 one_node ≡ 1)
    × (count_healthy 24 one_node ≡ 0)
    × ((prune_stale_nodes 24 one_node).1 ≡ "gpu-1" ∷ [])
    × (sanitise_node_labels request.labels ≡ ("zone", "eu") ∷ [])
    × ((register (λ c. true) (λ c. c) 6 request (revoke_node "gpu-1" one_node)).1
        ≡ some node_revoked)
    × ((handle_heartbeat 6 message (revoke_node "gpu-1" one_node)).1 ≡ some not_registered)
    × (valid_node_id "-x" ≡ false)
unfolding register register_check register_insert count_healthy prune_stale_nodes revoke_node
    handle_heartbeat valid_node_id sanitise_node_labels lookup insert delete contains new_registry
registry_test = (refl, refl, refl, refl, refl, refl, refl)

-- A revocation between the halves of Register: the revoked node stands in the registry again.
race_test :
    let r =
      register_insert 5 request (
        revoke_node "gpu-1" (register_check (λ c. true) (λ c. c) request (new_registry 10 [])).0) in
    (is_revoked "gpu-1" r ≡ true) × (count_healthy 5 r ≡ 1)
unfolding register_check register_insert revoke_node is_revoked count_healthy lookup insert delete
    contains new_registry
race_test = (refl, refl)

-- A restart forgets the revocation: a heartbeat makes the node healthy, without its labels.
restart_test :
    let r =
      (handle_heartbeat 9 message
        (restore_registry (new_registry 10 (revoke_node "gpu-1" one_node).saved))).0 in
    (is_revoked "gpu-1" r ≡ false) × (count_healthy 9 r ≡ 1)
unfolding restore_registry handle_heartbeat revoke_node register_check register_insert is_revoked
    count_healthy lookup insert delete contains new_registry
restart_test = (refl, refl)
