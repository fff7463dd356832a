-- ===== src/Registry/Register.antt =====
-- Register (internal/cluster/registry_register.go), as two halves: the lock is taken behind the checks.
use helion_v.Prelude.{
  ℕ, String, Bool, not, Option, none, some, [], ◌∷◌, ◌++◌, Assoc, lookup, insert, contains, str_eq,
  if◌then◌else◌,
}
use helion_v.Registry.Labels.{valid_node_id, sanitise_node_labels}
use helion_v.Registry.State.{
  Entry, Registry, RegistryError, invalid_node_id, node_revoked, not_verified, fingerprint_mismatch,
  snapshot_of, persist_node,
}

pub record RegisterRequest : Type 0 where
  pub node_id : String
  pub address : String
  pub labels : Assoc String
  pub certificate : String

-- IsRevoked
unfoldable pub is_revoked : String → Registry → Bool
unfolding contains
is_revoked id r = contains id r.revoked

-- The check of the certificate: an error, or the map of the pins.
unfoldable pub check_pin :
    (fingerprint : String → String)
    → RegisterRequest
    → Assoc String
    → Option RegistryError × Assoc String
unfolding lookup insert
check_pin fingerprint req pins = elim (lookup req.node_id pins) [
  | none ↦ (none, insert req.node_id (fingerprint req.certificate) pins)
  | some stored ↦
      if str_eq stored (fingerprint req.certificate)
      then (none, pins)
      else (some fingerprint_mismatch, pins)
]

-- The first half of Register, up to the lock: the checks.
unfoldable pub register_check :
    (verify : String → Bool)
    → (fingerprint : String → String) → RegisterRequest
    → Registry
    → Registry × Option RegistryError
unfolding valid_node_id is_revoked check_pin
register_check verify fingerprint req r =
    if not (valid_node_id req.node_id)
    then (r, some invalid_node_id)
    else if is_revoked req.node_id r
    then (r, some node_revoked)
    else if str_eq req.certificate ""
    then (r, none)
    else if not (verify req.certificate)
    then (r, some not_verified)
    else (let (e, pins) = check_pin fingerprint req r.pins in (record r { pins = pins }, e))

-- The entry that Register leaves.
unfoldable pub registered_entry : ℕ → RegisterRequest → Option Entry → Entry
unfolding sanitise_node_labels
registered_entry now req none = record {
  node_id = req.node_id;
  registered_at = now;
  labels = sanitise_node_labels req.labels;
  address = req.address;
  last_seen = now;
  running_jobs = 0;
  cpu_millicores = 0;
  total_mem_bytes = 0;
  max_slots = 0;
  total_gpus = 0;
}
registered_entry now req (some e) = record e {
  address = req.address;
  labels = sanitise_node_labels req.labels;
  last_seen = now;
}

-- The second half: the entry, its save and the audit record.
unfoldable pub register_insert : ℕ → RegisterRequest → Registry → Registry
unfolding registered_entry snapshot_of lookup insert
register_insert now req r =
    let entry = registered_entry now req (lookup req.node_id r.nodes) in
    let stored = record r { nodes = insert req.node_id entry r.nodes } in
    record (persist_node (snapshot_of now r.stale_after entry) stored) {
      audit = r.audit ++ ("node.registered", req.node_id) ∷ [];
    }

-- Register with no other operation between its halves.
unfoldable pub register :
    (verify : String → Bool)
    → (fingerprint : String → String) → ℕ
    → RegisterRequest
    → Registry
    → Registry × Option RegistryError
unfolding register_check register_insert
register verify fingerprint now req r =
    let (r', e) = register_check verify fingerprint req r in
    elim e [ some x ↦ (r', some x) | none ↦ (register_insert now req r', none) ]
