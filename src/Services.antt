-- ===== src/Services.antt =====
-- The readiness of service jobs (internal/cluster/service_registry.go).
pub mod Readiness
use helion_v.Prelude.{
  ℕ, String, Bool, Option, List, [], ◌∷◌, Assoc, lookup, insert, delete, length, ◌==◌, str_eq,
  if◌then◌else◌,
}

pub record ServiceEndpoint : Type 0 where
  pub job_id : String
  pub node_id : String
  pub node_address : String
  pub port : ℕ  -- uint32
  pub health_path : String
  pub ready : Bool
  pub updated_at : ℕ
  pub owner_principal : String

-- NewServiceRegistry
unfoldable pub new_service_registry : Assoc ServiceEndpoint
new_service_registry = []

-- Upsert
unfoldable pub upsert : ℕ → ServiceEndpoint → Assoc ServiceEndpoint → Assoc ServiceEndpoint
unfolding insert
upsert now e endpoints =
    if str_eq e.job_id ""
    then endpoints
    else insert e.job_id (record e { updated_at = if e.updated_at == 0 then now else e.updated_at })
        endpoints

-- Get
unfoldable pub get_endpoint : String → Assoc ServiceEndpoint → Option ServiceEndpoint
unfolding lookup
get_endpoint job_id endpoints = lookup job_id endpoints

-- Delete
unfoldable pub delete_endpoint : String → Assoc ServiceEndpoint → Assoc ServiceEndpoint
unfolding delete
delete_endpoint job_id endpoints = delete job_id endpoints

-- Count
unfoldable pub count_endpoints : Assoc ServiceEndpoint → ℕ
count_endpoints endpoints = length endpoints

unfoldable pub endpoints_of : Assoc ServiceEndpoint → List ServiceEndpoint
endpoints_of [] = []
endpoints_of ((key, e) ∷ rest) = e ∷ endpoints_of rest

-- Snapshot
unfoldable pub snapshot_endpoints : Assoc ServiceEndpoint → List ServiceEndpoint
unfolding endpoints_of
snapshot_endpoints endpoints = endpoints_of endpoints
