-- ===== src/Services/Readiness.antt =====
-- What the service registry answers behind its changes (internal/cluster/service_registry.go).
use helion_v.Prelude.{
  ℕ, String, none, some, Assoc, lookup-insert, lookup-delete, str_eq, if◌then◌else◌, ◌==◌, ◌≡◌,
  refl, Bool-cases, inl, inr,
}
use helion_v.Services.{ServiceEndpoint, upsert, get_endpoint, delete_endpoint}

-- Get behind Upsert finds the new endpoint, stamped with the clock where it has no time, under its job, and what was
-- there under every other; an endpoint without a job changes nothing.
pub get_endpoint-upsert :
    (now : ℕ) (e : ServiceEndpoint) (job_id : String) (endpoints : Assoc ServiceEndpoint)
    → get_endpoint job_id (upsert now e endpoints) ≡ (
        if str_eq e.job_id ""
        then get_endpoint job_id endpoints
        else if str_eq e.job_id job_id
        then some (record e { updated_at = if e.updated_at == 0 then now else e.updated_at })
        else get_endpoint job_id endpoints)
unfolding get_endpoint upsert
get_endpoint-upsert now e job_id endpoints = elim (Bool-cases (str_eq e.job_id "")) [
  | inl blank ↦ rw (upsert, blank) refl
  | inr named ↦ rw (upsert, named) (lookup-insert e.job_id job_id _ endpoints)
]

-- Get behind Delete finds nothing under the job, and what was there under every other.
pub get_endpoint-delete_endpoint :
    (gone job_id : String) (endpoints : Assoc ServiceEndpoint)
    → get_endpoint job_id (delete_endpoint gone endpoints)
      ≡ (if str_eq gone job_id then none else get_endpoint job_id endpoints)
unfolding get_endpoint delete_endpoint
get_endpoint-delete_endpoint gone job_id endpoints = lookup-delete gone job_id endpoints
