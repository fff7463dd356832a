-- ===== src/Authz/Grounds.antt =====
-- The grounds on which an action is permitted (internal/authz/authz.go).
use Prim.Native.String.{◌++◌}
use helion_v.Prelude.{
  String, true, ◌||◌, some, ◌≡◌, ◌≢◌, ◌⊎◌, inl, inr, arith, str_eq, eq_iff, Bool-cases,
  Option-cases, In, contains-In, In-contains, strip_prefix, strip_prefix_sound, strip_prefix-append,
}
use helion_v.Principal.{Principal}
use helion_v.Authz.{Share, Resource, service_allowed, matches_grantee}

-- A human identity: a logged-in user or the holder of an operator certificate.
pub data IsPerson (p : Principal) : Type 0 where
  is_user : p.kind ≡ "user" → IsPerson p
  is_operator : p.kind ≡ "operator" → IsPerson p

-- A share names the principal by its id, or by a group that it is in.
pub data Reaches (p : Principal) (sh : Share) : Type 0 where
  by_id : sh.grantee ≡ p.id → sh.grantee ≢ "" → Reaches p sh
  by_group : {name : String} → sh.grantee ≡ "group:" ++ name → In name p.groups → Reaches p sh

-- Neither a system resource nor one whose owner is not known.
pub record IsOrdinary (res : Resource) : Type 0 where
  pub not_system : res.kind ≢ "system"
  pub not_legacy : res.owner_principal ≢ "legacy:"

pub data Permits (p : Principal) (action : String) (res : Resource) : Type 0 where
  as_admin : IsPerson p → p.role ≡ "admin" → Permits p action res
  as_service :
      p.kind ≡ "service"
      → IsOrdinary res
      → service_allowed p.display_name action res.kind ≡ true
      → Permits p action res
  as_job :
      p.kind ≡ "job"
      → IsOrdinary res
      → res.kind ≡ "job"
      → res.workflow_id ≡ p.display_name
      → res.workflow_id ≢ ""
      → (action ≡ "read") ⊎ (action ≡ "list")
      → Permits p action res
  as_owner :
      IsPerson p → IsOrdinary res → res.owner_principal ≡ p.id → p.id ≢ "" → Permits p action res
  as_grantee :
      {sh : Share}
      → IsPerson p
      → IsOrdinary res
      → res.owner_principal ≢ ""
      → In sh res.shares
      → Reaches p sh
      → In action sh.actions
      → Permits p action res

pub matches_grantee-Reaches :
    (p : Principal) (sh : Share) → matches_grantee p sh.grantee ≡ true → Reaches p sh
unfolding matches_grantee
matches_grantee-Reaches p sh h = elim (Bool-cases (str_eq p.id sh.grantee)) [
  | inl same ↦ by_id (ground (arith, eq_iff p.id sh.grantee)) (ground (arith, eq_iff sh.grantee ""))
  | inr other ↦ elim (Option-cases (strip_prefix "group:" sh.grantee)) [
    | inl n ↦ (let bad : ⊥ = ground (arith, (rw (other, n) at h)) in elim bad [ ])
    | inr (name, e) ↦
        by_group (strip_prefix_sound "group:" sh.grantee name e)
          (contains-In name p.groups (ground (arith, (rw (other, e) at h))))
  ]
]

pub by_name :
    (p : Principal) (grantee : String) {name : String}
    → grantee ≡ "group:" ++ name
    → In name p.groups
    → matches_grantee p grantee ≡ true
unfolding matches_grantee strip_prefix
by_name p grantee {name} e i =
    let found : strip_prefix "group:" grantee ≡ some name =
      rw e (strip_prefix-append "group:" name) in
    elim (Bool-cases (str_eq grantee "")) [
      | inl empty ↦
          (let bad : ⊥ = ground (arith, (rw ((eq_iff grantee "").0 empty) at found)) in
            elim bad [ ])
      | inr named ↦ rw (named, found, In-contains name p.groups i) (ground arith)
    ]

pub Reaches-matches_grantee :
    (p : Principal) (sh : Share) → Reaches p sh → matches_grantee p sh.grantee ≡ true
unfolding matches_grantee
Reaches-matches_grantee p sh (by_id e n) =
    ground (arith, eq_iff p.id sh.grantee, eq_iff sh.grantee "")
Reaches-matches_grantee p sh (by_group e i) = by_name p sh.grantee e i

pub IsPerson-cases :
    (p : Principal) → (str_eq p.kind "user" || str_eq p.kind "operator") ≡ true → IsPerson p
IsPerson-cases p h = elim (Bool-cases (str_eq p.kind "user")) [
  | inl u ↦ is_user ((eq_iff p.kind "user").0 u)
  | inr n ↦ is_operator (ground (arith, eq_iff p.kind "operator"))
]
