-- ===== src/Authz/Permits.antt =====
-- Who may do what, stated without the order of Allow's checks (internal/authz/authz.go).
use helion_v.Prelude.{
  String, true, false, ◌&&◌, ◌||◌, some, ◌≡◌, ◌≢◌, ◌↔◌, ◌⊎◌, inl, inr, refl, arith, str_eq, eq_iff,
  Bool-cases, In, contains-In, In-contains, some_of-In, In-some_of,
}
use helion_v.Principal.{Principal, is_admin}
use helion_v.Authz.{
  Share, Resource, permitted, allow, matches_grantee, contains_action, job_may, shared_with,
  person_may, allow_kind, allow_given, node_allowed,
}
use helion_v.Authz.Grounds.{
  IsPerson, is_user, is_operator, Reaches, IsOrdinary, Permits, as_admin, as_service, as_job,
  as_owner, as_grantee, matches_grantee-Reaches, Reaches-matches_grantee, IsPerson-cases,
}

person_may-Permits :
    (p : Principal) (action : String) (res : Resource)
    → IsPerson p
    → IsOrdinary res
    → person_may p action res ≡ true
    → Permits p action res
unfolding person_may shared_with contains_action
person_may-Permits p action res person ordinary h =
    elim (Bool-cases (str_eq p.id res.owner_principal)) [
      | inl own ↦
          as_owner person ordinary (ground (arith, eq_iff p.id res.owner_principal))
            (ground (arith, eq_iff p.id res.owner_principal, eq_iff res.owner_principal ""))
      | inr other ↦
          (let (sh, i, k) =
              some_of-In (λ sh. matches_grantee p sh.grantee && contains_action sh.actions action)
                res.shares (ground arith) in
            as_grantee person ordinary (ground (arith, eq_iff res.owner_principal "")) i
              (matches_grantee-Reaches p sh (ground arith))
              (contains-In action sh.actions (ground arith)))
    ]

allow_kind-Permits :
    (p : Principal) (action : String) (res : Resource)
    → IsOrdinary res
    → allow_kind p action res ≡ permitted
    → Permits p action res
unfolding allow_kind job_may node_allowed
allow_kind-Permits p action res ordinary h = elim (Bool-cases (str_eq p.kind "service")) [
  | inl s ↦
      as_service ((eq_iff p.kind "service").0 s) ordinary
        (ground (arith, eq_iff p.kind "service", eq_iff p.kind "node"))
  | inr n ↦ elim (Bool-cases (str_eq p.kind "job")) [
    | inl j ↦
        as_job ((eq_iff p.kind "job").0 j) ordinary (ground (arith, eq_iff res.kind "job"))
          (ground (arith, eq_iff res.workflow_id p.display_name))
          (ground (arith, eq_iff res.workflow_id ""))
          (ground (arith, eq_iff action "read", eq_iff action "list"))
    | inr m ↦
        person_may-Permits p action res (IsPerson-cases p (ground arith)) ordinary (ground arith)
  ]
]

allow_given-Permits :
    (p : Principal) (action : String) (res : Resource)
    → allow_given p action res ≡ permitted
    → Permits p action res
unfolding allow_given is_admin
allow_given-Permits p action res h = elim (Bool-cases (is_admin p)) [
  | inl admin ↦ as_admin (IsPerson-cases p (ground arith)) (ground (arith, eq_iff p.role "admin"))
  | inr plain ↦
      allow_kind-Permits p action res
        (record {
          not_system = ground (arith, eq_iff res.kind "system");
          not_legacy = ground (arith, eq_iff res.owner_principal "legacy:");
        })
        (ground arith)
]

pub apart : (s t : String) → str_eq s t ≡ false → s ≢ t
apart s t h e = ground (arith, eq_iff s t)

-- The kinds that the switch names are not the anonymous one, and past its guards only the switch counts.
guards_passed :
    (p : Principal) (action : String) (res : Resource)
    → p.kind ≢ "anonymous"
    → IsOrdinary res
    → allow_kind p action res ≡ permitted
    → allow_given p action res ≡ permitted
unfolding allow_given
guards_passed p action res named ordinary h = ground (
  arith,
  eq_iff p.kind "anonymous",
  ordinary.not_system,
  ordinary.not_legacy,
  eq_iff res.kind "system",
  eq_iff res.owner_principal "legacy:",
)

person-test :
    (p : Principal) → IsPerson p → (str_eq p.kind "user" || str_eq p.kind "operator") ≡ true
person-test p (is_user e) = ground (arith, eq_iff p.kind "user")
person-test p (is_operator e) = ground (arith, eq_iff p.kind "operator")

person_allowed :
    (p : Principal) (action : String) (res : Resource)
    → IsPerson p
    → IsOrdinary res
    → person_may p action res ≡ true
    → allow_given p action res ≡ permitted
unfolding allow_kind
person_allowed p action res (is_user e) ordinary h =
    guards_passed p action res (rw e (apart "user" "anonymous" refl)) ordinary
      (rw (allow_kind, e, h) refl)
person_allowed p action res (is_operator e) ordinary h =
    guards_passed p action res (rw e (apart "operator" "anonymous" refl)) ordinary
      (rw (allow_kind, e, h) refl)

owner-test :
    (p : Principal) (action : String) (res : Resource)
    → res.owner_principal ≡ p.id
    → p.id ≢ ""
    → person_may p action res ≡ true
unfolding person_may
owner-test p action res e n =
    ground (arith, eq_iff p.id res.owner_principal, eq_iff res.owner_principal "")

grantee-test :
    (p : Principal) (action : String) (res : Resource) (sh : Share)
    → res.owner_principal ≢ ""
    → In sh res.shares
    → Reaches p sh
    → In action sh.actions
    → person_may p action res ≡ true
unfolding person_may shared_with contains_action
grantee-test p action res sh n i reach k =
    let tried =
      In-some_of (λ sh. matches_grantee p sh.grantee && contains_action sh.actions action)
        res.shares sh i
        (ground (arith, Reaches-matches_grantee p sh reach, In-contains action sh.actions k)) in
    ground (arith, tried, eq_iff res.owner_principal "")

job-test :
    (p : Principal) (action : String) (res : Resource)
    → res.kind ≡ "job"
    → res.workflow_id ≡ p.display_name
    → res.workflow_id ≢ ""
    → (action ≡ "read") ⊎ (action ≡ "list")
    → job_may p action res ≡ true
unfolding job_may
job-test p action res k w n (inl a) = ground (
  arith,
  eq_iff res.kind "job",
  eq_iff res.workflow_id p.display_name,
  eq_iff res.workflow_id "",
  eq_iff action "read",
)
job-test p action res k w n (inr a) = ground (
  arith,
  eq_iff res.kind "job",
  eq_iff res.workflow_id p.display_name,
  eq_iff res.workflow_id "",
  eq_iff action "list",
)

admin_allowed :
    (p : Principal) (action : String) (res : Resource)
    → is_admin p ≡ true
    → allow_given p action res ≡ permitted
unfolding allow_given
admin_allowed p action res h = rw h refl

Permits-allow_given :
    (p : Principal) (action : String) (res : Resource)
    → Permits p action res
    → allow_given p action res ≡ permitted
unfolding is_admin allow_kind
Permits-allow_given p action res (as_admin person e) =
    admin_allowed p action res (ground (arith, person-test p person, eq_iff p.role "admin"))
Permits-allow_given p action res (as_service e ordinary h) =
    guards_passed p action res (rw e (apart "service" "anonymous" refl)) ordinary
      (rw (allow_kind, e, h) refl)
Permits-allow_given p action res (as_job e ordinary k w n a) =
    let may = job-test p action res k w n a in
    guards_passed p action res (rw e (apart "job" "anonymous" refl)) ordinary
      (rw (allow_kind, e, may) refl)
Permits-allow_given p action res (as_owner person ordinary e n) =
    person_allowed p action res person ordinary (owner-test p action res e n)
Permits-allow_given p action res (as_grantee person ordinary n i reach k) =
    person_allowed p action res person ordinary (grantee-test p action res _ n i reach k)

pub allow_iff_Permits :
    (p : Principal) (action : String) (res : Resource)
    → (allow (some p) action (some res) ≡ permitted) ↔ Permits p action res
unfolding allow
allow_iff_Permits p action res =
    (allow_given-Permits p action res, Permits-allow_given p action res)
