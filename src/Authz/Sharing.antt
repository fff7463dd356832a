-- ===== src/Authz/Sharing.antt =====
-- What a validated share may hold, and that no share opens the admin action (internal/authz/share.go).
use Prim.Native.String.{◌++◌}
use Prim.Native.String.append as Append
use helion_v.Prelude.{
  String, true, false, ◌||◌, none, some, List, [], ◌∷◌, ◌≡◌, ◌≢◌, ◌↔◌, ◌⊎◌, inl, inr, refl, sym,
  subst, arith, str_eq, eq_iff, Bool-cases, Option-cases, List-cases, In, All, contains-In,
  In-contains, lookup, All-In,
}
use helion_v.Principal.{Principal, before_colon, behind_colon}
use helion_v.Principal.Cuts.{before_colon-append, behind_colon-append, cut_joined}
use helion_v.Authz.{
  Share, Resource, permitted, allow, service_allowed, service_actions, known_action, grantee_kinds,
  actions_fault, grantee_fault, validate_share,
}
use helion_v.Authz.Grounds.{IsPerson, Permits, as_admin, as_service, as_job, as_owner, as_grantee}
use helion_v.Authz.Permits.{allow_iff_Permits, apart}

-- The actions that a share may carry.
abbrev pub IsShareable : String → Type 0
IsShareable a = (known_action a ≡ true) × (a ≢ "admin")

actions_fault_iff :
    (actions : List String) → (actions_fault actions ≡ none) ↔ All IsShareable actions
unfolding actions_fault
actions_fault_iff [] = (λ h. tt, λ h. refl)
actions_fault_iff (a ∷ others) =
    let rest = actions_fault_iff others in
    (
      λ h. ((ground (arith, h), ground (arith, h, eq_iff a "admin")), rest.0 (ground (arith, h))),
      λ ((k, n), later). ground (arith, rest.1 later, k, n, eq_iff a "admin"),
    )

-- The shape of a grantee: a known kind, a colon and a subject that is not empty.
abbrev pub IsGrantee : String → Type 0
IsGrantee grantee =
    (kind : String) × (subject : String) × In kind grantee_kinds
    × (grantee ≡ (kind ++ ":") ++ subject)
    × (subject ≢ "")

abbrev Cuts : String → Type 0
Cuts kind =
    (before_colon (kind ++ ":") ≡ some kind)
    × (behind_colon (kind ++ ":") ≡ some "")
    × (str_eq kind "" ≡ false)

kinds-Cuts : All Cuts grantee_kinds
unfolding before_colon behind_colon
kinds-Cuts = (
  (refl, refl, refl),
  ((refl, refl, refl), ((refl, refl, refl), ((refl, refl, refl), ((refl, refl, refl), tt)))),
)

grantee_fault-IsGrantee : (g : String) → grantee_fault g ≡ none → IsGrantee g
unfolding grantee_fault
grantee_fault-IsGrantee g h = elim (Option-cases (before_colon g)) [
  | inl n ↦ (let bad : ⊥ = ground (arith, (rw (grantee_fault, n) at h)) in elim bad [ ])
  | inr (kind, e) ↦ elim (Option-cases (behind_colon g)) [
    | inl n ↦ (let bad : ⊥ = ground (arith, (rw (grantee_fault, e, n) at h)) in elim bad [ ])
    | inr (subject, f) ↦
        (let rest = (rw (grantee_fault, e, f) at h) in
          (
            kind,
            subject,
            contains-In kind grantee_kinds (ground (arith, rest)),
            cut_joined g kind subject e f,
            ground (arith, rest, eq_iff subject ""),
          ))
  ]
]

IsGrantee-grantee_fault : (g : String) → IsGrantee g → grantee_fault g ≡ none
unfolding grantee_fault
IsGrantee-grantee_fault g (kind, subject, i, e, n) =
    let (front, back, named) = All-In Cuts kind grantee_kinds kinds-Cuts i in
    let known = In-contains kind grantee_kinds i in
    subst (λ z. grantee_fault z ≡ none) (sym e)
      (rw
        (
          grantee_fault,
          before_colon-append (kind ++ ":") subject kind front,
          behind_colon-append (kind ++ ":") subject "" back,
          Append.nil subject,
          named,
          known,
        )
        (ground (arith, eq_iff subject "")))

-- The admin action is in no service's table.
services_without_admin : (name kind : String) → service_allowed name "admin" kind ≡ false
unfolding service_allowed service_actions lookup
services_without_admin name kind = ground arith

not_blank :
    (s : String) (kind subject : String)
    → s ≡ (kind ++ ":") ++ subject
    → grantee_fault s ≡ none
    → (str_eq s "" || str_eq s "anonymous") ≡ false
unfolding grantee_fault before_colon
not_blank s kind subject e h = elim (Bool-cases (str_eq s "")) [
  | inl a ↦ (let bad : ⊥ = ground (arith, (rw ((eq_iff s "").0 a) at h)) in elim bad [ ])
  | inr n ↦ elim (Bool-cases (str_eq s "anonymous")) [
    | inl a ↦ (let bad : ⊥ = ground (arith, (rw ((eq_iff s "anonymous").0 a) at h)) in elim bad [ ])
    | inr m ↦ rw (n, m) refl
  ]
]

accepted-parts :
    (s : Share)
    → validate_share s ≡ none
    → (grantee_fault s.grantee ≡ none) × (s.actions ≢ []) × (actions_fault s.actions ≡ none)
unfolding validate_share
accepted-parts s h = elim (Option-cases (grantee_fault s.grantee)) [
  | inr (fault, e) ↦ (let bad : ⊥ = ground (arith, (rw (validate_share, e) at h)) in elim bad [ ])
  | inl e ↦ elim (List-cases s.actions) [
    | inl n ↦ (let bad : ⊥ = ground (arith, (rw (validate_share, e, n) at h)) in elim bad [ ])
    | inr (a, others, c) ↦
        (e, rw c (λ k. cc), rw c (ground (arith, (rw (validate_share, e, c) at h))))
  ]
]

parts-accepted :
    (s : Share)
    → IsGrantee s.grantee
    → s.actions ≢ []
    → actions_fault s.actions ≡ none
    → validate_share s ≡ none
unfolding validate_share
parts-accepted s g n f = elim (List-cases s.actions) [
  | inl e ↦ elim (n e) [ ]
  | inr (a, others, c) ↦
      (let fits = IsGrantee-grantee_fault s.grantee g in
        let (kind, subject, i, e, m) = g in
        let blank = not_blank s.grantee kind subject e fits in
        rw (validate_share, fits, c) (ground (arith, blank, (rw c at f))))
]

-- ValidateShare accepts a share exactly when its grantee is a known kind, a colon and a subject that is not empty, it
-- has an action, and each of its actions is a known one other than admin.
pub validate_share_iff :
    (s : Share)
    → (validate_share s ≡ none)
      ↔ (IsGrantee s.grantee × (s.actions ≢ []) × All IsShareable s.actions)
validate_share_iff s = (
  λ h.
      (let (g, n, f) = accepted-parts s h in
        (grantee_fault-IsGrantee s.grantee g, n, (actions_fault_iff s.actions).0 f)),
  λ (g, n, all). parts-accepted s g n ((actions_fault_iff s.actions).1 all),
)

standing :
    (p : Principal) (res : Resource)
    → ((sh : Share) → In sh res.shares → validate_share sh ≡ none)
    → Permits p "admin" res
    → IsPerson p × ((p.role ≡ "admin") ⊎ (res.owner_principal ≡ p.id))
standing p res valid (as_admin person e) = (person, inl e)
standing p res valid (as_owner person ordinary e n) = (person, inr e)
standing p res valid (as_service e ordinary h) =
    (let bad : ⊥ = ground (arith, services_without_admin p.display_name res.kind) in elim bad [ ])
standing p res valid (as_job e ordinary k w n (inl a)) = elim (apart "admin" "read" refl a) [ ]
standing p res valid (as_job e ordinary k w n (inr a)) = elim (apart "admin" "list" refl a) [ ]
standing p res valid (as_grantee person ordinary n i reach k) =
    let (g, m, all) = (validate_share_iff _).0 (valid _ i) in
    let (known, other) = All-In IsShareable "admin" _ all k in elim (other refl) [ ]

-- Where every share of a resource has passed ValidateShare, the admin action on it is open to administrators and to
-- the owner alone: no share, service or job token opens it.
pub admin_action_needs_standing :
    (p : Principal) (res : Resource)
    → ((sh : Share) → In sh res.shares → validate_share sh ≡ none)
    → allow (some p) "admin" (some res) ≡ permitted
    → IsPerson p × ((p.role ≡ "admin") ⊎ (res.owner_principal ≡ p.id))
admin_action_needs_standing p res valid h =
    standing p res valid ((allow_iff_Permits p "admin" res).0 h)
