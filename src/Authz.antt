-- ===== src/Authz.antt =====
-- The authorisation core (internal/authz): resources, the rule tables, shares and Allow.
mod Rules
pub mod Grounds
pub mod Permits
pub mod Sharing
unfoldable pub use Rules.*
use helion_v.Prelude.{
  String, ℕ, Bool, true, false, not, ◌&&◌, ◌||◌, Option, none, some, List, [], ◌∷◌, str_eq,
  if◌then◌else◌, contains, some_of, strip_prefix,
}
use helion_v.Principal.{Principal, before_colon, behind_colon, legacy_owner_id, is_admin}

pub record Share : Type 0 where
  pub grantee : String
  pub actions : List String
  pub granted_by : String
  pub granted_at : ℕ

pub record Resource : Type 0 where
  pub kind : String
  pub id : String
  pub owner_principal : String
  pub workflow_id : String
  pub shares : List Share

unfoldable pub system_resource : Resource
system_resource = record {
  kind = "system";
  id = "";
  owner_principal = "";
  workflow_id = "";
  shares = [];
}

unfoldable pub job_resource : (id owner workflow_id : String) → List Share → Resource
job_resource id owner workflow_id shares = record {
  kind = "job";
  id = id;
  owner_principal = owner;
  workflow_id = workflow_id;
  shares = shares;
}

unfoldable pub workflow_resource : (id owner : String) → List Share → Resource
workflow_resource id owner shares = record {
  kind = "workflow";
  id = id;
  owner_principal = owner;
  workflow_id = "";
  shares = shares;
}

unfoldable pub dataset_resource : (id owner : String) → List Share → Resource
dataset_resource id owner shares = record {
  kind = "dataset";
  id = id;
  owner_principal = owner;
  workflow_id = "";
  shares = shares;
}

unfoldable pub model_resource : (id owner : String) → List Share → Resource
model_resource id owner shares = record {
  kind = "model";
  id = id;
  owner_principal = owner;
  workflow_id = "";
  shares = shares;
}

unfoldable pub service_resource : (id owner : String) → List Share → Resource
service_resource id owner shares = record {
  kind = "service";
  id = id;
  owner_principal = owner;
  workflow_id = "";
  shares = shares;
}

-- What ValidateShare finds wrong.
pub data ShareFault : Type 0 where
  empty_grantee anonymous_grantee malformed_grantee unknown_grantee_kind : ShareFault
  no_actions unknown_action admin_action : ShareFault

-- knownAction
unfoldable pub known_action : String → Bool
unfolding contains
known_action a =
    contains a ("read" ∷ "list" ∷ "write" ∷ "cancel" ∷ "delete" ∷ "reveal" ∷ "admin" ∷ [])

-- The loop over the actions.
unfoldable pub actions_fault : List String → Option ShareFault
unfolding known_action
actions_fault [] = none
actions_fault (a ∷ others) =
    let rest = actions_fault others in
    if not (known_action a)
    then some unknown_action
    else if str_eq a "admin"
    then some admin_action
    else rest

abbrev pub grantee_kinds : List String
grantee_kinds = "user" ∷ "operator" ∷ "group" ∷ "service" ∷ "job" ∷ []

-- The checks of the grantee: its prefix, its subject and its kind.
unfoldable pub grantee_fault : String → Option ShareFault
unfolding before_colon behind_colon contains
grantee_fault grantee = elim (before_colon grantee) [
  | none ↦ some malformed_grantee
  | some kind ↦ elim (behind_colon grantee) [
    | none ↦ some malformed_grantee
    | some subject ↦
        if str_eq kind "" || str_eq subject ""
        then some malformed_grantee
        else if contains kind grantee_kinds
        then none
        else some unknown_grantee_kind
  ]
]

-- ValidateShare: none where it returns nil.
unfoldable pub validate_share : Share → Option ShareFault
unfolding grantee_fault actions_fault
validate_share s =
    if str_eq s.grantee ""
    then some empty_grantee
    else if str_eq s.grantee "anonymous"
    then some anonymous_grantee
    else elim (grantee_fault s.grantee) [
      | some fault ↦ some fault
      | none ↦ elim s.actions [ [] ↦ some no_actions | a ∷ others ↦ actions_fault (a ∷ others) ]
    ]

-- matchesGrantee, for a principal that is not nil.
unfoldable pub matches_grantee : Principal → String → Bool
unfolding strip_prefix contains
matches_grantee p grantee =
    if str_eq grantee ""
    then false
    else if str_eq p.id grantee
    then true
    else elim (strip_prefix "group:" grantee) [ none ↦ false | some name ↦ contains name p.groups ]

unfoldable pub contains_action : List String → String → Bool
unfolding contains
contains_action actions action = contains action actions

pub data DenyCode : Type 0 where
  nil_principal anonymous_denied unknown_kind not_owner legacy_owner_admin_only : DenyCode
  node_not_allowed service_not_allowed job_scope_mismatch admin_required nil_resource : DenyCode

-- DenyError without its text.
pub record DenyError : Type 0 where
  pub code : DenyCode
  pub action : String
  pub kind : String
  pub resource_kind : String

-- What Allow returns: permitted for nil.
pub data Verdict : Type 0 where
  permitted : Verdict
  denied : DenyError → Verdict

abbrev kind_of_principal : Option Principal → String
kind_of_principal none = ""
kind_of_principal (some p) = p.kind

abbrev kind_of_resource : Option Resource → String
kind_of_resource none = ""
kind_of_resource (some res) = res.kind

-- denyf
abbrev pub denyf : DenyCode → String → Option Principal → Option Resource → Verdict
denyf code action p res = denied (record {
  code = code;
  action = action;
  kind = kind_of_principal p;
  resource_kind = kind_of_resource res;
})

module _ (p : Principal) (action : String) (res : Resource) where
  abbrev pub grant_or : DenyCode → Bool → Verdict
  grant_or code true = permitted
  grant_or code false = denyf code action (some p) (some res)

  -- The case of a job-scoped token.
  unfoldable pub job_may : Bool
  job_may =
      if not (str_eq res.kind "job")
      then false
      else if str_eq res.workflow_id "" || not (str_eq res.workflow_id p.display_name)
      then false
      else str_eq action "read" || str_eq action "list"

  -- The loop over the shares.
  unfoldable pub shared_with : Bool
  unfolding matches_grantee contains_action
  shared_with =
      some_of (λ sh. matches_grantee p sh.grantee && contains_action sh.actions action) res.shares

  -- The case of a user or an operator.
  unfoldable pub person_may : Bool
  unfolding shared_with
  person_may =
      if str_eq res.owner_principal ""
      then false
      else if str_eq p.id res.owner_principal
      then true
      else shared_with

  -- The switch on the kind.
  unfoldable pub allow_kind : Verdict
  unfolding node_allowed service_allowed job_may person_may
  allow_kind =
      if str_eq p.kind "node"
      then grant_or node_not_allowed (node_allowed action res.kind)
      else if str_eq p.kind "service"
      then grant_or service_not_allowed (service_allowed p.display_name action res.kind)
      else if str_eq p.kind "job"
      then grant_or job_scope_mismatch job_may
      else if str_eq p.kind "user" || str_eq p.kind "operator"
      then grant_or not_owner person_may
      else grant_or unknown_kind false

  unfoldable pub allow_given : Verdict
  unfolding is_admin allow_kind
  allow_given =
      if is_admin p
      then permitted
      else if str_eq p.kind "anonymous"
      then grant_or anonymous_denied false
      else if str_eq res.kind "system"
      then grant_or admin_required false
      else if str_eq res.owner_principal legacy_owner_id
      then grant_or legacy_owner_admin_only false
      else allow_kind

-- Allow
unfoldable pub allow : Option Principal → String → Option Resource → Verdict
unfolding allow_given
allow none action res = denyf nil_principal action none res
allow (some p) action none = denyf nil_resource action (some p) none
allow (some p) action (some res) = allow_given p action res
