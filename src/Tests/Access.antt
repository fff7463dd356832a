-- ===== src/Tests/Access.antt =====
-- Principals, shares and groups.
use helion_v.Prelude.{
  String, none, some, List, [], ◌∷◌, In, here, there, ◌≡◌, ◌≢◌, ◌⊎◌, refl, subst, arith, lookup,
  insert, delete, contains, strip_prefix, count,
}
use helion_v.Principal.{
  Principal, user, node, service, job, anonymous, parse_id, id_of, prefixes, owner_from_legacy,
}
use helion_v.Principal.Ids.{parse_id-id_of}
use helion_v.Authz.{
  Share, Resource, dataset_resource, permitted, allow, validate_share, admin_action, unknown_action,
  malformed_grantee,
}
use helion_v.Authz.Grounds.{IsPerson, Permits}
use helion_v.Authz.Sharing.{admin_action_needs_standing}
use helion_v.Groups.{
  Group, new_mem_store, create, remove_member, groups_for, validate_name, validate_principal_id,
}
use helion_v.Groups.Spec.{
  GroupOp, creating, adding, removing, deleting, IsDistinct, is_there, in_group,
}
use helion_v.Groups.Agreement.{run_store, run_spec, nothing, groups_refine}

abbrev to_team : Share
to_team = record {
  grantee = "group:ml";
  actions = "read" ∷ "cancel" ∷ [];
  granted_by = "user:alice";
  granted_at = 7;
}

abbrev alices : Resource
alices = record {
  kind = "job";
  id = "j";
  owner_principal = "user:alice";
  workflow_id = "w";
  shares = to_team ∷ [];
}

abbrev member : Principal
member = record {
  id = "user:bob";
  kind = "user";
  display_name = "bob";
  role = "user";
  groups = "ml" ∷ [];
}

abbrev alice : Principal
alice = record {
  id = "user:alice";
  kind = "user";
  display_name = "alice";
  role = "user";
  groups = [];
}

allow_test :
    (allow (some member) "cancel" (some alices) ≡ permitted)
    × (allow (some member) "delete" (some alices) ≢ permitted)
    × (allow (some alice) "delete" (some alices) ≡ permitted)
    × (allow (some (job "w")) "read" (some alices) ≡ permitted)
    × (allow (some (service "dispatcher")) "write" (some alices) ≢ permitted)
    × (allow (some (node "n1")) "read" (some alices) ≢ permitted)
    × (allow (some anonymous) "read" (some alices) ≢ permitted)
    × (allow none "read" (some alices) ≢ permitted)
    × (allow (some (user "root" "admin")) "admin" (some (dataset_resource "d" "legacy:" []))
        ≡ permitted)
unfolding allow lookup contains strip_prefix job service node anonymous user dataset_resource
allow_test = (refl, λ e. cc, refl, refl, λ e. cc, λ e. cc, λ e. cc, λ e. cc, refl)

share_test :
    (validate_share to_team ≡ none)
    × (validate_share (record to_team { actions = "admin" ∷ [] }) ≡ some admin_action)
    × (validate_share (record to_team { actions = "fly" ∷ [] }) ≡ some unknown_action)
    × (validate_share (record to_team { grantee = "group:" }) ≡ some malformed_grantee)
unfolding validate_share contains
share_test = (refl, refl, refl, refl)

team_only : (sh : Share) → In sh alices.shares → validate_share sh ≡ none
unfolding validate_share contains
team_only sh (here e) = subst (λ z. validate_share z ≡ none) e refl
team_only sh (there i) = elim i [ ]

admin_action_needs_standing_example :
    IsPerson alice × ((alice.role ≡ "admin") ⊎ (alices.owner_principal ≡ alice.id))
unfolding allow lookup contains strip_prefix
admin_action_needs_standing_example = admin_action_needs_standing alice alices team_only refl

parse_id-id_of_example : parse_id (id_of "node" "gpu:1") ≡ some ("node", "gpu:1")
unfolding lookup prefixes
parse_id-id_of_example = parse_id-id_of "node" "gpu:1" "node:" refl

id_test :
    (parse_id "gpu-1" ≡ none) × (parse_id "robot:1" ≡ none) × (owner_from_legacy "" ≡ "legacy:")
unfolding parse_id lookup owner_from_legacy
id_test = (refl, refl, refl)

abbrev team : List String → Group
team members = record {
  name = "ml";
  members = members;
  created_at = 0;
  created_by = "user:root";
  updated_at = 0;
}

abbrev steps : List GroupOp
steps =
    creating 1 (team ("user:a" ∷ []))
    ∷ adding 2 "ml" "user:b"
    ∷ removing 3 "ml" "user:a"
    ∷ deleting "ops"
    ∷ []

one_member : IsDistinct ("user:a" ∷ [])
unfolding count
one_member p = ground arith

groups_refine_example :
    let (s, answers) = run_store steps new_mem_store in
    let (v, expected) = run_spec steps nothing in
    (answers ≡ expected)
    × ((n : String) → is_there (lookup n s.groups) ≡ v.exists n)
    × ((p n : String) → in_group p (lookup n s.groups) ≡ v.member p n)
    × ((p n : String)
        → validate_principal_id p ≡ none
        → contains n (groups_for p s).0 ≡ v.member p n)
groups_refine_example = groups_refine steps (one_member, (tt, (tt, (tt, tt))))

-- A member that Create lists twice is listed once more behind its removal, while the reverse index has lost it.
twice_test :
    let s =
      (remove_member 2 "ml" "user:a"
        (create 1 (team ("user:a" ∷ "user:a" ∷ [])) new_mem_store).0).0 in
    ((groups_for "user:a" s).0 ≡ [])
    × (lookup "ml" s.groups
        ≡ some (record (team ("user:a" ∷ [])) { created_at = 1; updated_at = 2 }))
unfolding create remove_member groups_for lookup insert delete contains new_mem_store
twice_test = (refl, refl)

name_test :
    (validate_name "ml.team-1" ≡ none)
    × (validate_name ".ml" ≢ none)
    × (validate_name "m l" ≢ none)
    × (validate_principal_id "group:x" ≢ none)
unfolding validate_name validate_principal_id
name_test = (refl, λ e. cc, λ e. cc, λ e. cc)
