-- ===== src/Principal.antt =====
-- Identities (internal/principal/principal.go): the kinds, their prefixes, IsAdmin, ParseID,
-- SubjectFromID and OwnerFromLegacy.
pub mod Ids
pub mod Cuts
mod Colon
unfoldable pub use Colon.*
use Prim.Native.String.{◌++◌}
use helion_v.Prelude.{
  String, Bool, false, Option, none, some, List, [], ◌∷◌, ◌||◌, str_eq, if◌then◌else◌, Assoc,
  lookup,
}

unfoldable pub subject_from_id : String → String
unfolding subject_part
subject_from_id id =
    if str_eq id "" || str_eq id "anonymous"
    then ""
    else elim (subject_part id) [ none ↦ id | some subject ↦ subject ]

pub record Principal : Type 0 where
  pub id : String
  pub kind : String
  pub display_name : String
  pub role : String
  pub groups : List String

-- The map `prefix`.
unfoldable pub prefixes : Assoc String
prefixes =
    ("user", "user:")
    ∷ ("operator", "operator:")
    ∷ ("node", "node:")
    ∷ ("service", "service:")
    ∷ ("job", "job:")
    ∷ []

-- prefix[kind] + subject
unfoldable pub id_of : (kind subject : String) → String
unfolding prefixes lookup
id_of kind subject = elim (lookup kind prefixes) [
  | none ↦ subject
  | some prefix ↦ prefix ++ subject
]

unfoldable pub user : (subject role : String) → Principal
unfolding id_of
user subject role = record {
  id = id_of "user" subject;
  kind = "user";
  display_name = subject;
  role = role;
  groups = [];
}

unfoldable pub operator_cert : (cn role : String) → Principal
unfolding id_of
operator_cert cn role = record {
  id = id_of "operator" cn;
  kind = "operator";
  display_name = cn;
  role = role;
  groups = [];
}

unfoldable pub node : String → Principal
unfolding id_of
node node_id = record {
  id = id_of "node" node_id;
  kind = "node";
  display_name = node_id;
  role = "";
  groups = [];
}

unfoldable pub service : String → Principal
unfolding id_of
service name = record {
  id = id_of "service" name;
  kind = "service";
  display_name = name;
  role = "";
  groups = [];
}

unfoldable pub job : String → Principal
unfolding id_of
job subject = record {
  id = id_of "job" subject;
  kind = "job";
  display_name = subject;
  role = "job";
  groups = [];
}

unfoldable pub anonymous : Principal
anonymous = record {
  id = "anonymous";
  kind = "anonymous";
  display_name = "anonymous";
  role = "";
  groups = [];
}

-- FromContext: what the context holds, or the anonymous principal.
unfoldable pub from_context : Option Principal → Principal
unfolding anonymous
from_context none = anonymous
from_context (some p) = p

-- ParseID: the kind and the subject, or none for an error.
unfoldable pub parse_id : String → Option (String × String)
unfolding before_colon behind_colon prefixes lookup
parse_id id = if str_eq id "anonymous" then some ("anonymous", "") else elim (before_colon id) [
  | none ↦ none
  | some kind ↦ if str_eq kind "" then none else elim (lookup kind prefixes) [
    | none ↦ none
    | some prefix ↦ elim (behind_colon id) [ none ↦ none | some subject ↦ some (kind, subject) ]
  ]
]

abbrev pub legacy_owner_id : String
legacy_owner_id = "legacy:"

-- OwnerFromLegacy
unfoldable pub owner_from_legacy : String → String
unfolding id_of
owner_from_legacy subject = if str_eq subject "" then legacy_owner_id else id_of "user" subject

-- IsAdmin, for a principal that is not nil.
unfoldable pub is_admin : Principal → Bool
is_admin p =
    if str_eq p.kind "user" || str_eq p.kind "operator" then str_eq p.role "admin" else false
