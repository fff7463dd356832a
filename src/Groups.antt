-- ===== src/Groups.antt =====
-- Groups of principals (internal/groups/groups.go) and their store in memory
-- (internal/groups/memstore.go). The clock is an argument; a time of 0 is the zero time.Time.
mod Names
pub mod Index
pub mod Spec
pub mod Refinement
pub mod Agreement
unfoldable pub use Names.*
unfoldable pub use Index.{add_reverse, remove_reverse}
pub use Index.{Reverse}
use text.Mathlib.Text.{is_lt}
use Prim.Native.String.{compare}
use helion_v.Prelude.{
  ℕ, String, Bool, true, false, not, ◌&&◌, ◌||◌, Option, none, some, List, [], ◌∷◌, ◌++◌, Assoc,
  lookup, insert, delete, contains, ltb, ◌==◌, str_eq, if◌then◌else◌, map,
}

pub record Group : Type 0 where
  pub name : String
  pub members : List String
  pub created_at : ℕ
  pub created_by : String
  pub updated_at : ℕ

-- `reverse` has, for a principal, the set of the names of its groups.
pub record MemStore : Type 0 where
  pub groups : Assoc Group
  pub reverse : Reverse

-- NewMemStore
unfoldable pub new_mem_store : MemStore
new_mem_store = record { groups = []; reverse = [] }

-- The check of each member in Create.
unfoldable pub members_fault : List String → Option GroupError
unfolding validate_principal_id
members_fault [] = none
members_fault (m ∷ ms) =
    let later = members_fault ms in
    elim (validate_principal_id m) [ some e ↦ some e | none ↦ later ]

-- The loop that enters each member.
unfoldable pub enter_all : List String → String → Reverse → Reverse
unfolding add_reverse
enter_all [] name rev = rev
enter_all (m ∷ ms) name rev = enter_all ms name (add_reverse m name rev)

unfoldable pub leave_all : List String → String → Reverse → Reverse
unfolding remove_reverse
leave_all [] name rev = rev
leave_all (m ∷ ms) name rev = leave_all ms name (remove_reverse m name rev)

-- Create
unfoldable pub create : ℕ → Group → MemStore → MemStore × Option GroupError
unfolding validate_name members_fault enter_all
create now g s = elim (validate_name g.name) [
  | some e ↦ (s, some e)
  | none ↦ elim (members_fault g.members) [
    | some e ↦ (s, some e)
    | none ↦ elim (lookup g.name s.groups) [
      | some old ↦ (s, some group_exists)
      | none ↦
          (let created = if g.created_at == 0 then now else g.created_at in
            let fresh = record g { created_at = created; updated_at = created } in
            (
              record {
                groups = insert g.name fresh s.groups;
                reverse = enter_all g.members g.name s.reverse;
              },
              none,
            ))
    ]
  ]
]

-- Get
unfoldable pub get_group : String → MemStore → Option Group × Option GroupError
unfolding validate_name
get_group name s = elim (validate_name name) [
  | some e ↦ (none, some e)
  | none ↦ elim (lookup name s.groups) [
    | none ↦ (none, some group_not_found)
    | some g ↦ (some g, none)
  ]
]

unfoldable pub groups_of : Assoc Group → List Group
groups_of [] = []
groups_of ((key, g) ∷ rest) = g ∷ groups_of rest

-- sort.Slice by CreatedAt, the newest first.
unfoldable pub put_newest : Group → List Group → List Group
put_newest g [] = g ∷ []
put_newest g (h ∷ hs) =
    let rest = put_newest g hs in if ltb g.created_at h.created_at then h ∷ rest else g ∷ h ∷ hs

unfoldable pub newest_first : List Group → List Group
unfolding put_newest
newest_first [] = []
newest_first (g ∷ gs) = put_newest g (newest_first gs)

-- List
unfoldable pub list_groups : MemStore → List Group
unfolding groups_of newest_first
list_groups s = newest_first (groups_of s.groups)

-- The two checks that open each operation on a member.
unfoldable pub checked : String → String → Option GroupError
unfolding validate_name validate_principal_id
checked name principal_id = elim (validate_name name) [
  | some e ↦ some e
  | none ↦ validate_principal_id principal_id
]

-- AddMember, for a group that is there.
unfoldable pub add_to : ℕ → (name principal_id : String) → Group → MemStore → MemStore
unfolding contains add_reverse
add_to now name principal_id g s = if contains principal_id g.members then s else record {
  groups =
      insert name (record g { members = g.members ++ principal_id ∷ []; updated_at = now })
        s.groups;
  reverse = add_reverse principal_id name s.reverse;
}

-- AddMember
unfoldable pub add_member :
    ℕ → (name principal_id : String) → MemStore → MemStore × Option GroupError
unfolding checked add_to
add_member now name principal_id s = elim (checked name principal_id) [
  | some e ↦ (s, some e)
  | none ↦ elim (lookup name s.groups) [
    | none ↦ (s, some group_not_found)
    | some g ↦ (add_to now name principal_id g s, none)
  ]
]

-- The members without the first occurrence of one.
unfoldable pub without_first : String → List String → List String
without_first p [] = []
without_first p (m ∷ ms) = let rest = without_first p ms in if str_eq m p then ms else m ∷ rest

unfoldable pub remove_from : ℕ → (name principal_id : String) → Group → MemStore → MemStore
unfolding contains without_first remove_reverse
remove_from now name principal_id g s =
    if contains principal_id g.members
    then record {
      groups =
          insert name
            (record g { members = without_first principal_id g.members; updated_at = now })
            s.groups;
      reverse = remove_reverse principal_id name s.reverse;
    }
    else s

-- RemoveMember
unfoldable pub remove_member :
    ℕ → (name principal_id : String) → MemStore → MemStore × Option GroupError
unfolding checked remove_from
remove_member now name principal_id s = elim (checked name principal_id) [
  | some e ↦ (s, some e)
  | none ↦ elim (lookup name s.groups) [
    | none ↦ (s, some group_not_found)
    | some g ↦ (remove_from now name principal_id g s, none)
  ]
]

-- Delete
unfoldable pub delete_group : String → MemStore → MemStore × Option GroupError
unfolding validate_name leave_all
delete_group name s = elim (validate_name name) [
  | some e ↦ (s, some e)
  | none ↦ elim (lookup name s.groups) [
    | none ↦ (s, some group_not_found)
    | some g ↦ (
      record { groups = delete name s.groups; reverse = leave_all g.members name s.reverse },
      none,
    )
  ]
]

-- sort.Strings, by inserting.
unfoldable pub put_name : String → List String → List String
put_name x [] = x ∷ []
put_name x (y ∷ ys) =
    let rest = put_name x ys in if is_lt (compare y x) then y ∷ rest else x ∷ y ∷ ys

unfoldable pub sort_names : List String → List String
unfolding put_name
sort_names [] = []
sort_names (x ∷ xs) = put_name x (sort_names xs)

-- GroupsFor
unfoldable pub groups_for : String → MemStore → List String × Option GroupError
unfolding validate_principal_id sort_names
groups_for principal_id s = elim (validate_principal_id principal_id) [
  | some e ↦ ([], some e)
  | none ↦ elim (lookup principal_id s.reverse) [
    | none ↦ ([], none)
    | some set ↦ (sort_names set, none)
  ]
]
