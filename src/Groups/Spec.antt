-- ===== src/Groups/Spec.antt =====
-- The specification of the group store: a set of names and a relation between principals and names.
use helion_v.Prelude.{
  ℕ, ◌≤◌, String, Bool, true, false, not, ◌&&◌, ◌||◌, Option, none, some, List, contains, count,
  str_eq, if◌then◌else◌, ◌≡◌, refl,
}
use helion_v.Groups.{
  Group, GroupError, group_exists, group_not_found, MemStore, validate_name, members_fault, checked,
  create, add_member, remove_member, delete_group,
}

abbrev pub in_group : String → Option Group → Bool
in_group p none = false
in_group p (some g) = contains p g.members

abbrev pub is_there : Option Group → Bool
is_there none = false
is_there (some g) = true

-- The specification's state: which groups there are, and who is in them.
pub record View : Type 0 where
  pub exists : String → Bool
  pub member : (p n : String) → Bool

pub data GroupOp : Type 0 where
  creating : (now : ℕ) → Group → GroupOp
  adding removing : (now : ℕ) → (name principal_id : String) → GroupOp
  deleting : (name : String) → GroupOp

-- What each operation does to the specification's state, and what it answers.
unfoldable pub spec : GroupOp → View → View × Option GroupError
unfolding validate_name members_fault checked
spec (creating now g) v = elim (validate_name g.name) [
  | some e ↦ (v, some e)
  | none ↦ elim (members_fault g.members) [
    | some e ↦ (v, some e)
    | none ↦ if v.exists g.name then (v, some group_exists) else (
      record {
        exists = λ n. str_eq g.name n || v.exists n;
        member = λ p n. if str_eq g.name n then contains p g.members else v.member p n;
      },
      none,
    )
  ]
]
spec (adding now name pid) v = elim (checked name pid) [
  | some e ↦ (v, some e)
  | none ↦
      if v.exists name
      then (record v { member = λ p n. (str_eq pid p && str_eq name n) || v.member p n }, none)
      else (v, some group_not_found)
]
spec (removing now name pid) v = elim (checked name pid) [
  | some e ↦ (v, some e)
  | none ↦
      if v.exists name
      then (record v { member = λ p n. not (str_eq pid p && str_eq name n) && v.member p n }, none)
      else (v, some group_not_found)
]
spec (deleting name) v = elim (validate_name name) [
  | some e ↦ (v, some e)
  | none ↦
      if v.exists name
      then (
        record {
          exists = λ n. not (str_eq name n) && v.exists n;
          member = λ p n. not (str_eq name n) && v.member p n;
        },
        none,
      )
      else (v, some group_not_found)
]

abbrev pub perform : GroupOp → MemStore → MemStore × Option GroupError
perform (creating now g) s = create now g s
perform (adding now name pid) s = add_member now name pid s
perform (removing now name pid) s = remove_member now name pid s
perform (deleting name) s = delete_group name s

-- No principal stands twice in a list of members.
abbrev pub IsDistinct : List String → Type 0
IsDistinct members = (p : String) → count p members ≤ 1

-- What the specification does past the checks.
module _ (v : View) where
  pub spec-created :
      (now : ℕ) (g : Group)
      → validate_name g.name ≡ none
      → members_fault g.members ≡ none
      → v.exists g.name ≡ false
      → spec (creating now g) v ≡ (
        record {
          exists = λ n. str_eq g.name n || v.exists n;
          member = λ p n. if str_eq g.name n then contains p g.members else v.member p n;
        },
        none,
      )
  unfolding spec
  spec-created now g q m e = rw (spec, q, m, e) refl

  pub spec-added :
      (now : ℕ) (name pid : String)
      → checked name pid ≡ none
      → v.exists name ≡ true
      → spec (adding now name pid) v
        ≡ (record v { member = λ p n. (str_eq pid p && str_eq name n) || v.member p n }, none)
  unfolding spec
  spec-added now name pid q e = rw (spec, q, e) refl

  pub spec-removed :
      (now : ℕ) (name pid : String)
      → checked name pid ≡ none
      → v.exists name ≡ true
      → spec (removing now name pid) v
        ≡ (record v { member = λ p n. not (str_eq pid p && str_eq name n) && v.member p n }, none)
  unfolding spec
  spec-removed now name pid q e = rw (spec, q, e) refl

  pub spec-deleted :
      (name : String)
      → validate_name name ≡ none
      → v.exists name ≡ true
      → spec (deleting name) v ≡ (
        record {
          exists = λ n. not (str_eq name n) && v.exists n;
          member = λ p n. not (str_eq name n) && v.member p n;
        },
        none,
      )
  unfolding spec
  spec-deleted name q e = rw (spec, q, e) refl

  -- A refusal leaves the state.
  pub spec-there :
      (now : ℕ) (g : Group)
      → validate_name g.name ≡ none
      → members_fault g.members ≡ none
      → v.exists g.name ≡ true
      → spec (creating now g) v ≡ (v, some group_exists)
  unfolding spec
  spec-there now g q m e = rw (spec, q, m, e) refl

  pub spec-add_missing :
      (now : ℕ) (name pid : String)
      → checked name pid ≡ none
      → v.exists name ≡ false
      → spec (adding now name pid) v ≡ (v, some group_not_found)
  unfolding spec
  spec-add_missing now name pid q e = rw (spec, q, e) refl

  pub spec-remove_missing :
      (now : ℕ) (name pid : String)
      → checked name pid ≡ none
      → v.exists name ≡ false
      → spec (removing now name pid) v ≡ (v, some group_not_found)
  unfolding spec
  spec-remove_missing now name pid q e = rw (spec, q, e) refl

  pub spec-delete_missing :
      (name : String)
      → validate_name name ≡ none
      → v.exists name ≡ false
      → spec (deleting name) v ≡ (v, some group_not_found)
  unfolding spec
  spec-delete_missing name q e = rw (spec, q, e) refl

module _ (v : View) (x : GroupError) where
  pub spec-bad_name :
      (now : ℕ) (g : Group) → validate_name g.name ≡ some x → spec (creating now g) v ≡ (v, some x)
  unfolding spec
  spec-bad_name now g q = rw (spec, q) refl

  pub spec-bad_members :
      (now : ℕ) (g : Group)
      → validate_name g.name ≡ none
      → members_fault g.members ≡ some x
      → spec (creating now g) v ≡ (v, some x)
  unfolding spec
  spec-bad_members now g q m = rw (spec, q, m) refl

  pub spec-add_unchecked :
      (now : ℕ) (name pid : String)
      → checked name pid ≡ some x
      → spec (adding now name pid) v ≡ (v, some x)
  unfolding spec
  spec-add_unchecked now name pid q = rw (spec, q) refl

  pub spec-remove_unchecked :
      (now : ℕ) (name pid : String)
      → checked name pid ≡ some x
      → spec (removing now name pid) v ≡ (v, some x)
  unfolding spec
  spec-remove_unchecked now name pid q = rw (spec, q) refl

  pub spec-delete_unchecked :
      (name : String) → validate_name name ≡ some x → spec (deleting name) v ≡ (v, some x)
  unfolding spec
  spec-delete_unchecked name q = rw (spec, q) refl
