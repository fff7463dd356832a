-- ===== src/Groups/Agreement.antt =====
-- The group store against its specification: a set of names and a relation between principals and names
-- (internal/groups/memstore.go).
use text.Mathlib.Text.{is_lt}
use Prim.Native.String.{compare}
use helion_v.Prelude.{
  String, false, ◌||◌, Option, none, some, List, [], ◌∷◌, lookup, contains, str_eq, ◌≡◌, refl, sym,
  subst, ap, ◌∙◌, arith, inl, inr, Bool-cases, Option-cases, All,
}
use helion_v.Groups.{
  Group, GroupError, MemStore, new_mem_store, validate_name, validate_principal_id, members_fault,
  checked, create, add_member, remove_member, delete_group, groups_for, sort_names, put_name,
}
use helion_v.Groups.Index.{indexed}
use helion_v.Groups.Spec.{
  in_group, is_there, View, GroupOp, creating, deleting, spec, perform, IsDistinct, spec-created,
  spec-added, spec-removed, spec-deleted, spec-there, spec-add_missing, spec-remove_missing,
  spec-delete_missing, spec-bad_name, spec-bad_members, spec-add_unchecked, spec-remove_unchecked,
  spec-delete_unchecked, adding, removing,
}
use helion_v.Groups.Refinement.{
  Refines, created-Refines, added-Refines, removed-Refines, deleted-Refines,
}

-- A creation lists nobody twice.
abbrev pub IsProper : GroupOp → Type 0
IsProper (creating now g) = IsDistinct g.members
IsProper _ = Unit

abbrev Agrees : MemStore × Option GroupError → View × Option GroupError → Type 0
Agrees a b = Refines a.0 b.0 × (a.1 ≡ b.1)

exists-of :
    (s : MemStore) (v : View)
    → Refines s v
    → (n : String) (o : Option Group) → lookup n s.groups ≡ o
    → v.exists n ≡ is_there o
exists-of s v r n o e = sym (r.there n) ∙ ap is_there e

answered_by :
    (a : MemStore × Option GroupError) {b c : View × Option GroupError}
    → b ≡ c
    → Agrees a c
    → Agrees a b
answered_by a e h = subst (λ z. Agrees a z) (sym e) h

perform-Agrees :
    (op : GroupOp) (s : MemStore) (v : View)
    → IsProper op
    → Refines s v
    → Agrees (perform op s) (spec op v)
unfolding create add_member remove_member delete_group
perform-Agrees (creating now g) s v d r = elim (Option-cases (validate_name g.name)) [
  | inr (x, q) ↦ answered_by (create now g s) (spec-bad_name v x now g q) (rw (create, q) (r, refl))
  | inl q ↦ elim (Option-cases (members_fault g.members)) [
    | inr (x, m) ↦
        answered_by (create now g s) (spec-bad_members v x now g q m) (rw (create, q, m) (r, refl))
    | inl m ↦ elim (Option-cases (lookup g.name s.groups)) [
      | inr (old, e) ↦
          answered_by (create now g s)
            (spec-there v now g q m (exists-of s v r g.name (some old) e))
            (rw (create, q, m, e) (r, refl))
      | inl e ↦
          answered_by (create now g s) (spec-created v now g q m (exists-of s v r g.name none e))
            (rw (create, q, m, e) (created-Refines s v r g.name _ e d, refl))
    ]
  ]
]
perform-Agrees (adding now name pid) s v d r = elim (Option-cases (checked name pid)) [
  | inr (x, q) ↦
      answered_by (add_member now name pid s) (spec-add_unchecked v x now name pid q)
        (rw (add_member, q) (r, refl))
  | inl q ↦ elim (Option-cases (lookup name s.groups)) [
    | inl e ↦
        answered_by (add_member now name pid s)
          (spec-add_missing v now name pid q (exists-of s v r name none e))
          (rw (add_member, q, e) (r, refl))
    | inr (g, e) ↦
        answered_by (add_member now name pid s)
          (spec-added v now name pid q (exists-of s v r name (some g) e))
          (rw (add_member, q, e) (added-Refines s v r now name pid g e, refl))
  ]
]
perform-Agrees (removing now name pid) s v d r = elim (Option-cases (checked name pid)) [
  | inr (x, q) ↦
      answered_by (remove_member now name pid s) (spec-remove_unchecked v x now name pid q)
        (rw (remove_member, q) (r, refl))
  | inl q ↦ elim (Option-cases (lookup name s.groups)) [
    | inl e ↦
        answered_by (remove_member now name pid s)
          (spec-remove_missing v now name pid q (exists-of s v r name none e))
          (rw (remove_member, q, e) (r, refl))
    | inr (g, e) ↦
        answered_by (remove_member now name pid s)
          (spec-removed v now name pid q (exists-of s v r name (some g) e))
          (rw (remove_member, q, e) (removed-Refines s v r now name pid g e, refl))
  ]
]
perform-Agrees (deleting name) s v d r = elim (Option-cases (validate_name name)) [
  | inr (x, q) ↦
      answered_by (delete_group name s) (spec-delete_unchecked v x name q)
        (rw (delete_group, q) (r, refl))
  | inl q ↦ elim (Option-cases (lookup name s.groups)) [
    | inl e ↦
        answered_by (delete_group name s)
          (spec-delete_missing v name q (exists-of s v r name none e))
          (rw (delete_group, q, e) (r, refl))
    | inr (g, e) ↦
        answered_by (delete_group name s) (spec-deleted v name q (exists-of s v r name (some g) e))
          (rw (delete_group, q, e) (deleted-Refines s v r name g e, refl))
  ]
]

-- The answers of a run of operations, and where it ends.
unfoldable pub run_store : List GroupOp → MemStore → MemStore × List (Option GroupError)
run_store [] s = (s, [])
run_store (op ∷ ops) s =
    let (s', e) = perform op s in let (final, answers) = run_store ops s' in (final, e ∷ answers)

unfoldable pub run_spec : List GroupOp → View → View × List (Option GroupError)
unfolding spec
run_spec [] v = (v, [])
run_spec (op ∷ ops) v =
    let (v', e) = spec op v in let (final, answers) = run_spec ops v' in (final, e ∷ answers)

abbrev pub nothing : View
nothing = record { exists = λ n. false; member = λ p n. false }

run-Refines :
    (ops : List GroupOp) (s : MemStore) (v : View)
    → All IsProper ops
    → Refines s v
    → Refines (run_store ops s).0 (run_spec ops v).0 × ((run_store ops s).1 ≡ (run_spec ops v).1)
unfolding run_store run_spec
run-Refines [] s v proper r = (r, refl)
run-Refines (op ∷ ops) s v (d, ds) r =
    let (r', same) = perform-Agrees op s v d r in
    let (end, answers) = run-Refines ops (perform op s).0 (spec op v).0 ds r' in
    (end, cc (same, answers))

new-Refines : Refines new_mem_store nothing
unfolding new_mem_store indexed lookup
new-Refines = record {
  there = λ n. refl;
  members = λ p n. refl;
  index = λ p n. refl;
  distinct = λ n g e. (let bad : ⊥ = ground (arith, e) in elim bad [ ]);
}

contains-put_name :
    (n x : String) (ys : List String) → contains n (put_name x ys) ≡ (str_eq x n || contains n ys)
unfolding put_name contains
contains-put_name n x [] = refl
contains-put_name n x (y ∷ ys) = elim (Bool-cases (is_lt (compare y x))) [
  | inl less ↦ rw (put_name, less) (ground (arith, contains-put_name n x ys))
  | inr more ↦ rw (put_name, more) refl
]

contains-sort_names : (n : String) (xs : List String) → contains n (sort_names xs) ≡ contains n xs
unfolding sort_names contains
contains-sort_names n [] = refl
contains-sort_names n (x ∷ xs) =
    ground (arith, contains-put_name n x (sort_names xs), contains-sort_names n xs)

groups_for-indexed :
    (p n : String) (s : MemStore)
    → validate_principal_id p ≡ none
    → contains n (groups_for p s).0 ≡ indexed p n s.reverse
unfolding groups_for indexed contains
groups_for-indexed p n s q = elim (Option-cases (lookup p s.reverse)) [
  | inl e ↦ rw (groups_for, q, e) refl
  | inr (set, e) ↦ rw (groups_for, q, e) (contains-sort_names n set)
]

-- The store refines its specification: after any sequence of creations, additions, removals and deletions on an
-- empty store, in which no creation lists a member twice, each operation has answered as the specification does, the
-- same groups exist with the same members, and for a valid principal GroupsFor lists exactly the groups that it is in.
pub groups_refine :
    (ops : List GroupOp)
    → All IsProper ops
    → let (s, answers) = run_store ops new_mem_store in
      let (v, expected) = run_spec ops nothing in
      (answers ≡ expected)
      × ((n : String) → is_there (lookup n s.groups) ≡ v.exists n)
      × ((p n : String) → in_group p (lookup n s.groups) ≡ v.member p n)
      × ((p n : String)
          → validate_principal_id p ≡ none
          → contains n (groups_for p s).0 ≡ v.member p n)
groups_refine ops proper =
    let (r, same) = run-Refines ops new_mem_store nothing proper new-Refines in
    (
      same,
      r.there,
      r.members,
      λ p n q. groups_for-indexed p n (run_store ops new_mem_store).0 q ∙ r.index p n,
    )
