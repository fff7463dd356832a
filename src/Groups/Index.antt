-- ===== src/Groups/Index.antt =====
-- The reverse index of the group store (internal/groups/memstore.go), and what it answers.
use helion_v.Prelude.{
  String, Bool, false, not, ◌&&◌, ◌||◌, Option, none, some, List, [], ◌∷◌, ◌++◌, Assoc, lookup,
  insert, delete, select, lookup-insert, lookup-delete, contains, contains-snoc, str_eq, eq_iff,
  if◌then◌else◌, ◌≡◌, arith, inl, inr, Bool-cases, Option-cases,
}

abbrev pub Reverse : Type 0
Reverse = Assoc (List String)

-- addReverseLocked
unfoldable pub add_reverse : (principal_id group_name : String) → Reverse → Reverse
unfolding contains
add_reverse principal_id group_name rev = elim (lookup principal_id rev) [
  | none ↦ insert principal_id (group_name ∷ []) rev
  | some set ↦
      if contains group_name set then rev else insert principal_id (set ++ group_name ∷ []) rev
]

-- The set that delete leaves, and the entry's removal when that is empty.
unfoldable pub shrink : (principal_id : String) → List String → Reverse → Reverse
shrink principal_id [] rev = delete principal_id rev
shrink principal_id (x ∷ xs) rev = insert principal_id (x ∷ xs) rev

-- removeReverseLocked
unfoldable pub remove_reverse : (principal_id group_name : String) → Reverse → Reverse
unfolding shrink
remove_reverse principal_id group_name rev = elim (lookup principal_id rev) [
  | none ↦ rev
  | some set ↦ shrink principal_id (select (λ name. not (str_eq name group_name)) set) rev
]

abbrev pub in_set : String → Option (List String) → Bool
in_set n none = false
in_set n (some set) = contains n set

-- Whether the index has the group for the principal.
unfoldable pub indexed : (p n : String) → Reverse → Bool
indexed p n rev = in_set n (lookup p rev)

pub indexed-add_reverse :
    (p n q m : String) (rev : Reverse)
    → indexed p n (add_reverse q m rev) ≡ ((str_eq q p && str_eq m n) || indexed p n rev)
unfolding indexed add_reverse contains
indexed-add_reverse p n q m rev = elim (Option-cases (lookup q rev)) [
  | inl e ↦ rw (add_reverse, e) (ground (arith, lookup-insert q p (m ∷ []) rev, e, eq_iff q p))
  | inr (set, e) ↦ elim (Bool-cases (contains m set)) [
    | inl old ↦ rw (add_reverse, e, old) (ground (arith, e, old, eq_iff q p, eq_iff m n))
    | inr new ↦
        rw (add_reverse, e, new)
          (ground
            (arith, lookup-insert q p (set ++ m ∷ []) rev, contains-snoc n m set, e, eq_iff q p))
  ]
]

contains-others :
    (n m : String) (set : List String)
    → contains n (select (λ name. not (str_eq name m)) set) ≡ (not (str_eq m n) && contains n set)
unfolding contains
contains-others n m [] = ground arith
contains-others n m (x ∷ set) =
    ground (arith, contains-others n m set, eq_iff x n, eq_iff m n, eq_iff x m)

indexed-shrink :
    (p n q : String) (left : List String) (rev : Reverse)
    → indexed p n (shrink q left rev) ≡ (if str_eq q p then contains n left else indexed p n rev)
unfolding indexed shrink contains
indexed-shrink p n q [] rev = ground (arith, lookup-delete q p rev)
indexed-shrink p n q (x ∷ xs) rev = ground (arith, lookup-insert q p (x ∷ xs) rev)

pub indexed-remove_reverse :
    (p n q m : String) (rev : Reverse)
    → indexed p n (remove_reverse q m rev) ≡ (not (str_eq q p && str_eq m n) && indexed p n rev)
unfolding indexed remove_reverse contains
indexed-remove_reverse p n q m rev = elim (Option-cases (lookup q rev)) [
  | inl e ↦
      rw (remove_reverse, e)
        (elim (Bool-cases (str_eq q p)) [
          | inl same ↦ ground (arith, e, eq_iff q p)
          | inr other ↦ ground (arith, other)
        ])
  | inr (set, e) ↦
      rw (remove_reverse, e)
        (ground (
          arith,
          indexed-shrink p n q (select (λ name. not (str_eq name m)) set) rev,
          contains-others n m set,
          e,
          eq_iff q p,
        ))
]
