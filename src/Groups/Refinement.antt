-- ===== src/Groups/Refinement.antt =====
-- How each change of the group store refines the specification's (internal/groups/memstore.go).
use helion_v.Prelude.{
  ℕ, ◌≤◌, String, false, not, ◌&&◌, ◌||◌, none, some, List, [], ◌∷◌, ◌++◌, Assoc, lookup, insert,
  delete, lookup-insert, lookup-insert_at, lookup-delete, contains, contains-snoc, contains-count,
  count, count-append, str_eq, eq_iff, if◌then◌else◌, ◌≡◌, sym, subst, some_cancel, ◌∙◌, arith, inl,
  inr, Bool-cases,
}
use helion_v.Groups.{
  Group, MemStore, add_to, remove_from, enter_all, leave_all, without_first, add_reverse,
  remove_reverse,
}
use helion_v.Groups.Index.{Reverse, indexed, indexed-add_reverse, indexed-remove_reverse}
use helion_v.Groups.Spec.{in_group, is_there, View, IsDistinct}

-- The store stands for the state: its two maps say the same of who is in which group.
pub record Refines (s : MemStore) (v : View) : Type 0 where
  pub there : (n : String) → is_there (lookup n s.groups) ≡ v.exists n
  pub members : (p n : String) → in_group p (lookup n s.groups) ≡ v.member p n
  pub index : (p n : String) → indexed p n s.reverse ≡ v.member p n
  pub distinct : (n : String) (g : Group) → lookup n s.groups ≡ some g → IsDistinct g.members

pub indexed-enter_all :
    (p n name : String) (ms : List String) (rev : Reverse)
    → indexed p n (enter_all ms name rev) ≡ ((contains p ms && str_eq name n) || indexed p n rev)
unfolding enter_all contains
indexed-enter_all p n name [] rev = ground arith
indexed-enter_all p n name (m ∷ ms) rev = ground (
  arith,
  indexed-enter_all p n name ms (add_reverse m name rev),
  indexed-add_reverse p n m name rev,
)

pub indexed-leave_all :
    (p n name : String) (ms : List String) (rev : Reverse)
    → indexed p n (leave_all ms name rev)
      ≡ (not (contains p ms && str_eq name n) && indexed p n rev)
unfolding leave_all contains
indexed-leave_all p n name [] rev = ground arith
indexed-leave_all p n name (m ∷ ms) rev = ground (
  arith,
  indexed-leave_all p n name ms (remove_reverse m name rev),
  indexed-remove_reverse p n m name rev,
)

pub count-without_first :
    (x p : String) (ms : List String) → count x (without_first p ms) ≤ count x ms
unfolding count without_first
count-without_first x p [] = omega arith
count-without_first x p (m ∷ ms) = ground (arith, count-without_first x p ms)

-- Where a principal stands once, its removal takes it out.
pub contains-without_first :
    (x p : String) (ms : List String)
    → count p ms ≤ 1
    → contains x (without_first p ms) ≡ (not (str_eq p x) && contains x ms)
unfolding count contains without_first
contains-without_first x p [] h = ground arith
contains-without_first x p (m ∷ ms) h =
    ground (
      arith,
      contains-without_first x p ms,
      contains-count p ms,
      eq_iff m p,
      eq_iff m x,
      eq_iff p x,
    )

pub count-one : (p q : String) → count p (q ∷ []) ≡ (if str_eq q p then 1 else 0)
unfolding count
count-one p q = ground arith

-- A change of one group's entry keeps the lists of members free of repetitions.
pub IsDistinct-insert :
    (name : String) (g' : Group) (groups : Assoc Group)
    → IsDistinct g'.members
    → ((n : String) (g : Group) → lookup n groups ≡ some g → IsDistinct g.members)
    → (n : String) (g : Group) → lookup n (insert name g' groups) ≡ some g
    → IsDistinct g.members
IsDistinct-insert name g' groups d ds n g e = elim (Bool-cases (str_eq name n)) [
  | inl same ↦
      subst (λ z. IsDistinct z.members)
        (some_cancel (sym (lookup-insert_at name n g' groups ((eq_iff name n).0 same)) ∙ e)) d
  | inr other ↦
      (let kept : lookup n (insert name g' groups) ≡ lookup n groups =
          ground (arith, lookup-insert name n g' groups, other) in
        ds n g (sym kept ∙ e))
]

pub IsDistinct-delete :
    (name : String) (groups : Assoc Group)
    → ((n : String) (g : Group) → lookup n groups ≡ some g → IsDistinct g.members)
    → (n : String) (g : Group) → lookup n (delete name groups) ≡ some g
    → IsDistinct g.members
IsDistinct-delete name groups ds n g e = elim (Bool-cases (str_eq name n)) [
  | inl same ↦ (let bad : ⊥ = ground (arith, e, lookup-delete name n groups, same) in elim bad [ ])
  | inr other ↦
      (let kept : lookup n (delete name groups) ≡ lookup n groups =
          ground (arith, lookup-delete name n groups, other) in
        ds n g (sym kept ∙ e))
]

module _ (s : MemStore) (v : View) (r : Refines s v) where
  pub created-Refines :
      (name : String) (g : Group)
      → lookup name s.groups ≡ none
      → IsDistinct g.members
      → Refines
          (record { groups = insert name g s.groups; reverse = enter_all g.members name s.reverse })
          (record {
            exists = λ n. str_eq name n || v.exists n;
            member = λ p n. if str_eq name n then contains p g.members else v.member p n;
          })
  created-Refines name g e d = record {
    there = λ n. ground (arith, lookup-insert name n g s.groups, r.there n);
    members = λ p n. ground (arith, lookup-insert name n g s.groups, r.members p n);
    index = λ p n. ground (
      arith,
      indexed-enter_all p n name g.members s.reverse,
      r.index p n,
      r.members p n,
      e,
      eq_iff name n,
    );
    distinct = IsDistinct-insert name g s.groups d r.distinct;
  }

  pub added-Refines :
      (now : ℕ) (name pid : String) (g : Group)
      → lookup name s.groups ≡ some g
      → Refines
          (add_to now name pid g s)
          (record v { member = λ p n. (str_eq pid p && str_eq name n) || v.member p n })
  unfolding add_to
  added-Refines now name pid g e = elim (Bool-cases (contains pid g.members)) [
    | inl old ↦
        rw (add_to, old)
          (record {
            there = r.there;
            members = λ p n. ground (arith, r.members p n, e, old, eq_iff pid p, eq_iff name n);
            index = λ p n.
                ground (arith, r.index p n, r.members p n, e, old, eq_iff pid p, eq_iff name n);
            distinct = r.distinct;
          })
    | inr new ↦
        (let g' : Group = record g { members = g.members ++ pid ∷ []; updated_at = now } in
          rw (add_to, new)
            (record {
              there = λ n.
                  ground (arith, r.there n, lookup-insert name n g' s.groups, e, eq_iff name n);
              members = λ p n. ground (
                arith,
                r.members p n,
                lookup-insert name n g' s.groups,
                e,
                eq_iff name n,
                contains-snoc p pid g.members,
              );
              index =
                  λ p n. ground (arith, r.index p n, indexed-add_reverse p n pid name s.reverse);
              distinct =
                  IsDistinct-insert name g' s.groups (λ p. once p g (r.distinct name g e p) new)
                    r.distinct;
            }))
  ]
    where
      once :
          (p : String) (g : Group)
          → count p g.members ≤ 1
          → contains pid g.members ≡ false
          → count p (g.members ++ pid ∷ []) ≤ 1
      once p g h new = ground (
        arith,
        count-append p g.members (pid ∷ []),
        count-one p pid,
        contains-count pid g.members,
        eq_iff pid p,
      )

  pub removed-Refines :
      (now : ℕ) (name pid : String) (g : Group)
      → lookup name s.groups ≡ some g
      → Refines
          (remove_from now name pid g s)
          (record v { member = λ p n. not (str_eq pid p && str_eq name n) && v.member p n })
  unfolding remove_from
  removed-Refines now name pid g e = elim (Bool-cases (contains pid g.members)) [
    | inr absent ↦
        rw (remove_from, absent)
          (record {
            there = r.there;
            members = λ p n. ground (arith, r.members p n, e, absent, eq_iff pid p, eq_iff name n);
            index = λ p n.
                ground (arith, r.index p n, r.members p n, e, absent, eq_iff pid p, eq_iff name n);
            distinct = r.distinct;
          })
    | inl present ↦
        (let g' : Group = record g { members = without_first pid g.members; updated_at = now } in
          rw (remove_from, present)
            (record {
              there = λ n.
                  ground (arith, r.there n, lookup-insert name n g' s.groups, e, eq_iff name n);
              members = λ p n. ground (
                arith,
                r.members p n,
                lookup-insert name n g' s.groups,
                e,
                eq_iff name n,
                contains-without_first p pid g.members (r.distinct name g e pid),
              );
              index =
                  λ p n. ground (arith, r.index p n, indexed-remove_reverse p n pid name s.reverse);
              distinct =
                  IsDistinct-insert name g' s.groups
                    (λ p. omega (arith, count-without_first p pid g.members, r.distinct name g e p))
                    r.distinct;
            }))
  ]

  pub deleted-Refines :
      (name : String) (g : Group)
      → lookup name s.groups ≡ some g
      → Refines
          (record { groups = delete name s.groups; reverse = leave_all g.members name s.reverse })
          (record {
            exists = λ n. not (str_eq name n) && v.exists n;
            member = λ p n. not (str_eq name n) && v.member p n;
          })
  deleted-Refines name g e = record {
    there = λ n. ground (arith, r.there n, lookup-delete name n s.groups);
    members = λ p n. ground (arith, r.members p n, lookup-delete name n s.groups);
    index = λ p n. ground (
      arith,
      r.index p n,
      r.members p n,
      indexed-leave_all p n name g.members s.reverse,
      e,
      eq_iff name n,
    );
    distinct = IsDistinct-delete name s.groups r.distinct;
  }
