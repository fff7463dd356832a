-- ===== src/Dag/Edges.antt =====
-- The edges of a workflow: `b` depends on `a`. The adjacency list holds exactly these.
use helion_v.Prelude.{
  String, List, [], ◌∷◌, ◌++◌, Assoc, In, here, there, lookup, insert, lookup-insert, length,
  length-append, ◌≡◌, ◌⊎◌, inl, inr, refl, sym, arith, str_eq, eq_iff, Bool-cases, if◌then◌else◌,
  subst, ap, ◌∙◌,
}
use helion_v.Workflow.{WorkflowJob}
use helion_v.Dag.Sort.{children}
use helion_v.Dag.From.{total_deps}
use helion_v.Dag.Reach.{add_children, downstream_of}

pub data Edge (jobs : List WorkflowJob) (a b : String) : Type 0 where
  edge : (j : WorkflowJob) → In j jobs → In a j.depends_on → j.name ≡ b → Edge jobs a b

-- `b` depends on `a`, or on something that depends on it.
pub data Below (jobs : List WorkflowJob) (a : String) : String → Type 0 where
  one : {b : String} → Edge jobs a b → Below jobs a b
  more : {b c : String} → Below jobs a b → Edge jobs b c → Below jobs a c

Edge-there :
    {j : WorkflowJob} {js : List WorkflowJob} {a b : String} → Edge js a b → Edge (j ∷ js) a b
Edge-there (edge j i d e) = edge j (there i) d e

module _ {ℓ} {A : Type ℓ} where
  pub In-append_left : {x : A} {xs : List A} (ys : List A) → In x xs → In x (xs ++ ys)
  In-append_left ys (here e) = here e
  In-append_left ys (there i) = there (In-append_left ys i)

  pub In-append_right : {x : A} (xs : List A) {ys : List A} → In x ys → In x (xs ++ ys)
  In-append_right [] i = i
  In-append_right (y ∷ xs) i = there (In-append_right xs i)

  pub append-In : {x : A} (xs : List A) {ys : List A} → In x (xs ++ ys) → In x xs ⊎ In x ys
  append-In [] i = inr i
  append-In (y ∷ xs) (here e) = inl (here e)
  append-In (y ∷ xs) (there i) = elim (append-In xs i) [ inl k ↦ inl (there k) | inr k ↦ inr k ]

pub children-insert :
    (k a : String) (xs : List String) (m : Assoc (List String))
    → children (insert k xs m) a ≡ (if str_eq k a then xs else children m a)
unfolding children
children-insert k a xs m = ground (arith, lookup-insert k a xs m)

-- One dependency more.
module _ (name dep a b : String) (down : Assoc (List String)) where
  abbrev added : Assoc (List String)
  added = insert dep (children down dep ++ name ∷ []) down

  added-In : In b (children added a) → In b (children down a) ⊎ ((dep ≡ a) × (name ≡ b))
  added-In i = elim (Bool-cases (str_eq dep a)) [
    | inr n ↦ inl (rw (children-insert, n) at i)
    | inl y ↦
        let e = (eq_iff dep a).0 y in
        elim (append-In (children down dep) (rw (children-insert, y) at i)) [
          | inl k ↦ inl (rw (← e) k)
          | inr k ↦ elim k [ here f ↦ inr (e, f) | there z ↦ elim z [ ] ]
        ]
  ]

  In-added : In b (children down a) → In b (children added a)
  In-added i = elim (Bool-cases (str_eq dep a)) [
    | inr n ↦ rw (children-insert, n) i
    | inl y ↦
        let e = (eq_iff dep a).0 y in rw (children-insert, y) (In-append_left (name ∷ []) (rw e i))
  ]

  new-In-added : dep ≡ a → name ≡ b → In b (children added a)
  new-In-added e f =
      rw (children-insert, (eq_iff dep a).1 e) (In-append_right (children down dep) (here f))

module _ (name a b : String) where
  add_children-In :
      (deps : List String) (down : Assoc (List String))
      → In b (children (add_children name deps down) a)
      → In b (children down a) ⊎ (In a deps × (name ≡ b))
  unfolding add_children
  add_children-In [] down i = inl i
  add_children-In (dep ∷ deps) down i = elim (add_children-In deps (added name dep a b down) i) [
    | inr (k, e) ↦ inr (there k, e)
    | inl k ↦ elim (added-In name dep a b down k) [ inl z ↦ inl z | inr (e, f) ↦ inr (here e, f) ]
  ]

  In-add_children :
      (deps : List String) (down : Assoc (List String))
      → In b (children down a)
      → In b (children (add_children name deps down) a)
  unfolding add_children
  In-add_children [] down i = i
  In-add_children (dep ∷ deps) down i =
      In-add_children deps (added name dep a b down) (In-added name dep a b down i)

  new-In-add_children :
      (deps : List String) (down : Assoc (List String))
      → In a deps
      → name ≡ b
      → In b (children (add_children name deps down) a)
  unfolding add_children
  new-In-add_children [] down k f = elim k [ ]
  new-In-add_children (dep ∷ deps) down (here e) f =
      In-add_children deps (added name dep a b down) (new-In-added name dep a b down e f)
  new-In-add_children (dep ∷ deps) down (there k) f =
      new-In-add_children deps (added name dep a b down) k f

module _ (a b : String) where
  downstream_of-In :
      (jobs : List WorkflowJob) (down : Assoc (List String))
      → In b (children (downstream_of jobs down) a)
      → In b (children down a) ⊎ Edge jobs a b
  unfolding downstream_of
  downstream_of-In [] down i = inl i
  downstream_of-In (j ∷ js) down i =
      elim (downstream_of-In js (add_children j.name j.depends_on down) i) [
        | inr e ↦ inr (Edge-there e)
        | inl k ↦ elim (add_children-In j.name a b j.depends_on down k) [
          | inl z ↦ inl z
          | inr (d, e) ↦ inr (edge j (here refl) d e)
        ]
      ]

  In-downstream_of :
      (jobs : List WorkflowJob) (down : Assoc (List String))
      → In b (children down a)
      → In b (children (downstream_of jobs down) a)
  unfolding downstream_of
  In-downstream_of [] down i = i
  In-downstream_of (j ∷ js) down i =
      In-downstream_of js (add_children j.name j.depends_on down)
        (In-add_children j.name a b j.depends_on down i)

  pub Edge-downstream_of :
      (jobs : List WorkflowJob) (down : Assoc (List String))
      → Edge jobs a b
      → In b (children (downstream_of jobs down) a)
  unfolding downstream_of
  Edge-downstream_of [] down (edge j i d e) = elim i [ ]
  Edge-downstream_of (x ∷ js) down (edge j (here s) d e) =
      In-downstream_of js (add_children x.name x.depends_on down) (
        new-In-add_children x.name a b x.depends_on down (subst (λ z. In a z.depends_on) (sym s) d)
          (ap (λ z. z.name) s ∙ e))
  Edge-downstream_of (x ∷ js) down (edge j (there i) d e) =
      Edge-downstream_of js (add_children x.name x.depends_on down) (edge j i d e)

  pub children-Edge :
      (jobs : List WorkflowJob) → In b (children (downstream_of jobs []) a) → Edge jobs a b
  unfolding children lookup
  children-Edge jobs i = elim (downstream_of-In jobs [] i) [ inl z ↦ elim z [ ] | inr e ↦ e ]

-- The heads of the edges, once for each edge.
abbrev times : String → List String → List String
times name [] = []
times name (dep ∷ deps) = name ∷ times name deps

abbrev pub targets : List WorkflowJob → List String
targets [] = []
targets (j ∷ js) = times j.name j.depends_on ++ targets js

length-times : (name : String) (deps : List String) → length (times name deps) ≡ length deps
length-times name [] = refl
length-times name (dep ∷ deps) = omega (arith, length-times name deps)

pub length-targets : (jobs : List WorkflowJob) → length (targets jobs) ≡ total_deps jobs
unfolding total_deps
length-targets [] = refl
length-targets (j ∷ js) = omega (
  arith,
  length-append (times j.name j.depends_on) (targets js),
  length-times j.name j.depends_on,
  length-targets js,
)

In-times : (name a : String) (deps : List String) → In a deps → In name (times name deps)
In-times name a [] i = elim i [ ]
In-times name a (dep ∷ deps) i = here refl

pub Edge-targets : (a b : String) (jobs : List WorkflowJob) → Edge jobs a b → In b (targets jobs)
Edge-targets a b [] (edge j i d e) = elim i [ ]
Edge-targets a b (x ∷ js) (edge j (here s) d e) = In-append_left (targets js) (
    subst (λ z. In z (times x.name x.depends_on)) (ap (λ z. z.name) s ∙ e)
      (In-times x.name a x.depends_on (subst (λ z. In a z.depends_on) (sym s) d)))
Edge-targets a b (x ∷ js) (edge j (there i) d e) =
    In-append_right (times x.name x.depends_on) (Edge-targets a b js (edge j i d e))
