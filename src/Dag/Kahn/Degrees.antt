-- ===== src/Dag/Kahn/Degrees.antt =====
-- The graph that TopologicalSort builds: degrees and adjacency count the dependencies.
use native.Mathlib.Nat.{mod-eq_of_lt}
use helion_v.Prelude.{
  ℕ, ◌+◌, ◌%◌, ◌^◌, ◌<◌, String, List, [], ◌∷◌, ◌++◌, Assoc, lookup, insert, lookup-insert, length,
  length-append, count, count-append, ◌≡◌, refl, ◌∙◌, arith, str_eq, eq_iff, if◌then◌else◌,
  Bool-cases, Option-cases, inl, inr, ◌==◌, ◌&&◌,
}
use helion_v.Workflow.{WorkflowJob}
use helion_v.Dag.Sort.{degree, children, Graph, add_deps, declare, build_graph, seed}
use helion_v.Dag.Checks.{job_names}
use helion_v.Dag.From.{total_deps}
use helion_v.Dag.Edges.{children-insert}

-- The dependencies of the jobs of this name.
unfoldable pub deps_named : List WorkflowJob → String → List String
deps_named [] x = []
deps_named (j ∷ js) x =
    let rest = deps_named js x in if str_eq j.name x then j.depends_on ++ rest else rest

pub degree-insert :
    (k a : String) (d : ℕ) (m : Assoc ℕ)
    → degree (insert k d m) a ≡ (if str_eq k a then d else degree m a)
unfolding degree
degree-insert k a d m = ground (arith, lookup-insert k a d m)

degree-declare :
    (name x : String) (g : Graph) → degree (declare name g).in_degree x ≡ degree g.in_degree x
unfolding degree
degree-declare name x g = elim (Option-cases (lookup name g.in_degree)) [
  | inr (d, e) ↦ rw (e, declare) refl
  | inl e ↦ rw (e, declare) (ground (arith, lookup-insert name x 0 g.in_degree, eq_iff name x))
]

downstream-declare : (name : String) (g : Graph) → (declare name g).downstream ≡ g.downstream
downstream-declare name g = elim (Option-cases (lookup name g.in_degree)) [
  | inr (d, e) ↦ rw (e, declare) refl
  | inl e ↦ rw (e, declare) refl
]

-- The degree of `name` goes up by one, without an overflow.
degree-step :
    (name x : String) (m : Assoc ℕ)
    → degree m x + 1 < 2 ^ 64
    → degree (insert name ((degree m name + 1) % 2 ^ 64) m) x
      ≡ degree m x + (if str_eq name x then 1 else 0)
degree-step name x m h = elim (Bool-cases (str_eq name x)) [
  | inr n ↦ rw (degree-insert, n) (omega arith)
  | inl y ↦ (let e = (eq_iff name x).0 y in rw (degree-insert, y, e) (mod-eq_of_lt h))
]

abbrev with_dep : String → String → Graph → Graph
with_dep name dep g = record {
  in_degree = insert name ((degree g.in_degree name + 1) % 2 ^ 64) g.in_degree;
  downstream = insert dep (children g.downstream dep ++ name ∷ []) g.downstream;
}

degree-add_deps :
    (name : String) (deps : List String) (g : Graph) (x : String)
    → degree g.in_degree x + length deps < 2 ^ 64
    → degree (add_deps name deps g).in_degree x
      ≡ degree g.in_degree x + (if str_eq name x then length deps else 0)
unfolding add_deps
degree-add_deps name [] g x h = ground arith
degree-add_deps name (dep ∷ deps) g x h =
    let one = degree-step name x g.in_degree (omega (arith, h)) in
    let bound : degree (with_dep name dep g).in_degree x + length deps < 2 ^ 64 =
      ground (arith, one, h) in
    degree-add_deps name deps (with_dep name dep g) x bound ∙ ground (arith, one)

count-with_dep :
    (name dep : String) (g : Graph) (a x : String)
    → count x (children (with_dep name dep g).downstream a)
      ≡ count x (children g.downstream a) + (if str_eq dep a && str_eq name x then 1 else 0)
unfolding count
count-with_dep name dep g a x = elim (Bool-cases (str_eq dep a)) [
  | inr n ↦ rw (children-insert, n) (omega arith)
  | inl y ↦
      let e = (eq_iff dep a).0 y in
      rw (children-insert, y, e)
        (ground (arith, count-append x (children g.downstream a) (name ∷ [])))
]

count-add_deps :
    (name : String) (deps : List String) (g : Graph) (a x : String)
    → count x (children (add_deps name deps g).downstream a)
      ≡ count x (children g.downstream a) + (if str_eq name x then count a deps else 0)
unfolding add_deps count
count-add_deps name [] g a x = ground arith
count-add_deps name (dep ∷ deps) g a x =
    count-add_deps name deps (with_dep name dep g) a x
    ∙ ground (arith, count-with_dep name dep g a x)

-- Both sums over the jobs.
pub degree-build_graph :
    (jobs : List WorkflowJob) (g : Graph) (x : String)
    → degree g.in_degree x + total_deps jobs < 2 ^ 64
    → degree (build_graph jobs g).in_degree x ≡ degree g.in_degree x + length (deps_named jobs x)
unfolding build_graph deps_named total_deps
degree-build_graph [] g x h = omega arith
degree-build_graph (j ∷ js) g x h =
    let same = degree-declare j.name x g in
    let one = degree-add_deps j.name j.depends_on (declare j.name g) x (omega (arith, same, h)) in
    let bound : degree (add_deps j.name j.depends_on (declare j.name g)).in_degree x + total_deps js
        < 2 ^ 64 =
      ground (arith, one, same, h) in
    degree-build_graph js (add_deps j.name j.depends_on (declare j.name g)) x bound
    ∙ ground (arith, one, same, length-append j.depends_on (deps_named js x))

pub count-build_graph :
    (jobs : List WorkflowJob) (g : Graph) (a x : String)
    → count x (children (build_graph jobs g).downstream a)
      ≡ count x (children g.downstream a) + count a (deps_named jobs x)
unfolding build_graph deps_named count
count-build_graph [] g a x = ground arith
count-build_graph (j ∷ js) g a x =
    count-build_graph js (add_deps j.name j.depends_on (declare j.name g)) a x
    ∙ ground (
      arith,
      count-add_deps j.name j.depends_on (declare j.name g) a x,
      count-append a j.depends_on (deps_named js x),
      downstream-declare j.name g,
    )

pub count-seed :
    (jobs : List WorkflowJob) (m : Assoc ℕ) (x : String)
    → count x (seed jobs m) ≡ (if degree m x == 0 then count x (job_names jobs) else 0)
unfolding seed count
count-seed [] m x = ground arith
count-seed (j ∷ js) m x = ground (arith, count-seed js m x, eq_iff j.name x)
