-- ===== src/Dag/Kahn/Result.antt =====
-- What TopologicalSort answers.
use helion_v.Prelude.{
  lookup, ℕ, zero, suc, ◌+◌, ◌^◌, ◌<◌, String, true, false, some, List, [], ◌∷◌, ◌++◌, Assoc, In,
  here, there, length, count, contains, contains-count, In-count, count-In, unseen, unseen-nil,
  unseen-zero, unseen-pos, ◌≡◌, ◌≢◌, ◌⊎◌, refl, sym, ap, ◌∙◌, arith, Bool-cases, inl, inr, ◌==◌,
  ltb, subst,
}
use helion_v.Workflow.{WorkflowJob}
use helion_v.Dag.Sort.{
  degree, children, drain, seed, build_graph, empty_graph, order, cycle, topological_sort,
}
use helion_v.Dag.Checks.{job_names}
use helion_v.Dag.From.{total_deps}
use helion_v.Dag.Edges.{Edge, append-In}
use helion_v.Dag.Kahn.Degrees.{deps_named, degree-build_graph, count-build_graph, count-seed}
use helion_v.Dag.Kahn.Invariant.{IsOrdered, deps_named-Edge, Sortable, Draining}
use helion_v.Dag.Kahn.Turns.{Draining-turn}

length-job_names : (jobs : List WorkflowJob) → length (job_names jobs) ≡ length jobs
length-job_names [] = refl
length-job_names (j ∷ js) = ap suc (length-job_names js)

module _ (jobs : List WorkflowJob) (ok : Sortable jobs) where
  abbrev names : List String
  names = job_names jobs

  abbrev down : Assoc (List String)
  down = (build_graph jobs empty_graph).downstream

  abbrev degrees : Assoc ℕ
  degrees = (build_graph jobs empty_graph).in_degree

  adjacent : (a x : String) → count x (children down a) ≡ count a (deps_named jobs x)
  unfolding children lookup count
  adjacent a x = omega (arith, count-build_graph jobs empty_graph a x)

  first-degrees : (x : String) → degree degrees x ≡ length (deps_named jobs x)
  unfolding degree lookup
  first-degrees x =
      (let bound : 0 + total_deps jobs < 2 ^ 64 = omega (arith, ok.fits) in
        omega (arith, degree-build_graph jobs empty_graph x bound))

  start : Draining jobs (length jobs + 1) (seed jobs degrees) degrees []
  unfolding count
  start = record {
    degrees = λ x. first-degrees x ∙ sym (unseen-nil (deps_named jobs x));
    places = λ x. ground (arith, count-seed jobs degrees x);
    enough = omega (arith, unseen-nil names, length-job_names jobs);
    size = omega (arith, unseen-nil names);
    ordered = tt;
  }

  record Drained (sorted : List String) : Type 0 where
    last : Assoc ℕ
    rest : ℕ
    at_end : Draining jobs rest [] last sorted

  drain-Drained :
      (fuel : ℕ) (queue : List String) (m : Assoc ℕ) (sorted : List String)
      → Draining jobs fuel queue m sorted
      → (out : List String) × (drain fuel down queue m sorted ≡ some out) × Drained out
  unfolding drain
  drain-Drained zero queue m sorted d = (let bad : ⊥ = omega (arith, d.enough) in elim bad [ ])
  drain-Drained (suc fuel) [] m sorted d =
      (sorted, refl, record { last = m; rest = suc fuel; at_end = d })
  drain-Drained (suc fuel) (n ∷ queue) m sorted d =
      drain-Drained fuel _ _ (sorted ++ n ∷ [])
        (Draining-turn jobs ok down adjacent fuel n queue m sorted d)

  -- The names of the jobs, each once, every one behind all that it depends on.
  pub record Topological (xs : List String) : Type 0 where
    pub once : (x : String) → count x xs ≡ count x (job_names jobs)
    pub behind : IsOrdered jobs [] xs

  -- Some job is not in the list, and each job that is not has a dependency that is not.
  pub record Stuck (xs : List String) : Type 0 where
    pub left_over : (x : String) × In x (job_names jobs) × (contains x xs ≡ false)
    pub waits :
        (x : String)
        → In x (job_names jobs)
        → contains x xs ≡ false
        → (a : String) × Edge jobs a x × (contains a xs ≡ false)

  module _ (out : List String) (d : Drained out) where
    Drained-Topological : length out ≡ length jobs → Topological out
    unfolding count
    Drained-Topological e = record {
      once = λ x. elim (Bool-cases (ltb 0 (count x names))) [
        | inr z ↦ ground (arith, z, d.at_end.places x)
        | inl z ↦
            let i =
              unseen-zero out names (omega (arith, e, d.at_end.size, length-job_names jobs)) x
                (count-In x names (ground (arith, z))) in
            ground (arith, d.at_end.places x, In-count x out i)
      ];
      behind = d.at_end.ordered;
    }

    Drained-Stuck : length out ≢ length jobs → Stuck out
    unfolding count
    Drained-Stuck n = record {
      left_over = unseen-pos out names (omega (arith, n, d.at_end.size, length-job_names jobs));
      waits = λ x i c.
          let waiting : 0 < unseen out (deps_named jobs x) = ground (
            arith,
            d.at_end.places x,
            d.at_end.degrees x,
            In-count x names i,
            c,
            contains-count x out,
          ) in
          let (a, j, k) = unseen-pos out (deps_named jobs x) waiting in
          (a, deps_named-Edge jobs a x j, k);
    }

  module _ (xs : List String) (s : Stuck xs) where
    ordered-contains :
        (before ys : List String)
        → IsOrdered jobs before ys
        → ((x : String) → In x ys → In x names)
        → ((x : String) → In x before → contains x xs ≡ true)
        → (x : String) → In x ys
        → contains x xs ≡ true
    ordered-contains before [] o n f x i = elim i [ ]
    ordered-contains before (y ∷ ys) o n f x i =
        let behind = ordered-contains (before ++ y ∷ []) ys o.1 (λ z k. n z (there k)) in
        pick first behind i
      where
        first : contains y xs ≡ true
        first = elim (Bool-cases (contains y xs)) [
          | inl c ↦ c
          | inr c ↦
              let (a, e, k) = s.waits y (n y (here refl)) c in
              let bad : ⊥ = ground (arith, k, f a (o.0 a e)) in elim bad [ ]
        ]

        wider : (z : String) → In z (before ++ y ∷ []) → contains z xs ≡ true
        wider z k = elim (append-In before k) [
          | inl j ↦ f z j
          | inr j ↦ elim j [
            | here e ↦ subst (λ w. contains w xs ≡ true) e first
            | there b ↦ elim b [ ]
          ]
        ]

        pick :
            contains y xs ≡ true
            → (((z : String) → In z (before ++ y ∷ []) → contains z xs ≡ true)
                → (z : String) → In z ys
                → contains z xs ≡ true)
            → In x (y ∷ ys)
            → contains x xs ≡ true
        pick c behind (here e) = subst (λ w. contains w xs ≡ true) e c
        pick c behind (there k) = behind wider x k

    Stuck-excludes : (ys : List String) → ¬ Topological ys
    Stuck-excludes ys t =
        let (x, i, c) = s.left_over in
        let all : contains x xs ≡ true =
          ordered-contains [] ys t.behind
            (λ z k. count-In z names (ground (arith, t.once z, In-count z ys k)))
            (λ z k. elim k [ ]) x (count-In x ys (ground (arith, t.once x, In-count x names i))) in
        ground (arith, all, c)

  -- For jobs of distinct names whose dependencies are fewer than 2^64, TopologicalSort ends. It
  -- answers with the names of the jobs, each once, in an order where each comes behind all that it
  -- depends on; or that there is a cycle, and then no such order exists.
  pub topological_sort_correct :
      ((xs : List String) × (topological_sort jobs ≡ order xs) × Topological xs)
      ⊎ ((topological_sort jobs ≡ cycle) × ((ys : List String) → ¬ Topological ys))
  unfolding topological_sort
  topological_sort_correct =
      let (out, e, d) = drain-Drained (length jobs + 1) (seed jobs degrees) degrees [] start in
      elim (Bool-cases (length out == length jobs)) [
        | inl y ↦ inl (out, rw (e, y) refl, Drained-Topological out d (ground (arith, y)))
        | inr n ↦ inr (rw (e, n) refl, Stuck-excludes out (Drained-Stuck out d (ground (arith, n))))
      ]
