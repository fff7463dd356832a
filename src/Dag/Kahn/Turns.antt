-- ===== src/Dag/Kahn/Turns.antt =====
-- One turn of the queue keeps the invariant.
use helion_v.Prelude.{
  ℕ, suc, ◌+◌, ◌<◌, String, false, List, [], ◌∷◌, ◌++◌, Assoc, length-append, count, count-append,
  contains, contains-count, unseen, unseen-snoc_count, unseen-zero, ◌≡◌, sym, ◌∙◌, arith, str_eq,
  if◌then◌else◌, Bool-cases, inl, inr, ◌==◌, ltb,
}
use text.Mathlib.TextPositions.{eq_refl}
use helion_v.Workflow.{WorkflowJob}
use helion_v.Dag.Sort.{degree, children, visit}
use helion_v.Dag.Checks.{job_names}
use helion_v.Dag.Kahn.Degrees.{deps_named}
use helion_v.Dag.Kahn.Visits.{Visited, visit-Visited}
use helion_v.Dag.Kahn.Invariant.{
  IsOrdered-snoc, Edge-deps_named, deps_named-named, unseen-le, length-deps_named, Sortable,
  Draining,
}

module _ (jobs : List WorkflowJob) (ok : Sortable jobs) (down : Assoc (List String))
    (adjacent : (a x : String) → count x (children down a) ≡ count a (deps_named jobs x)) (fuel : ℕ)
    (n : String) (queue : List String) (m : Assoc ℕ) (sorted : List String)
    (d : Draining jobs (suc fuel) (n ∷ queue) m sorted) where
  abbrev names : List String
  names = job_names jobs

  abbrev m' : Assoc ℕ
  m' = (visit (children down n) m queue).0

  abbrev queue' : List String
  queue' = (visit (children down n) m queue).1

  popped : (degree m n ≡ 0) × (count n sorted ≡ 0) × (count n names ≡ 1)
  unfolding count
  popped = ground (arith, d.places n, eq_refl n, ok.distinct n)

  new : contains n sorted ≡ false
  new = ground (arith, popped.1, contains-count n sorted)

  count-popped :
      (x : String) → count x (sorted ++ n ∷ []) ≡ count x sorted + (if str_eq n x then 1 else 0)
  unfolding count
  count-popped x = ground (arith, count-append x sorted (n ∷ []))

  count-front : (x : String) → count x (n ∷ queue) ≡ count x queue + (if str_eq n x then 1 else 0)
  unfolding count
  count-front x = ground arith

  falls :
      (x : String)
      → unseen (sorted ++ n ∷ []) (deps_named jobs x) + count n (deps_named jobs x) ≡ degree m x
  falls x = unseen-snoc_count n sorted (deps_named jobs x) new ∙ sym (d.degrees x)

  visited : (x : String) → Visited (children down n) m queue x
  visited x = visit-Visited (children down n) m queue x (omega (arith, falls x, adjacent n x)) (
      omega (
        arith,
        d.degrees x,
        unseen-le sorted (deps_named jobs x),
        length-deps_named jobs x,
        ok.fits,
      ))

  next-degrees : (x : String) → degree m' x ≡ unseen (sorted ++ n ∷ []) (deps_named jobs x)
  next-degrees x = omega (arith, (visited x).falls, adjacent n x, falls x)

  one_name : (x : String) → 0 < count n (deps_named jobs x) → count x names ≡ 1
  one_name x h = omega (arith, deps_named-named jobs n x h, ok.distinct x)

  next-places :
      (x : String)
      → count x (sorted ++ n ∷ []) + count x queue'
        ≡ (if degree m' x == 0 then count x names else 0)
  next-places x = elim (Bool-cases (ltb 0 (count n (deps_named jobs x)))) [
    | inr z ↦ ground (
      arith,
      count-popped x,
      count-front x,
      d.places x,
      (visited x).queued,
      (visited x).falls,
      adjacent n x,
      z,
    )
    | inl z ↦
        (let one = one_name x (ground (arith, z)) in
          ground (
            arith,
            count-popped x,
            count-front x,
            d.places x,
            (visited x).queued,
            (visited x).falls,
            adjacent n x,
            z,
            one,
          ))
  ]

  pub Draining-turn : Draining jobs fuel queue' m' (sorted ++ n ∷ [])
  Draining-turn =
      let left = unseen-snoc_count n sorted names new in
      record {
        degrees = next-degrees;
        places = next-places;
        enough = omega (arith, left, popped.2, d.enough);
        size = omega (arith, left, popped.2, d.size, length-append sorted (n ∷ []));
        ordered = IsOrdered-snoc jobs [] sorted n d.ordered (λ a e.
            unseen-zero sorted (deps_named jobs n) (sym (d.degrees n) ∙ popped.0) a
              (Edge-deps_named jobs a n e));
      }
