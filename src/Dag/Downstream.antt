-- ===== src/Dag/Downstream.antt =====
-- Descendants: the search ends within its fuel, and finds exactly the jobs below.
use helion_v.Prelude.{
  ℕ, zero, suc, ◌+◌, ◌≤◌, ◌<◌, String, false, some, List, [], ◌∷◌, ◌++◌, Assoc, In, here, there,
  length, length-append, contains, contains-In, unseen, unseen-snoc_new, unseen-nil, ◌≡◌, ◌⊎◌, ◌↔◌,
  inl, inr, refl, sym, arith, Bool-cases, subst,
}
use helion_v.Workflow.{WorkflowJob}
use helion_v.Dag.Sort.{children}
use helion_v.Dag.From.{total_deps}
use helion_v.Dag.Reach.{downstream_of, discover, bfs, descendants}
use helion_v.Dag.Edges.{
  Edge, Below, one, more, In-append_left, In-append_right, append-In, children-Edge,
  Edge-downstream_of, targets, length-targets, Edge-targets,
}

-- What the loop over the children of one name has done.
record Discovered (names cs result queue result' queue' : List String) : Type 0 where
  measure : length queue' + unseen result' names ≤ length queue + unseen result names
  keeps : (x : String) → In x result → In x result'
  keeps_queue : (x : String) → In x queue → In x queue'
  finds : (x : String) → In x cs → In x result'
  from : (x : String) → In x result' → In x result ⊎ In x cs
  queued : (x : String) → In x result' → In x result ⊎ In x queue'
  from_queue : (x : String) → In x queue' → In x queue ⊎ In x cs

discover-Discovered :
    (names cs result queue : List String)
    → ((x : String) → In x cs → In x names)
    → Discovered names cs result queue (discover cs result queue).0 (discover cs result queue).1
unfolding discover
discover-Discovered names [] result queue n = record {
  measure = omega arith;
  keeps = λ x i. i;
  keeps_queue = λ x i. i;
  finds = λ x i. elim i [ ];
  from = λ x i. inl i;
  queued = λ x i. inl i;
  from_queue = λ x i. inl i;
}
discover-Discovered names (c ∷ cs) result queue n =
    let known = discover-Discovered names cs result queue (λ x i. n x (there i)) in
    let new =
      discover-Discovered names cs (result ++ c ∷ []) (queue ++ c ∷ []) (λ x i. n x (there i)) in
    elim (Bool-cases (contains c result)) [
      | inl y ↦ rw y (old (contains-In c result y) _ _ known)
      | inr y ↦ rw y (fresh y _ _ new)
    ]
  where
    later : {x : String} {P : Type 0} → P ⊎ In x cs → P ⊎ In x (c ∷ cs)
    later (inl p) = inl p
    later (inr i) = inr (there i)

    pushed :
        {x : String} (xs : List String) → In x (xs ++ c ∷ []) ⊎ In x cs → In x xs ⊎ In x (c ∷ cs)
    pushed xs (inr i) = inr (there i)
    pushed xs (inl i) = elim (append-In xs i) [
      | inl k ↦ inl k
      | inr k ↦ elim k [ here e ↦ inr (here e) | there z ↦ elim z [ ] ]
    ]

    by_queue :
        (x : String) (q : List String)
        → In x (result ++ c ∷ []) ⊎ In x q
        → ((z : String) → In z (queue ++ c ∷ []) → In z q)
        → In x result ⊎ In x q
    by_queue x q (inr i) k = inr i
    by_queue x q (inl i) k = elim (append-In result i) [
      | inl z ↦ inl z
      | inr z ↦ inr (k x (In-append_right queue z))
    ]

    old :
        In c result
        → (r q : List String) → Discovered names cs result queue r q
        → Discovered names (c ∷ cs) result queue r q
    old i r q d = record {
      measure = d.measure;
      keeps = d.keeps;
      keeps_queue = d.keeps_queue;
      finds =
          λ x k. elim k [ here e ↦ subst (λ z. In z r) e (d.keeps c i) | there z ↦ d.finds x z ];
      from = λ x k. later (d.from x k);
      queued = d.queued;
      from_queue = λ x k. later (d.from_queue x k);
    }

    fresh :
        contains c result ≡ false
        → (r q : List String) → Discovered names cs (result ++ c ∷ []) (queue ++ c ∷ []) r q
        → Discovered names (c ∷ cs) result queue r q
    fresh y r q d = record {
      measure = omega (
        arith,
        d.measure,
        length-append queue (c ∷ []),
        unseen-snoc_new c result names y (n c (here refl)),
      );
      keeps = λ x k. d.keeps x (In-append_left (c ∷ []) k);
      keeps_queue = λ x k. d.keeps_queue x (In-append_left (c ∷ []) k);
      finds = λ x k. elim k [
        | here e ↦ subst (λ z. In z r) e (d.keeps c (In-append_right result (here refl)))
        | there z ↦ d.finds x z
      ];
      from = λ x k. pushed result (d.from x k);
      queued = λ x k. by_queue x q (d.queued x k) d.keeps_queue;
      from_queue = λ x k. pushed queue (d.from_queue x k);
    }

-- What holds at each turn of the loop over the queue.
record Searching (jobs : List WorkflowJob) (name : String) (fuel : ℕ) (queue result : List String)
    : Type 0 where
  enough : length queue + unseen result (targets jobs) < fuel
  sound : (x : String) → In x result → Below jobs name x
  queue_sound : (x : String) → In x queue → (x ≡ name) ⊎ Below jobs name x
  closed :
      (x : String)
      → (x ≡ name) ⊎ In x result
      → In x queue ⊎ ((c : String) → Edge jobs x c → In c result)

Below-next :
    {jobs : List WorkflowJob} {a x c : String}
    → (x ≡ a) ⊎ Below jobs a x
    → Edge jobs x c
    → Below jobs a c
Below-next {jobs = jobs} {c = c} (inl e) k = one (subst (λ z. Edge jobs z c) e k)
Below-next (inr b) k = more b k

module _ (jobs : List WorkflowJob) (name : String) where
  abbrev down : Assoc (List String)
  down = downstream_of jobs []

  Searching-turn :
      (fuel : ℕ) (curr : String) (queue result : List String)
      → Searching jobs name (suc fuel) (curr ∷ queue) result
      → let (result', queue') = discover (children down curr) result queue in
        Searching jobs name fuel queue' result'
  Searching-turn fuel curr queue result s =
      let d =
        discover-Discovered (targets jobs) (children down curr) result queue
          (λ x i. Edge-targets curr x jobs (children-Edge curr x jobs i)) in
      record {
        enough = omega (arith, s.enough, d.measure);
        sound = λ x i. elim (d.from x i) [
          | inl k ↦ s.sound x k
          | inr k ↦ Below-next (s.queue_sound curr (here refl)) (children-Edge curr x jobs k)
        ];
        queue_sound = λ x i. elim (d.from_queue x i) [
          | inl k ↦ s.queue_sound x (there k)
          | inr k ↦ inr (Below-next (s.queue_sound curr (here refl)) (children-Edge curr x jobs k))
        ];
        closed = λ x p. elim p [
          | inl e ↦ still d x (s.closed x (inl e))
          | inr i ↦ elim (d.queued x i) [ inl k ↦ still d x (s.closed x (inr k)) | inr q ↦ inl q ]
        ];
      }
    where
      still :
          {r q : List String}
          → Discovered (targets jobs) (children down curr) result queue r q
          → (x : String) → In x (curr ∷ queue) ⊎ ((c : String) → Edge jobs x c → In c result)
          → In x q ⊎ ((c : String) → Edge jobs x c → In c r)
      still d x (inr f) = inr (λ c k. d.keeps c (f c k))
      still d x (inl (there i)) = inl (d.keeps_queue x i)
      still d x (inl (here e)) = inr (λ c k.
          d.finds c (Edge-downstream_of curr c jobs [] (subst (λ z. Edge jobs z c) (sym e) k)))

  -- What the search returns: everything in it is below the name, and it is closed.
  record Found (ds : List String) : Type 0 where
    sound : (x : String) → In x ds → Below jobs name x
    closed : (x : String) → (x ≡ name) ⊎ In x ds → (c : String) → Edge jobs x c → In c ds

  bfs-Found :
      (fuel : ℕ) (queue result : List String)
      → Searching jobs name fuel queue result
      → (ds : List String) × (bfs fuel down queue result ≡ some ds) × Found ds
  unfolding bfs
  bfs-Found zero queue result s = (let bad : ⊥ = omega (arith, s.enough) in elim bad [ ])
  bfs-Found (suc fuel) [] result s = (
    result,
    refl,
    record {
      sound = s.sound;
      closed = λ x p c k. elim (s.closed x p) [ inl i ↦ elim i [ ] | inr f ↦ f c k ];
    },
  )
  bfs-Found (suc fuel) (curr ∷ queue) result s =
      bfs-Found fuel _ _ (Searching-turn fuel curr queue result s)

  Found-Below : (ds : List String) → Found ds → (x : String) → Below jobs name x → In x ds
  Found-Below ds f x (one k) = f.closed name (inl refl) x k
  Found-Below ds f x (more {b = b} r k) = f.closed b (inr (Found-Below ds f b r)) x k

  start-Searching : Searching jobs name (total_deps jobs + 2) (name ∷ []) []
  start-Searching = record {
    enough = omega (arith, unseen-nil (targets jobs), length-targets jobs);
    sound = λ x i. elim i [ ];
    queue_sound = λ x i. elim i [ here e ↦ inl (sym e) | there z ↦ elim z [ ] ];
    closed = λ x p. elim p [ inl e ↦ inl (here (sym e)) | inr i ↦ elim i [ ] ];
  }

  -- The search for the descendants of a job ends, on any list of jobs, cyclic ones included, and
  -- answers with exactly the names that depend on the job, directly or through others: the job's own
  -- name among them just where it lies on a cycle.
  pub descendants_correct :
      (ds : List String) × (descendants jobs name ≡ some ds)
      × ((x : String) → In x ds ↔ Below jobs name x)
  unfolding descendants
  descendants_correct =
      let (ds, e, f) = bfs-Found (total_deps jobs + 2) (name ∷ []) [] start-Searching in
      (ds, e, λ x. (f.sound x, Found-Below ds f x))
