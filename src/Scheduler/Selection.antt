-- ===== src/Scheduler/Selection.antt =====
-- PickForJob answers with a healthy node that the job may run on, exactly where there is one.
use helion_v.Prelude.{
  ℕ, String, true, Option, none, some, List, [], ◌∷◌, Assoc, lookup, leb, ltb, eq_iff, leb→le,
  le→leb, In-select, select-In, In, here, there, ◌≡◌, ◌≢◌, ◌≤◌, ◌⊎◌, ◌↔◌, inl, inr, refl, ap, arith,
  Bool-cases,
}
use mathlib.Core.List.{cons≢nil}
use helion_v.Node.{Node}
use helion_v.Scheduler.{
  Policy, IsPolicy, Picked, chosen, no_healthy_nodes, no_node_matches_selector, has_label,
  node_matches_selector, pick_for_job, by_selector, by_gpu, or_else, ask,
}

-- A job with this selector and GPU request may run on the node.
pub record MayRun (selector : Assoc String) (gpus : ℕ) (n : Node) : Type 0 where
  pub labelled : (k v : String) → In (k, v) selector → lookup k n.labels ≡ some v
  pub enough : gpus ≤ n.total_gpus

has_label_lem : (o : Option String) (v : String) → has_label o v ≡ true → o ≡ some v
has_label_lem none v h = cc
has_label_lem (some got) v h = ground (arith, eq_iff got v)

-- The loop over the selector decides its meaning.
node_matches_selector_iff :
    (n : Node) (selector : Assoc String)
    → (node_matches_selector n selector ≡ true)
      ↔ ((k v : String) → In (k, v) selector → lookup k n.labels ≡ some v)
unfolding node_matches_selector
node_matches_selector_iff n [] = (λ h k v i. elim i [ ], λ h. refl)
node_matches_selector_iff n ((k, v) ∷ rest) = (
  λ h j w i. sound (node_matches_selector_iff n rest).0 h j w i,
  λ h.
      complete ((node_matches_selector_iff n rest).1 (λ j w i. h j w (there i)))
        (h k v (here refl)),
)
  where
    sound :
        (node_matches_selector n rest ≡ true
          → (j w : String) → In (j, w) rest
          → lookup j n.labels ≡ some w)
        → node_matches_selector n ((k, v) ∷ rest) ≡ true
        → (j w : String) → In (j, w) ((k, v) ∷ rest)
        → lookup j n.labels ≡ some w
    sound ih h j w (here e) =
        rw (← ap (λ (t : String × String). t.0) e, ← ap (λ (t : String × String). t.1) e)
          (has_label_lem (lookup k n.labels) v (ground arith))
    sound ih h j w (there i) = ih (ground arith) j w i

    complete :
        node_matches_selector n rest ≡ true
        → lookup k n.labels ≡ some v
        → node_matches_selector n ((k, v) ∷ rest) ≡ true
    complete h e = ground (arith, eq_iff v v)

-- What survives the filters of PickForJob: the healthy nodes that the job may run on.
by_selector_iff :
    (selector : Assoc String) (n : Node) (nodes : List Node)
    → In n (by_selector selector nodes)
      ↔ (In n nodes × ((k v : String) → In (k, v) selector → lookup k n.labels ≡ some v))
by_selector_iff [] n nodes = (λ i. (i, λ k v j. elim j [ ]), λ h. h.0)
by_selector_iff (r ∷ rs) n nodes =
    let meaning = node_matches_selector_iff n (r ∷ rs) in
    (
      λ i.
          let (j, h) = select-In (λ m. node_matches_selector m (r ∷ rs)) n nodes i in
          (j, meaning.0 h),
      λ h. In-select (λ m. node_matches_selector m (r ∷ rs)) n nodes h.0 (meaning.1 h.1),
    )

by_gpu_iff :
    (gpus : ℕ) (n : Node) (nodes : List Node)
    → In n (by_gpu gpus nodes) ↔ (In n nodes × (gpus ≤ n.total_gpus))
by_gpu_iff gpus n nodes = elim (Bool-cases (ltb 0 gpus)) [
  | inl asks ↦ rw asks (
    λ i. let (j, h) = select-In (λ m. leb gpus m.total_gpus) n nodes i in (j, leb→le _ _ h),
    λ h. In-select (λ m. leb gpus m.total_gpus) n nodes h.0 (le→leb _ _ h.1),
  )
  | inr none_ ↦ rw none_ (λ i. (i, ground arith), λ h. h.0)
]

candidates_iff :
    (selector : Assoc String) (gpus : ℕ) (n : Node) (nodes : List Node)
    → In n (by_gpu gpus (by_selector selector nodes)) ↔ (In n nodes × MayRun selector gpus n)
candidates_iff selector gpus n nodes =
    let g = by_gpu_iff gpus n (by_selector selector nodes) in
    let l = by_selector_iff selector n nodes in
    (
      λ i. let (j, e) = g.0 i in let (k, m) = l.0 j in (k, record { labelled = m; enough = e }),
      λ h. g.1 (l.1 (h.0, h.1.labelled), h.1.enough),
    )

module _ (p : Policy) (law : IsPolicy p) where
  ask_answers :
      (e : Picked) (s : p.State) (nodes : List Node)
      → (((n : Node) × ((ask p e s nodes).1 ≡ chosen n) × In n nodes)
          ⊎ (((ask p e s nodes).1 ≡ e) × (nodes ≡ [])))
  ask_answers e s [] = inr (refl, refl)
  ask_answers e s (n ∷ ns) =
      let (m, q, i) = law.picks s (n ∷ ns) cons≢nil in inl (m, rw q (unfold or_else in refl), i)

  -- For a policy that keeps its contract, PickForJob answers that there is no healthy node exactly
  -- where the source has none; else it chooses a healthy node that has every label of the selector
  -- and the GPUs asked for, or answers that none matches, and then no healthy node does.
  pub pick_for_job_correct :
      (selector : Assoc String) (gpus : ℕ) (s : p.State) (healthy : List Node)
      → ((healthy ≡ []) × ((pick_for_job p selector gpus s healthy).1 ≡ no_healthy_nodes))
        ⊎ ((healthy ≢ [])
            × (((n : Node) × ((pick_for_job p selector gpus s healthy).1 ≡ chosen n)
                  × (In n healthy × MayRun selector gpus n))
                ⊎ (((pick_for_job p selector gpus s healthy).1 ≡ no_node_matches_selector)
                    × ((n : Node) → In n healthy → ¬ MayRun selector gpus n))))
  unfolding pick_for_job
  pick_for_job_correct selector gpus s [] = inl (refl, refl)
  pick_for_job_correct selector gpus s (m ∷ ms) = inr (
    cons≢nil,
    elim (ask_answers no_node_matches_selector s (by_gpu gpus (by_selector selector (m ∷ ms)))) [
      | inl (n, q, i) ↦ inl (n, q, (candidates_iff selector gpus n (m ∷ ms)).0 i)
      | inr (q, none_) ↦
          inr (
            q,
            λ n i r. elim (rw none_ at ((candidates_iff selector gpus n (m ∷ ms)).1 (i, r))) [ ],
          )
    ],
  )
