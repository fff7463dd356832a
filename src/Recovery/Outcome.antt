-- ===== src/Recovery/Outcome.antt =====
-- What recovery leaves of a job that was in flight (internal/cluster/recovery.go).
use helion_v.Prelude.{
  ℕ, String, true, false, Option, none, some, List, [], ◌∷◌, ◌≡◌, ◌⊎◌, inl, inr, refl, sym, ap,
  subst, ◌∙◌, arith, Bool-cases, In, here, there, eq_iff, str_eq, if◌then◌else◌, length, List-cases,
  suc, ◌+◌,
}
use helion_v.Job.{Job, dispatching, is_terminal}
use helion_v.JobStore.{JobStore, find_job, non_terminal, mutate}
use helion_v.Recovery.{
  Answer, refused, accepted, recover_one, RecoverError, Counted, count_one, recover_all, recover,
}
use helion_v.Recovery.Steps.{recovered_as, recover_one_saved}

-- A job that recovery leaves nothing to do for: it has ended, or it is being dispatched.
abbrev pub IsSettled : JobStore → String → Type 0
IsSettled s id =
    (k : Job) × (find_job s id ≡ some k)
    × ((is_terminal k.status ≡ true) ⊎ (k.status ≡ dispatching))

abbrev pub IsStored : JobStore → String → Type 0
IsStored s id = (k : Job) × (find_job s id ≡ some k)

settled_by :
    (now : ℕ) (answer : Answer) (j : Job)
    → let k : Job = if is_terminal j.status then j else recovered_as now answer j in
      (is_terminal k.status ≡ true) ⊎ (k.status ≡ dispatching)
unfolding mutate
settled_by now answer j = elim (Bool-cases (is_terminal j.status)) [
  | inl t ↦ rw t (inl t)
  | inr t ↦ rw t (by_answer answer)
]
  where
    by_answer :
        (answer : Answer)
        → (is_terminal (recovered_as now answer j).status ≡ true)
          ⊎ ((recovered_as now answer j).status ≡ dispatching)
    by_answer (refused text) = inl refl
    by_answer (accepted node_id) = inr refl

module _ (now : ℕ) (answer : Answer) (id : String) (s : JobStore) (safe : s.faults ≡ [])
    (stored : IsStored s id) where
  abbrev one : JobStore × Option RecoverError
  one = recover_one now answer id s

  one-facts :
      (one.1 ≡ none)
      × (one.0.faults ≡ [])
      × IsSettled one.0 id
      × ((k : String) → IsStored s k → IsStored one.0 k)
      × ((k : String) → IsSettled s k → IsSettled one.0 k)
  one-facts =
      let (j, e) = stored in
      let (s', q, r) = recover_one_saved now id s j e safe answer in
      let settled : IsSettled s' id = (_, r.found, settled_by now answer j) in
      rw q (
        refl,
        r.faults,
        settled,
        λ k (j', e'). elim (Bool-cases (str_eq k id)) [
          | inl same ↦ subst (IsStored s') (sym ((eq_iff k id).0 same)) (settled.0, r.found)
          | inr other ↦ (j', r.others k (ground (arith, eq_iff k id)) ∙ e')
        ],
        λ k (j', e', w). elim (Bool-cases (str_eq k id)) [
          | inl same ↦ subst (IsSettled s') (sym ((eq_iff k id).0 same)) settled
          | inr other ↦ (j', r.others k (ground (arith, eq_iff k id)) ∙ e', w)
        ],
      )

counted :
    (r : JobStore × Option RecoverError) (c : Counted)
    → r.1 ≡ none
    → ((count_one r c).store ≡ r.0)
      × ((count_one r c).lost ≡ c.lost)
      × ((count_one r c).dispatched ≡ suc c.dispatched)
unfolding count_one
counted (s, none) c e = (refl, refl, refl)
counted (s, some x) c e = (let bad : ⊥ = ground (arith, e) in elim bad [ ])

-- The store after the loop, for a run that is not cancelled.
record LoopSettles (js : List Job) (c c' : Counted) : Type 0 where
  no_errors : c'.lost ≡ c.lost
  all_counted : c'.dispatched ≡ c.dispatched + length js
  settled : (j : Job) → In j js → IsSettled c'.store j.id
  stays : (k : String) → IsSettled c.store k → IsSettled c'.store k

recover_all-settles :
    (now : ℕ) (answer : String → Answer) (js : List Job) (c : Counted)
    → c.store.faults ≡ []
    → ((j : Job) → In j js → IsStored c.store j.id)
    → LoopSettles js c (recover_all now answer (λ id. false) js c)
unfolding recover_all count_one
recover_all-settles now answer [] c safe stored = record {
  no_errors = refl;
  all_counted = omega arith;
  settled = λ j i. elim i [ ];
  stays = λ k h. h;
}
recover_all-settles now answer (j ∷ js) c safe stored =
    let (ok, safe', settled, keeps, stays) =
      one-facts now (answer j.id) j.id c.store safe (stored j (here refl)) in
    let c' : Counted = count_one (recover_one now (answer j.id) j.id c.store) c in
    let (same_store, same_lost, one_more) =
      counted (recover_one now (answer j.id) j.id c.store) c ok in
    let rest =
      recover_all-settles now answer js c' (ap (λ s. s.faults) same_store ∙ safe')
        (λ k i. subst (λ s. IsStored s k.id) (sym same_store) (keeps k.id (stored k (there i)))) in
    record {
      no_errors = rest.no_errors ∙ same_lost;
      all_counted = omega (arith, rest.all_counted, one_more);
      settled = λ k i. elim i [
        | here e ↦ rest.stays k.id (
            subst (λ z. IsSettled c'.store z.id) e
              (subst (λ s. IsSettled s j.id) (sym same_store) settled))
        | there m ↦ rest.settled k m
      ];
      stays = λ k h. rest.stays k (subst (λ s. IsSettled s k) (sym same_store) (stays k h));
    }

whole_loop :
    (now : ℕ) (answer : String → Answer) (during : JobStore → JobStore) (s : JobStore)
    → recover now answer (λ id. false) false during s
      ≡ recover_all now answer
          (λ id. false)
          (non_terminal s)
          (record { store = during s; dispatched = 0; lost = 0 })
unfolding recover recover_all
whole_loop now answer during s = elim (List-cases (non_terminal s)) [
  | inl e ↦ rw (recover, e) refl
  | inr (j, js, e) ↦ rw (recover, e) refl
]

-- Where every save succeeds, the stored jobs are still there after the grace period, and the run is not cancelled,
-- Run leaves every job of its snapshot ended or dispatching, whatever the dispatcher answers. It counts them all as
-- dispatched, those that it marked lost included, and none as lost.
pub recover_settles :
    (now : ℕ) (answer : String → Answer) (during : JobStore → JobStore) (s : JobStore)
    → (during s).faults ≡ []
    → ((j : Job) → In j (non_terminal s) → IsStored (during s) j.id)
    → let c = recover now answer (λ id. false) false during s in
      (c.lost ≡ 0)
      × (c.dispatched ≡ length (non_terminal s))
      × ((j : Job) → In j (non_terminal s) → IsSettled c.store j.id)
recover_settles now answer during s safe stored =
    let all =
      recover_all-settles now answer (non_terminal s)
        (record { store = during s; dispatched = 0; lost = 0 }) safe stored in
    rw whole_loop (all.no_errors, omega (arith, all.all_counted), all.settled)
