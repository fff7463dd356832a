-- ===== src/Recovery.antt =====
-- Crash recovery (internal/cluster/recovery.go). What the dispatcher answers for a job, and whether
-- the context is cancelled before it, are arguments.
pub mod Steps
pub mod Outcome
use Prim.Native.String.{◌++◌}
use helion_v.Prelude.{
  ℕ, suc, String, Bool, true, false, Option, none, some, List, [], ◌∷◌, if◌then◌else◌,
}
use helion_v.Job.{Job, pending, dispatching, status_eq, is_terminal}
use helion_v.JobStore.{
  JobStore, StoreError, no_options, get, non_terminal, mark_lost, reset_to_pending, transition,
}

-- Dispatcher.Dispatch: the node that has taken the job, or the text of the error.
pub data Answer : Type 0 where
  refused : (text : String) → Answer
  accepted : (node_id : String) → Answer

-- How recoverOne can fail.
pub data RecoverError : Type 0 where
  not_fetched not_marked_lost not_reset not_moved : RecoverError

abbrev as_error : RecoverError → Option StoreError → Option RecoverError
as_error kind none = none
as_error kind (some e) = some kind

-- Behind resetToPending: the transition to dispatching.
unfoldable pub redispatch :
    ℕ → String → (node_id : String) → JobStore × Option StoreError → JobStore × Option RecoverError
unfolding transition
redispatch now id node_id (s, some e) = (s, some not_reset)
redispatch now id node_id (s, none) =
    let (s', e) = transition now id dispatching (record no_options { node_id = node_id }) s in
    (s', as_error not_moved e)

-- recoverOne, for a job that the store has found not to be terminal.
unfoldable pub recover_current :
    ℕ → Answer → String → Job → JobStore → JobStore × Option RecoverError
unfolding mark_lost reset_to_pending redispatch
recover_current now (refused text) id current s =
    let (s', e) = mark_lost now id ("crash recovery dispatch failed: " ++ text) s in
    (s', as_error not_marked_lost e)
recover_current now (accepted node_id) id current s =
    redispatch now id node_id
      (if status_eq current.status pending then (s, none) else reset_to_pending id s)

-- recoverOne
unfoldable pub recover_one : ℕ → Answer → String → JobStore → JobStore × Option RecoverError
unfolding get recover_current
recover_one now answer id s = elim (get id s) [
  | none ↦ (s, some not_fetched)
  | some current ↦
      if is_terminal current.status then (s, none) else recover_current now answer id current s
]

-- The loop of Run, with the counts of the log line. `cancelled` is ctx.Err() != nil before the job.
pub record Counted : Type 0 where
  pub store : JobStore
  pub dispatched : ℕ
  pub lost : ℕ

unfoldable pub count_one : JobStore × Option RecoverError → Counted → Counted
count_one (s, none) c = record { store = s; dispatched = suc c.dispatched; lost = c.lost }
count_one (s, some e) c = record { store = s; dispatched = c.dispatched; lost = suc c.lost }

unfoldable pub recover_all : ℕ → (String → Answer) → (String → Bool) → List Job → Counted → Counted
unfolding recover_one count_one
recover_all now answer cancelled [] c = c
recover_all now answer cancelled (j ∷ js) c =
    let later =
      recover_all now answer cancelled js
        (count_one (recover_one now (answer j.id) j.id c.store) c) in
    if cancelled j.id then c else later

-- Run: the snapshot of the jobs that are not terminal, the grace period, the loop. `during` is what happens to the
-- store in the grace period, `stop` whether the context ends in it.
unfoldable pub recover :
    ℕ
    → (String → Answer)
    → (String → Bool)
    → (stop : Bool) → (during : JobStore → JobStore) → JobStore
    → Counted
unfolding non_terminal recover_all
recover now answer cancelled stop during s =
    let to_recover = non_terminal s in
    let start : Counted = record { store = during s; dispatched = 0; lost = 0 } in
    elim to_recover [
      | [] ↦ start
      | j ∷ js ↦ if stop then start else recover_all now answer cancelled (j ∷ js) start
    ]
