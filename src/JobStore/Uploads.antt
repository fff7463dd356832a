-- ===== src/JobStore/Uploads.antt =====
-- Which operations of the store leave what the completed jobs have uploaded
-- (internal/cluster/job_transition.go, internal/cluster/job_update_inputs.go).
use helion_v.Prelude.{
  ℕ, String, false, some, List, Assoc, lookup, insert, lookup-insert, ◌≡◌, ◌≢◌, refl, ◌∙◌, ap,
  subst, inl, inr, arith, str_eq, eq_iff, Bool-cases, Option-cases, some_cancel,
}
use helion_v.Job.{JobStatus, Job, ArtifactBinding, completed, is_terminal, is_allowed}
use helion_v.JobStore.State.{JobStore, TransitionOptions, next_fault}
use helion_v.JobStore.Transition.{transition, mutate}
use helion_v.JobStore.Read.{update_resolved_inputs}

-- The job was completed in this map already, with the same outputs.
pub record WasUploaded (before : Assoc Job) (k : String) (j : Job) : Type 0 where
  pub earlier : Job
  pub found : lookup k before ≡ some earlier
  pub finished : earlier.status ≡ completed
  pub outputs : earlier.resolved_outputs ≡ j.resolved_outputs

-- No job has completed since, and no completed job has other outputs.
abbrev pub NoneNew : Assoc Job → Assoc Job → Type 0
NoneNew before after =
    (k : String) (j : Job) → lookup k after ≡ some j → j.status ≡ completed → WasUploaded before k j

pub NoneNew-refl : (m : Assoc Job) → NoneNew m m
NoneNew-refl m k j e c = record { earlier = j; found = e; finished = c; outputs = refl }

NoneNew-insert :
    (before m : Assoc Job) (id : String) (b : Job)
    → NoneNew before m
    → (b.status ≡ completed → WasUploaded before id b)
    → NoneNew before (insert id b m)
NoneNew-insert before m id b all fresh k j e c = elim (Bool-cases (str_eq id k)) [
  | inl y ↦
      let same : b ≡ j = some_cancel (ground (arith, e, lookup-insert id k b m, y)) in
      subst (λ z. WasUploaded before z j) ((eq_iff id k).0 y)
        (subst (WasUploaded before id) same (fresh (ap (λ (z : Job). z.status) same ∙ c)))
  | inr n ↦ all k j (ground (arith, e, lookup-insert id k b m, n)) c
]

live_job : (j : Job) → is_terminal j.status ≡ false → j.status ≢ completed
live_job j t e = ground (arith, t, e)

pub NoneNew-transition :
    (before : Assoc Job) (now : ℕ) (id : String) (to : JobStatus) (o : TransitionOptions)
    (s : JobStore)
    → to ≢ completed
    → NoneNew before s.jobs
    → NoneNew before (transition now id to o s).0.jobs
unfolding transition
NoneNew-transition before now id to o s n all = elim (Option-cases (lookup id s.jobs)) [
  | inl e ↦ rw (e, transition) all
  | inr (j, e) ↦
      rw (e, transition)
        (elim (Bool-cases (is_terminal j.status)) [
          | inl t ↦ rw t all
          | inr t ↦ rw t (elim (Bool-cases (is_allowed j.status to)) [
            | inr a ↦ rw a all
            | inl a ↦ rw a (elim (Bool-cases (next_fault s.faults)) [
              | inl w ↦ rw w (
                  NoneNew-insert before s.jobs id _ all
                    (λ c. (let bad : ⊥ = live_job j t c in elim bad [ ])))
              | inr w ↦ rw w (
                  NoneNew-insert before s.jobs id (mutate to now o j) all
                    (λ c. (let bad : ⊥ = n c in elim bad [ ])))
            ])
          ])
        ])
]

pub NoneNew-update :
    (before : Assoc Job) (id : String) (inputs : List ArtifactBinding) (s : JobStore)
    → NoneNew before s.jobs
    → NoneNew before (update_resolved_inputs id inputs s).0.jobs
unfolding update_resolved_inputs
NoneNew-update before id inputs s all = elim (Option-cases (lookup id s.jobs)) [
  | inl e ↦ rw (e, update_resolved_inputs) all
  | inr (j, e) ↦
      rw (e, update_resolved_inputs)
        (elim (Bool-cases (next_fault s.faults)) [
          | inl w ↦ rw w (NoneNew-insert before s.jobs id j all (λ c. all id j e c))
          | inr w ↦ rw w (
              NoneNew-insert before s.jobs id (record j { inputs = inputs }) all
                (λ c.
                  let u = all id j e c in
                  record {
                    earlier = u.earlier;
                    found = u.found;
                    finished = u.finished;
                    outputs = u.outputs;
                  }))
        ])
]
