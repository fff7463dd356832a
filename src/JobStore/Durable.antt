-- ===== src/JobStore/Durable.antt =====
-- Memory and disk: the status in memory is the status that the persister holds.
use helion_v.Prelude.{
  String, Option, none, some, ◌≡◌, ◌∙◌, inl, inr, arith, lookup, insert, delete, lookup-insert,
  lookup-delete, eq_iff, Bool-cases, Assoc,
}
use helion_v.Job.{JobStatus, Job}
use helion_v.JobStore.State.{JobStore, next_fault, write_through}

abbrev pub status_of : Option Job → Option JobStatus
status_of none = none
status_of (some j) = some j.status

-- A write that restores the status of a job shows no change of status.
pub status_of-insert :
    (k id : String) (m : Assoc Job) (j b : Job)
    → lookup id m ≡ some j
    → b.status ≡ j.status
    → status_of (lookup k (insert id b m)) ≡ status_of (lookup k m)
status_of-insert k id m j b f st = ground (arith, lookup-insert id k b m, eq_iff id k)

-- Every key holds the job of that ID, and the two maps agree on which jobs there are and on the
-- status of each.
pub record Agree (jobs disk : Assoc Job) : Type 0 where
  pub keyed : (k : String) (j : Job) → lookup k jobs ≡ some j → j.id ≡ k
  pub same_status : (k : String) → status_of (lookup k jobs) ≡ status_of (lookup k disk)

abbrev pub IsDurable : JobStore → Type 0
IsDurable s = Agree s.jobs s.disk

module _ (id : String) (jobs disk : Assoc Job) (a : Agree jobs disk) where
  -- A rollback that restores the status keeps the agreement.
  pub Agree-rolled_back :
      (j b : Job)
      → lookup id jobs ≡ some j
      → b.id ≡ j.id
      → b.status ≡ j.status
      → Agree (insert id b jobs) disk
  Agree-rolled_back j b f i st = record {
    keyed = λ k c h.
        ground (arith, lookup-insert id k b jobs, eq_iff id k, a.keyed k c, a.keyed id j f);
    same_status = λ k. ground (arith, lookup-insert id k b jobs, eq_iff id k, a.same_status k);
  }

  -- A saved change keeps it.
  pub Agree-saved : (b : Job) → b.id ≡ id → Agree (insert id b jobs) (insert b.id b disk)
  Agree-saved b i = record {
    keyed = λ k c h. ground (arith, lookup-insert id k b jobs, eq_iff id k, a.keyed k c);
    same_status = λ k. ground (
      arith,
      lookup-insert id k b jobs,
      lookup-insert b.id k b disk,
      eq_iff id k,
      eq_iff b.id k,
      a.same_status k,
    );
  }

  -- A failed insertion of a new job leaves no trace.
  pub Agree-withdrawn :
      (b : Job) → lookup id jobs ≡ none → Agree (delete id (insert id b jobs)) disk
  Agree-withdrawn b f = record {
    keyed = λ k c h. ground (
      arith,
      lookup-delete id k (insert id b jobs),
      lookup-insert id k b jobs,
      eq_iff id k,
      a.keyed k c,
    );
    same_status = λ k. ground (
      arith,
      lookup-delete id k (insert id b jobs),
      lookup-insert id k b jobs,
      eq_iff id k,
      a.same_status k,
    );
  }

pub Agree-write_through :
    (id : String) (j changed rolled_back : Job) (s : JobStore)
    → IsDurable s
    → lookup id s.jobs ≡ some j
    → changed.id ≡ j.id
    → rolled_back.id ≡ j.id
    → rolled_back.status ≡ j.status
    → IsDurable (write_through id changed rolled_back s).0
Agree-write_through id j changed rolled_back s d f ci ri rs =
    elim (Bool-cases (next_fault s.faults)) [
      | inl fails ↦ rw fails (Agree-rolled_back id s.jobs s.disk d j rolled_back f ri rs)
      | inr works ↦ rw works (Agree-saved id s.jobs s.disk d changed (ci ∙ d.keyed id j f))
    ]
