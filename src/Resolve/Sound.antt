-- ===== src/Resolve/Sound.antt =====
-- What a resolved job carries.
use Prim.Native.String.{◌++◌}
use helion_v.Prelude.{
  String, true, false, some, List, [], ◌∷◌, In, here, there, str_eq, eq_iff, ◌≡◌, ◌≢◌, ◌⊎◌, inl,
  inr, refl, sym, ap, ◌∙◌, arith, Bool-cases, Option-cases, some_cancel, subst,
}
use helion_v.Job.{Job, ArtifactBinding, ArtifactOutput, completed, status_eq}
use helion_v.JobStore.{JobStore, get}
use helion_v.JobStore.Uploads.{NoneNew}
use helion_v.Dag.{split_dot_ref}
use helion_v.Resolve.{
  ResolveError, Resolution, failed, resolved, has_any_from_ref, find_resolved_output, take_output,
  resolve_input, and_rest, resolve_inputs, resolve_job_inputs,
}

-- The binding `b'` takes its URI and digest from the output that the reference of `b` names, of an
-- upstream job that has completed.
pub record Filled (workflow_id : String) (js : JobStore) (b b' : ArtifactBinding) : Type 0 where
  pub upstream : Job
  pub output : ArtifactOutput
  pub found : get (workflow_id ++ ("/" ++ (split_dot_ref b.from).0)) js ≡ some upstream
  pub finished : upstream.status ≡ completed
  pub uploaded : In output upstream.resolved_outputs
  pub its_name : output.name ≡ (split_dot_ref b.from).1
  pub filled : b' ≡ record b { uri = output.uri; sha256 = output.sha256 }

-- A binding without a reference stays.
abbrev pub Matches : String → JobStore → ArtifactBinding → ArtifactBinding → Type 0
Matches workflow_id js b b' =
    ((b.from ≡ "") × (b' ≡ b)) ⊎ ((b.from ≢ "") × Filled workflow_id js b b')

pub data AllMatch (workflow_id : String) (js : JobStore)
    : List ArtifactBinding → List ArtifactBinding → Type 0 where
  no_more : AllMatch workflow_id js [] []
  next :
      {b b' : ArtifactBinding} {bs bs' : List ArtifactBinding}
      → Matches workflow_id js b b'
      → AllMatch workflow_id js bs bs'
      → AllMatch workflow_id js (b ∷ bs) (b' ∷ bs')

find_resolved_output-In :
    (name : String) (outs : List ArtifactOutput) (o : ArtifactOutput)
    → find_resolved_output name outs ≡ some o
    → In o outs × (o.name ≡ name)
unfolding find_resolved_output
find_resolved_output-In name [] o h = (let bad : ⊥ = ground (arith, h) in elim bad [ ])
find_resolved_output-In name (x ∷ xs) o h =
    let behind = find_resolved_output-In name xs o in
    elim (Bool-cases (str_eq x.name name)) [
      | inr n ↦ (let (i, e) = behind (rw n at h) in (there i, e))
      | inl y ↦
          let same : x ≡ o = some_cancel (rw y at h) in
          (here same, ap (λ z. z.name) (sym same) ∙ (eq_iff x.name name).0 y)
    ]

resolved_cancel : {A : Type 0} {a b : A} → resolved a ≡ resolved b → a ≡ b
resolved_cancel e = cc

module _ (workflow_id : String) (js : JobStore) (b b' : ArtifactBinding) where
  abbrev upstream_id : String
  upstream_id = workflow_id ++ ("/" ++ (split_dot_ref b.from).0)

  completed_Filled :
      (up : Job)
      → get upstream_id js ≡ some up
      → status_eq up.status completed ≡ true
      → take_output b (find_resolved_output (split_dot_ref b.from).1 up.resolved_outputs)
        ≡ resolved b'
      → Filled workflow_id js b b'
  completed_Filled up g c h =
      elim (Option-cases (find_resolved_output (split_dot_ref b.from).1 up.resolved_outputs)) [
        | inl f ↦ (let bad : ⊥ = ground (arith, (rw f at h)) in elim bad [ ])
        | inr (o, f) ↦
            let (i, e) = find_resolved_output-In (split_dot_ref b.from).1 up.resolved_outputs o f in
            record {
              upstream = up;
              output = o;
              found = g;
              finished = ground (arith, c);
              uploaded = i;
              its_name = e;
              filled = sym (resolved_cancel (rw f at h));
            }
      ]

  resolve_input-Matches : resolve_input workflow_id js b ≡ resolved b' → Matches workflow_id js b b'
  unfolding resolve_input
  resolve_input-Matches h = elim (Bool-cases (str_eq b.from "")) [
    | inl e ↦ inl ((eq_iff b.from "").0 e, sym (resolved_cancel (rw (e, resolve_input) at h)))
    | inr n ↦ inr (
      (λ k. ground (arith, n, eq_iff b.from "", k)),
      elim (Bool-cases (str_eq (split_dot_ref b.from).0 "")) [
        | inl m ↦ (let bad : ⊥ = ground (arith, (rw (n, resolve_input, m) at h)) in elim bad [ ])
        | inr m ↦ elim (Option-cases (get upstream_id js)) [
          | inl g ↦
              (let bad : ⊥ = ground (arith, (rw (n, resolve_input, m, g) at h)) in elim bad [ ])
          | inr (up, g) ↦ elim (Bool-cases (status_eq up.status completed)) [
            | inr c ↦
                (let bad : ⊥ = ground (arith, (rw (n, resolve_input, m, g, c) at h)) in
                  elim bad [ ])
            | inl c ↦ completed_Filled up g c (rw (n, resolve_input, m, g, c) at h)
          ]
        ]
      ],
    )
  ]

Resolution-cases :
    {A : Type 0} (r : Resolution A)
    → ((e : ResolveError) × (r ≡ failed e)) ⊎ ((a : A) × (r ≡ resolved a))
Resolution-cases (failed e) = inl (e, refl)
Resolution-cases (resolved a) = inr (a, refl)

and_rest-parts :
    (r : Resolution ArtifactBinding) (rest : Resolution (List ArtifactBinding))
    (bs : List ArtifactBinding)
    → and_rest r rest ≡ resolved bs
    → (b : ArtifactBinding) × (more : List ArtifactBinding) × (r ≡ resolved b)
      × (rest ≡ resolved more)
      × (b ∷ more ≡ bs)
and_rest-parts (failed e) rest bs h = (let bad : ⊥ = ground (arith, h) in elim bad [ ])
and_rest-parts (resolved b) (failed e) bs h = (let bad : ⊥ = ground (arith, h) in elim bad [ ])
and_rest-parts (resolved b) (resolved more) bs h = (b, more, refl, refl, resolved_cancel h)

module _ (workflow_id : String) (js : JobStore) where
  resolve_inputs-AllMatch :
      (bs out : List ArtifactBinding)
      → resolve_inputs workflow_id js bs ≡ resolved out
      → AllMatch workflow_id js bs out
  unfolding resolve_inputs
  resolve_inputs-AllMatch [] out h = subst (AllMatch workflow_id js []) (resolved_cancel h) no_more
  resolve_inputs-AllMatch (b ∷ bs) out h =
      let (b', more, f, g, e) =
        and_rest-parts (resolve_input workflow_id js b) (resolve_inputs workflow_id js bs) out h in
      subst (AllMatch workflow_id js (b ∷ bs)) e
        (next (resolve_input-Matches workflow_id js b b' f) (resolve_inputs-AllMatch bs more g))

  has_any_from_ref-AllMatch :
      (bs : List ArtifactBinding) → has_any_from_ref bs ≡ false → AllMatch workflow_id js bs bs
  unfolding has_any_from_ref
  has_any_from_ref-AllMatch [] h = no_more
  has_any_from_ref-AllMatch (b ∷ bs) h =
      next (inl (ground (arith, h, eq_iff b.from ""), refl))
        (has_any_from_ref-AllMatch bs (ground (arith, h)))

-- A job that ResolveJobInputs returns is the given one but for its inputs, which match the given
-- ones in order: an input without a reference is as it was, and each other input has the URI and
-- the digest of the output that its reference names, which a completed job of the same workflow
-- has uploaded.
pub resolve_job_inputs-AllMatch :
    (j j' : Job) (js : JobStore)
    → resolve_job_inputs j js ≡ resolved j'
    → (j' ≡ record j { inputs = j'.inputs }) × AllMatch j.spec.workflow_id js j.inputs j'.inputs
unfolding resolve_job_inputs
resolve_job_inputs-AllMatch j j' js h = elim (Bool-cases (has_any_from_ref j.inputs)) [
  | inr n ↦
      let same : j ≡ j' = resolved_cancel (rw (n, resolve_job_inputs) at h) in
      subst
        (λ z.
          (z ≡ record j { inputs = z.inputs }) × AllMatch j.spec.workflow_id js j.inputs z.inputs)
        same (refl, has_any_from_ref-AllMatch j.spec.workflow_id js j.inputs n)
  | inl y ↦ elim (Bool-cases (str_eq j.spec.workflow_id "")) [
    | inl w ↦ (let bad : ⊥ = ground (arith, (rw (y, resolve_job_inputs, w) at h)) in elim bad [ ])
    | inr w ↦ elim (Resolution-cases (resolve_inputs j.spec.workflow_id js j.inputs)) [
      | inl (e, k) ↦
          (let bad : ⊥ = ground (arith, (rw (y, resolve_job_inputs, w, k) at h)) in elim bad [ ])
      | inr (out, k) ↦
          let same = resolved_cancel (rw (y, resolve_job_inputs, w, k) at h) in
          subst
            (λ z.
              (z ≡ record j { inputs = z.inputs })
              × AllMatch j.spec.workflow_id js j.inputs z.inputs)
            same (refl, resolve_inputs-AllMatch j.spec.workflow_id js j.inputs out k)
    ]
  ]
]

-- What the jobs of a later store had uploaded, in a store in which they had uploaded it already.
module _ (workflow_id : String) (start js : JobStore) (old : NoneNew start.jobs js.jobs) where
  Filled-earlier :
      {b b' : ArtifactBinding} → Filled workflow_id js b b' → Filled workflow_id start b b'
  unfolding get
  Filled-earlier {b} {b'} f =
      let u =
        old (workflow_id ++ ("/" ++ (split_dot_ref b.from).0)) f.upstream f.found f.finished in
      record {
        upstream = u.earlier;
        output = f.output;
        found = u.found;
        finished = u.finished;
        uploaded = subst (In f.output) (sym u.outputs) f.uploaded;
        its_name = f.its_name;
        filled = f.filled;
      }

  pub AllMatch-earlier :
      {bs bs' : List ArtifactBinding}
      → AllMatch workflow_id js bs bs'
      → AllMatch workflow_id start bs bs'
  AllMatch-earlier no_more = no_more
  AllMatch-earlier (next (inl same) rest) = next (inl same) (AllMatch-earlier rest)
  AllMatch-earlier (next (inr (n, f)) rest) =
      next (inr (n, Filled-earlier f)) (AllMatch-earlier rest)
