-- ===== src/EnvDenylist/Verdict.antt =====
-- What denylistOnly (internal/api/env_denylist.go) answers.
use mathlib.Core.List.{append-nil, append_assoc}
use helion_v.Prelude.{
  ◌≤◌, All, String, true, false, none, some, List, [], ◌∷◌, ◌++◌, In, here, there, Assoc, length,
  ◌≡◌, ◌⊎◌, ◌↔◌, inl, inr, refl, sym, ◌∙◌, arith, str_eq, Bool-cases, map, subst, select, select-In,
  In-select,
}
use helion_v.EnvDenylist.{
  EnvDenylistException, EnvValidationResult, env_key_blocked, env_key_allowed_by_exception,
  no_result, override, refuse, deny, denied, denylist_only, has_separator, has_nul,
  validate_entries, validate_env_map,
}
use helion_v.EnvDenylist.Blocked.{
  IsBlocked, IsExcused, IsBlocked-env_key_blocked, env_key_blocked-IsBlocked,
  env_key_allowed-IsExcused, IsExcused-env_key_allowed,
}

abbrev pub keys : Assoc String → List String
keys = map (λ e. e.0)

module _ (selector : Assoc String) (exceptions : List EnvDenylistException) where
  -- No fault, and the overridden keys are those of the environment that are blocked; a rule
  -- excuses each of them.
  pub record Passed (env : Assoc String) (r : EnvValidationResult) : Type 0 where
    pub clean : r.err ≡ none
    pub overridden : (key : String) → In key r.overridden_keys ↔ (In key (keys env) × IsBlocked key)
    pub excused :
        (key : String) → In key (keys env) → IsBlocked key → IsExcused selector exceptions key

  -- The fault names a key of the environment that is blocked and that no rule excuses.
  pub record Refused (env : Assoc String) (r : EnvValidationResult) : Type 0 where
    pub fault : r.err ≡ some denied
    pub offending : In r.blocked_key (keys env)
    pub blocked : IsBlocked r.blocked_key
    pub not_excused : ¬ IsExcused selector exceptions r.blocked_key

  abbrev EndsAs : Assoc String → EnvValidationResult → EnvValidationResult → Type 0
  EndsAs env r t =
      ((t.err ≡ none)
        × (t.overridden_keys ≡ r.overridden_keys ++ select env_key_blocked (keys env))
        × ((key : String) → In key (keys env) → IsBlocked key → IsExcused selector exceptions key))
      ⊎ Refused env t

  Refused-wider :
      (k v : String) (env : Assoc String) (t : EnvValidationResult)
      → Refused env t
      → Refused ((k, v) ∷ env) t
  Refused-wider k v env t f = record {
    fault = f.fault;
    offending = there f.offending;
    blocked = f.blocked;
    not_excused = f.not_excused;
  }

  module _ (k v : String) (env : Assoc String) (r : EnvValidationResult) where
    deny-skips :
        env_key_blocked k ≡ false
        → deny selector exceptions ((k, v) ∷ env) r ≡ deny selector exceptions env r
    unfolding deny
    deny-skips n = ground (arith, n)

    deny-overrides :
        env_key_blocked k ≡ true
        → env_key_allowed_by_exception k selector exceptions ≡ true
        → deny selector exceptions ((k, v) ∷ env) r ≡ deny selector exceptions env (override k r)
    unfolding deny
    deny-overrides b a = ground (arith, b, a)

    deny-refuses :
        env_key_blocked k ≡ true
        → env_key_allowed_by_exception k selector exceptions ≡ false
        → deny selector exceptions ((k, v) ∷ env) r ≡ refuse k r
    unfolding deny
    deny-refuses b d = ground (arith, b, d)

  deny-ends :
      (env : Assoc String) (r : EnvValidationResult)
      → r.err ≡ none
      → EndsAs env r (deny selector exceptions env r)
  unfolding deny
  deny-ends [] r e = inl (e, sym (append-nil r.overridden_keys), λ key i b. elim i [ ])
  deny-ends ((k, v) ∷ env) r e =
      let skipped = deny-ends env r e in
      let overridden = deny-ends env (override k r) e in
      elim (Bool-cases (env_key_blocked k)) [
        | inr n ↦ reached (deny-skips k v env r n) (passed_over n skipped)
        | inl b ↦ elim (Bool-cases (env_key_allowed_by_exception k selector exceptions)) [
          | inl a ↦ reached (deny-overrides k v env r b a) (taken b a overridden)
          | inr d ↦ reached (deny-refuses k v env r b d) (
              inr (record {
                fault = refl;
                offending = here refl;
                blocked = env_key_blocked-IsBlocked k b;
                not_excused =
                    λ x. ground (arith, d, IsExcused-env_key_allowed selector exceptions k b x);
              }))
        ]
      ]
    where
      reached :
          {t : EnvValidationResult}
          → deny selector exceptions ((k, v) ∷ env) r ≡ t
          → EndsAs ((k, v) ∷ env) r t
          → EndsAs ((k, v) ∷ env) r (deny selector exceptions ((k, v) ∷ env) r)
      reached p = subst (λ w. EndsAs ((k, v) ∷ env) r w) (sym p)

      passed_over :
          env_key_blocked k ≡ false
          → EndsAs env r (deny selector exceptions env r)
          → EndsAs ((k, v) ∷ env) r (deny selector exceptions env r)
      passed_over n (inr f) = inr (Refused-wider k v env _ f)
      passed_over n (inl (c, o, x)) = inl (
        c,
        rw n o,
        λ key i b. elim i [
          | here s ↦
              (let bad : ⊥ =
                  ground (arith, n, IsBlocked-env_key_blocked k (subst IsBlocked (sym s) b)) in
                elim bad [ ])
          | there j ↦ x key j b
        ],
      )

      taken :
          env_key_blocked k ≡ true
          → env_key_allowed_by_exception k selector exceptions ≡ true
          → EndsAs env (override k r) (deny selector exceptions env (override k r))
          → EndsAs ((k, v) ∷ env) r (deny selector exceptions env (override k r))
      taken b a (inr f) = inr (Refused-wider k v env _ f)
      taken b a (inl (c, o, x)) = inl (
        c,
        o ∙ rw b (append_assoc r.overridden_keys (k ∷ []) (select env_key_blocked (keys env))),
        λ key i z. elim i [
          | here s ↦
              subst (λ w. IsExcused selector exceptions w) s
                (env_key_allowed-IsExcused selector exceptions k a)
          | there j ↦ x key j z
        ],
      )

  -- Whatever order the map's range takes, denylistOnly either passes the environment, and then
  -- reports as overridden exactly those of its keys that feed the dynamic loader or the C library's
  -- modules, each of them excused by a rule for a selector entry of the job; or refuses it, and
  -- names such a key that no rule excuses.
  pub denylist_only_correct :
      (env : Assoc String)
      → let r = denylist_only selector exceptions env in Passed env r ⊎ Refused env r
  unfolding denylist_only
  denylist_only_correct env = elim (deny-ends env no_result refl) [
    | inr f ↦ inr f
    | inl (c, o, x) ↦ inl (record {
      clean = c;
      overridden = λ key. (
        λ i.
            let (j, b) = select-In env_key_blocked key (keys env) (subst (λ w. In key w) o i) in
            (j, env_key_blocked-IsBlocked key b),
        λ p.
            subst (λ w. In key w) (sym o)
              (In-select env_key_blocked key (keys env) p.0 (IsBlocked-env_key_blocked key p.1)),
      );
      excused = x;
    })
  ]

  -- A key that is not empty and has no separator, and a value without NUL.
  record IsWellShaped (entry : String × String) : Type 0 where
    not_empty : str_eq entry.0 "" ≡ false
    no_separator : has_separator entry.0 ≡ false
    no_nul : has_nul entry.1 ≡ false

  validate_entries-eq :
      (env : Assoc String) (r : EnvValidationResult)
      → All IsWellShaped env
      → validate_entries selector exceptions env r ≡ deny selector exceptions env r
  unfolding validate_entries deny
  validate_entries-eq [] r w = refl
  validate_entries-eq ((k, v) ∷ env) r (w, others) =
      let skipped = validate_entries-eq env r others in
      let overridden = validate_entries-eq env (override k r) others in
      ground (arith, w.not_empty, w.no_separator, w.no_nul, skipped, overridden)

  -- On at most 128 well-shaped entries, validateEnvMap, which checks the jobs of a workflow, answers
  -- as denylistOnly, which checks a single job.
  validate_env_map-eq :
      (env : Assoc String)
      → length env ≤ 128
      → All IsWellShaped env
      → validate_env_map selector exceptions env ≡ denylist_only selector exceptions env
  unfolding validate_env_map denylist_only
  validate_env_map-eq env few w = ground (arith, few, validate_entries-eq env no_result w)
