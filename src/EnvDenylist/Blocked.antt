-- ===== src/EnvDenylist/Blocked.antt =====
-- Which environment keys are blocked, and what excuses one (internal/api/env_denylist.go).
use Prim.Native.String.{◌++◌ as ◌+++◌}
use helion_v.Prelude.{
  ◌<◌, String, true, some, List, [], ◌∷◌, In, Assoc, lookup, length, contains-In, In-contains, ◌≡◌,
  inl, inr, refl, ap, ◌∙◌, arith, eq_iff, Bool-cases, Option-cases, some_of-In, In-some_of,
  strip_prefix, strip_prefix_sound, strip_prefix-append,
}
use helion_v.EnvDenylist.{
  EnvDenylistException, blocked_exact, has_prefix, env_key_blocked, excuses,
  env_key_allowed_by_exception,
}

-- The keys that the dynamic loader and the C library's modules read.
pub data IsBlocked (key : String) : Type 0 where
  for_loader : (rest : String) → key ≡ "LD_" +++ rest → IsBlocked key
  for_mac_loader : (rest : String) → key ≡ "DYLD_" +++ rest → IsBlocked key
  by_table : In key blocked_exact → IsBlocked key

-- A rule of the operator allows the key on the nodes that the job is pinned to.
pub record IsExcused (selector : Assoc String) (exceptions : List EnvDenylistException)
    (key : String) : Type 0 where
  pub rule : EnvDenylistException
  pub configured : In rule exceptions
  pub pinned : lookup rule.selector_key selector ≡ some rule.selector_value
  pub lists : In key rule.allowed_keys

pub In-length : {A : Type 0} (x : A) (xs : List A) → In x xs → 0 < length xs
In-length x [] i = elim i [ ]
In-length x (y ∷ xs) i = ground arith

pub lookup-length :
    (k : String) (m : Assoc String) (v : String) → lookup k m ≡ some v → 0 < length m
unfolding lookup
lookup-length k [] v e = (let bad : ⊥ = ground (arith, e) in elim bad [ ])
lookup-length k (x ∷ m) v e = ground arith

pub has_prefix-append :
    (key prefix rest : String) → key ≡ prefix +++ rest → has_prefix key prefix ≡ true
has_prefix-append key prefix rest e = rw (e, has_prefix, strip_prefix-append prefix rest) refl

pub has_prefix_sound :
    (key prefix : String) → has_prefix key prefix ≡ true → (rest : String) × (key ≡ prefix +++ rest)
has_prefix_sound key prefix h = elim (Option-cases (strip_prefix prefix key)) [
  | inl n ↦ (let bad : ⊥ = ground (arith, (rw (n, has_prefix) at h)) in elim bad [ ])
  | inr (rest, e) ↦ (rest, strip_prefix_sound prefix key rest e)
]

pub IsBlocked-env_key_blocked : (key : String) → IsBlocked key → env_key_blocked key ≡ true
unfolding env_key_blocked
IsBlocked-env_key_blocked key (for_loader rest e) =
    ground (arith, has_prefix-append key "LD_" rest e)
IsBlocked-env_key_blocked key (for_mac_loader rest e) =
    ground (arith, has_prefix-append key "DYLD_" rest e)
IsBlocked-env_key_blocked key (by_table i) = ground (arith, In-contains key blocked_exact i)

pub env_key_blocked-IsBlocked : (key : String) → env_key_blocked key ≡ true → IsBlocked key
unfolding env_key_blocked
env_key_blocked-IsBlocked key h = elim (Bool-cases (has_prefix key "LD_")) [
  | inl l ↦ (let (rest, e) = has_prefix_sound key "LD_" l in for_loader rest e)
  | inr n ↦ elim (Bool-cases (has_prefix key "DYLD_")) [
    | inl d ↦ (let (rest, e) = has_prefix_sound key "DYLD_" d in for_mac_loader rest e)
    | inr m ↦ by_table (contains-In key blocked_exact (ground (arith, h, n, m)))
  ]
]

module _ (selector : Assoc String) (exceptions : List EnvDenylistException) where
  pub excuses-IsExcused :
      (key : String)
      → (ex : EnvDenylistException) × In ex exceptions × (excuses key selector ex ≡ true)
      → IsExcused selector exceptions key
  excuses-IsExcused key (ex, i, h) = elim (Option-cases (lookup ex.selector_key selector)) [
    | inl n ↦ (let bad : ⊥ = ground (arith, (rw (n, excuses) at h)) in elim bad [ ])
    | inr (v, e) ↦
        let k = rw (e, excuses) at h in
        record {
          rule = ex;
          configured = i;
          pinned = e ∙ ap some ((eq_iff v ex.selector_value).0 (ground (arith, k)));
          lists = contains-In key ex.allowed_keys (ground (arith, k));
        }
  ]

  pub IsExcused-excuses :
      (key : String) (x : IsExcused selector exceptions key) → excuses key selector x.rule ≡ true
  IsExcused-excuses key x =
      rw (x.pinned, excuses, In-contains key x.rule.allowed_keys x.lists)
        (ground (arith, (eq_iff x.rule.selector_value x.rule.selector_value).1 refl))

  pub env_key_allowed-IsExcused :
      (key : String)
      → env_key_allowed_by_exception key selector exceptions ≡ true
      → IsExcused selector exceptions key
  unfolding env_key_allowed_by_exception
  env_key_allowed-IsExcused key h =
      excuses-IsExcused key (some_of-In (excuses key selector) exceptions (ground (arith, h)))

  pub IsExcused-env_key_allowed :
      (key : String)
      → env_key_blocked key ≡ true
      → IsExcused selector exceptions key
      → env_key_allowed_by_exception key selector exceptions ≡ true
  unfolding env_key_allowed_by_exception
  IsExcused-env_key_allowed key b x = ground (
    arith,
    b,
    In-some_of (excuses key selector) exceptions x.rule x.configured (IsExcused-excuses key x),
    In-length x.rule exceptions x.configured,
    lookup-length x.rule.selector_key selector x.rule.selector_value x.pinned,
  )
