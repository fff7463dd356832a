-- ===== src/EnvDenylist.antt =====
-- The denylist of environment keys, with its exceptions for jobs that are pinned to some nodes, and
-- the checks on a submission's environment (internal/api/env_denylist.go).
use Prim.Native.Char.{code}
use Prim.Native.String.{[], ◌∷◌}
use helion_v.Prelude.{
  String, Bool, true, false, Option, none, some, List, Assoc, lookup, length, ltb, contains, ◌++◌,
  ◌==◌, ◌&&◌, ◌||◌, not, str_eq, some_of, strip_prefix, if◌then◌else◌,
}
use helion_v.Prelude.{[], ◌∷◌}
pub mod Blocked
pub mod Verdict

-- envKeyBlockedPrefixes
abbrev pub blocked_prefixes : List String
blocked_prefixes = "LD_" ∷ "DYLD_" ∷ []

-- envKeyBlockedExact
abbrev pub blocked_exact : List String
blocked_exact = "GCONV_PATH" ∷ "GIO_EXTRA_MODULES" ∷ "HOSTALIASES" ∷ "NLSPATH" ∷ "RES_OPTIONS" ∷ []

-- strings.HasPrefix
abbrev pub has_prefix : (key prefix : String) → Bool
has_prefix key prefix = elim (strip_prefix prefix key) [ none ↦ false | some _ ↦ true ]

-- envKeyBlocked, without the text of its reason.
unfoldable pub env_key_blocked : String → Bool
unfolding strip_prefix contains
env_key_blocked key = some_of (has_prefix key) blocked_prefixes || contains key blocked_exact

pub record EnvDenylistException : Type 0 where
  pub selector_key : String
  pub selector_value : String
  pub allowed_keys : List String

-- The body of the loop of envKeyAllowedByException: whether it returns true.
abbrev pub excuses : String → Assoc String → EnvDenylistException → Bool
excuses key selector ex = elim (lookup ex.selector_key selector) [
  | none ↦ false
  | some v ↦ str_eq v ex.selector_value && contains key ex.allowed_keys
]

-- envKeyAllowedByException
unfoldable pub env_key_allowed_by_exception :
    String → Assoc String → List EnvDenylistException → Bool
unfolding env_key_blocked lookup
env_key_allowed_by_exception key selector exceptions =
    if not (env_key_blocked key)
    then false
    else if (length exceptions == 0) || (length selector == 0)
    then false
    else some_of (excuses key selector) exceptions

pub data EnvFault : Type 0 where
  too_many : EnvFault
  empty_key : EnvFault
  malformed_key : EnvFault
  malformed_value : EnvFault
  denied : EnvFault

pub record EnvValidationResult : Type 0 where
  pub err : Option EnvFault
  pub blocked_key : String
  pub overridden_keys : List String

abbrev pub no_result : EnvValidationResult
no_result = record { err = none; blocked_key = ""; overridden_keys = [] }

abbrev pub refuse : String → EnvValidationResult → EnvValidationResult
refuse key r = record r { err = some denied; blocked_key = key }

abbrev pub override : String → EnvValidationResult → EnvValidationResult
override key r = record r { overridden_keys = r.overridden_keys ++ key ∷ [] }

-- strings.ContainsAny(k, "=\x00")
unfoldable pub has_separator : String → Bool
has_separator [] = false
has_separator (c ∷ s) = (code c == b'=') || (code c == 0) || has_separator s

-- strings.ContainsRune(v, '\x00')
unfoldable pub has_nul : String → Bool
has_nul [] = false
has_nul (c ∷ s) = (code c == 0) || has_nul s

module _ (selector : Assoc String) (exceptions : List EnvDenylistException) where
  -- The loop of denylistOnly, over the entries in the order that the map gives them.
  unfoldable pub deny : Assoc String → EnvValidationResult → EnvValidationResult
  unfolding env_key_blocked env_key_allowed_by_exception
  deny [] r = r
  deny ((k, v) ∷ env) r =
      let skipped = deny env r in
      let overridden = deny env (override k r) in
      if not (env_key_blocked k)
      then skipped
      else if env_key_allowed_by_exception k selector exceptions
      then overridden
      else refuse k r

  -- denylistOnly
  unfoldable pub denylist_only : Assoc String → EnvValidationResult
  unfolding deny
  denylist_only env = deny env no_result

  -- The loop of validateEnvMap.
  unfoldable pub validate_entries : Assoc String → EnvValidationResult → EnvValidationResult
  unfolding env_key_blocked env_key_allowed_by_exception has_separator has_nul
  validate_entries [] r = r
  validate_entries ((k, v) ∷ env) r =
      let skipped = validate_entries env r in
      let overridden = validate_entries env (override k r) in
      if str_eq k ""
      then record r { err = some empty_key }
      else if has_separator k
      then record r { err = some malformed_key }
      else if has_nul v
      then record r { err = some malformed_value }
      else if not (env_key_blocked k)
      then skipped
      else if env_key_allowed_by_exception k selector exceptions
      then overridden
      else refuse k r

  -- validateEnvMap. The limit is maxEnvLen of handlers_jobs.go.
  unfoldable pub validate_env_map : Assoc String → EnvValidationResult
  unfolding validate_entries
  validate_env_map env =
      if ltb 128 (length env)
      then record no_result { err = some too_many }
      else validate_entries env no_result
