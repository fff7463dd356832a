-- ===== src/Tests/Env.antt =====
-- Environments of submitted jobs, with and without an exception for the nodes with a GPU.
use helion_v.Prelude.{String, true, false, none, some, [], ◌∷◌, Assoc, ◌≡◌, ◌⊎◌, refl}
use helion_v.EnvDenylist.{
  EnvDenylistException, env_key_blocked, denied, malformed_key, denylist_only, validate_env_map,
}
use helion_v.EnvDenylist.Verdict.{Passed, Refused, denylist_only_correct}

abbrev gpu_rule : EnvDenylistException
gpu_rule = record {
  selector_key = "role";
  selector_value = "gpu";
  allowed_keys = "LD_LIBRARY_PATH" ∷ [];
}

abbrev cuda : Assoc String
cuda = ("HOME", "/w") ∷ ("LD_LIBRARY_PATH", "/cuda") ∷ []

abbrev pinned : Assoc String
pinned = ("role", "gpu") ∷ []

blocked_test :
    (env_key_blocked "LD_PRELOAD" ≡ true)
    × (env_key_blocked "NLSPATH" ≡ true)
    × (env_key_blocked "ld_preload" ≡ false)
unfolding env_key_blocked
blocked_test = (refl, refl, refl)

denylist_test :
    ((denylist_only pinned (gpu_rule ∷ []) cuda).err ≡ none)
    × ((denylist_only pinned (gpu_rule ∷ []) cuda).overridden_keys ≡ "LD_LIBRARY_PATH" ∷ [])
    × ((denylist_only [] (gpu_rule ∷ []) cuda).err ≡ some denied)
    × ((denylist_only [] (gpu_rule ∷ []) cuda).blocked_key ≡ "LD_LIBRARY_PATH")
    × ((validate_env_map [] [] (("A=B", "") ∷ [])).err ≡ some malformed_key)
unfolding denylist_only validate_env_map
denylist_test = (refl, refl, refl, refl, refl)

denylist_only_correct_example :
    let r = denylist_only pinned (gpu_rule ∷ []) cuda in
    Passed pinned (gpu_rule ∷ []) cuda r ⊎ Refused pinned (gpu_rule ∷ []) cuda r
denylist_only_correct_example = denylist_only_correct pinned (gpu_rule ∷ []) cuda
