-- ===== src/Dag/DotRef.antt =====
-- splitDotRef (internal/cluster/dag.go): "<upstream>.<output>", split at the last dot.
use Prim.Native.Char.{code}
use Prim.Native.String.{[], ◌∷◌}
use helion_v.Prelude.{String, Option, none, some, ◌==◌, ◌||◌, str_eq, if◌then◌else◌}

-- What stands before the last dot and behind it, by strings.LastIndexByte.
unfoldable pub last_dot : String → Option (String × String)
last_dot [] = none
last_dot (c ∷ s) = elim (last_dot s) [
  | some found ↦ some (c ∷ found.0, found.1)
  | none ↦ if code c == b'.' then some ([], s) else none
]

-- `dot <= 0 || dot == len(ref)-1`
abbrev pub both_parts : String × String → String × String
both_parts found = if str_eq found.0 "" || str_eq found.1 "" then ("", "") else found

unfoldable pub split_dot_ref : String → String × String
unfolding last_dot
split_dot_ref ref = elim (last_dot ref) [ none ↦ ("", "") | some found ↦ both_parts found ]
