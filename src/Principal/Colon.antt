-- ===== src/Principal/Colon.antt =====
-- A string cut at its first colon, as strings.IndexByte(id, ':') and slices do it.
use Prim.Native.Char.{code}
use Prim.Native.String.{[], ◌∷◌}
use helion_v.Prelude.{String, Option, none, some, ◌==◌, if◌then◌else◌}

-- What stands behind the first colon; and whether anything stands before it, by the first match.
unfoldable pub behind_colon : String → Option String
behind_colon [] = none
behind_colon (c ∷ s) = let rest = behind_colon s in if code c == b':' then some s else rest

-- `colon > 0`
unfoldable pub subject_part : String → Option String
unfolding behind_colon
subject_part [] = none
subject_part (c ∷ s) = if code c == b':' then none else behind_colon s

-- What stands before the first colon, when there is one.
unfoldable pub before_colon : String → Option String
before_colon [] = none
before_colon (c ∷ s) =
    let rest = before_colon s in
    if code c == b':' then some "" else elim rest [ none ↦ none | some front ↦ some (c ∷ front) ]
