-- ===== src/Groups/Names.antt =====
-- ValidateName and ValidatePrincipalID (internal/groups/groups.go). An error is its sentinel.
use Prim.Native.Char.{code}
use Prim.Native.String.{[], ◌∷◌, len}
use helion_v.Prelude.{
  ℕ, String, Bool, true, false, not, ◌&&◌, ◌||◌, Option, none, some, leb, ltb, ◌==◌, str_eq,
  if◌then◌else◌,
}
use helion_v.Principal.{before_colon, behind_colon}

pub data GroupError : Type 0 where
  group_exists group_not_found invalid_name invalid_principal : GroupError

abbrev pub between : ℕ → ℕ → ℕ → Bool
between low high c = leb low c && leb c high

-- The characters that a name may have.
unfoldable pub name_char : ℕ → Bool
name_char c =
    between b'a' b'z' c
    || between b'A' b'Z' c
    || between b'0' b'9' c
    || (c == b'_')
    || (c == b'-')
    || (c == b'.')

unfoldable pub name_chars : String → Bool
unfolding name_char
name_chars [] = true
name_chars (c ∷ s) = name_char (code c) && name_chars s

unfoldable pub starts_with_dot : String → Bool
starts_with_dot [] = false
starts_with_dot (c ∷ s) = code c == b'.'

-- ValidateName
unfoldable pub validate_name : String → Option GroupError
unfolding name_chars starts_with_dot
validate_name name =
    if len name == 0
    then some invalid_name
    else if ltb 64 (len name)
    then some invalid_name
    else if not (name_chars name)
    then some invalid_name
    else if starts_with_dot name
    then some invalid_name
    else none

-- ValidatePrincipalID
unfoldable pub validate_principal_id : String → Option GroupError
unfolding before_colon behind_colon
validate_principal_id id =
    if str_eq id ""
    then some invalid_principal
    else if str_eq id "anonymous"
    then none
    else elim (before_colon id) [
      | none ↦ some invalid_principal
      | some kind ↦ elim (behind_colon id) [
        | none ↦ some invalid_principal
        | some subject ↦
            if str_eq kind "" || str_eq subject "" || str_eq kind "group"
            then some invalid_principal
            else none
      ]
    ]
