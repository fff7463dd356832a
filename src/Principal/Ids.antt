-- ===== src/Principal/Ids.antt =====
-- The ids of internal/principal/principal.go read back: no two kinds share an id.
use Prim.Native.String.{◌++◌}
use Prim.Native.String.append as Append
use helion_v.Prelude.{
  String, none, some, ◌≡◌, refl, ap, inl, inr, arith, lookup, eq_iff, str_eq, Bool-cases, false,
  All, lookup-All,
}
use helion_v.Principal.Cuts.{before_colon-append, behind_colon-append}
use helion_v.Principal.{prefixes, id_of, parse_id, before_colon, behind_colon}

before_colon-anonymous : before_colon "anonymous" ≡ none
unfolding before_colon
before_colon-anonymous = refl

parse_id-prefixed :
    (kind prefix subject : String)
    → before_colon prefix ≡ some kind
    → behind_colon prefix ≡ some ""
    → str_eq kind "" ≡ false
    → lookup kind prefixes ≡ some prefix
    → parse_id (prefix ++ subject) ≡ some (kind, subject)
unfolding parse_id
parse_id-prefixed kind prefix subject b r k l =
    let front = before_colon-append prefix subject kind b in
    let back = behind_colon-append prefix subject "" r in
    elim (Bool-cases (str_eq (prefix ++ subject) "anonymous")) [
      | inl same ↦
          (let bad : ⊥ = ground (
            arith,
            front,
            ap before_colon ((eq_iff (prefix ++ subject) "anonymous").0 same),
            before_colon-anonymous,
          ) in
            elim bad [ ])
      | inr other ↦ rw (other, front, k, l, back, Append.nil) refl
    ]

-- Each entry of the map is the kind with a colon behind it.
abbrev Cuts : String × String → Type 0
Cuts (kind, prefix) =
    (before_colon prefix ≡ some kind) × (behind_colon prefix ≡ some "") × (str_eq kind "" ≡ false)

prefixes-Cuts : All Cuts prefixes
unfolding prefixes before_colon behind_colon
prefixes-Cuts = (
  (refl, refl, refl),
  ((refl, refl, refl), ((refl, refl, refl), ((refl, refl, refl), ((refl, refl, refl), tt)))),
)

-- Reading an id that a constructor has made gives back its kind and its subject.
pub parse_id-id_of :
    (kind subject prefix : String)
    → lookup kind prefixes ≡ some prefix
    → parse_id (id_of kind subject) ≡ some (kind, subject)
unfolding id_of
parse_id-id_of kind subject prefix e =
    let (front, back, named) = lookup-All Cuts kind prefix prefixes prefixes-Cuts e in
    rw (id_of, e) (parse_id-prefixed kind prefix subject front back named e)
