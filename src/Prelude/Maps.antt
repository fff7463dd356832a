-- ===== src/Prelude/Maps.antt =====
-- A Go map with string keys: an association list. A range over the map visits the entries; no
-- theorem depends on the order.
use mathlib.Core.Path.{◌≡◌, sym, subst}
use mathlib.Core.Logic.{inl, inr}
use mathlib.Core.Bool.{false}
use mathlib.Core.List.{List, [], ◌∷◌}
use mathlib.Core.Option.{Option, none, some}
use Prim.Native.String.{String}
use native.Mathlib.Omega.{arith}
use text.Mathlib.Text.{◌==◌ as str_eq}
use text.Mathlib.TextEquality.{eq_iff}
use text.Mathlib.TextPositions.{eq_refl}
use helion_v.Prelude.Tests.{if◌then◌else◌, Bool-cases, some_cancel}
use helion_v.Prelude.Lists.{All}

abbrev pub Assoc {ℓ} : Type ℓ → Type ℓ
Assoc Val = List (String × Val)

module _ {ℓ} {Val : Type ℓ} where
  -- delete(m, key)
  unfoldable pub delete : (key : String) → Assoc Val → Assoc Val
  delete key [] = []
  delete key ((label, old) ∷ others) =
      let kept = delete key others in if str_eq label key then kept else (label, old) ∷ kept

  -- m[key] = new: in place where the key is there, else behind the other entries.
  unfoldable pub insert : (key : String) → (new : Val) → Assoc Val → Assoc Val
  insert key new [] = (key, new) ∷ []
  insert key new ((label, old) ∷ others) =
      if str_eq label key then (label, new) ∷ others else (label, old) ∷ insert key new others

  -- m[key], with the second result.
  unfoldable pub lookup : (key : String) → Assoc Val → Option Val
  lookup key [] = none
  lookup key ((label, held) ∷ others) = if str_eq label key then some held else lookup key others

  pub lookup-delete :
      (key asked : String) (entries : Assoc Val)
      → lookup asked (delete key entries)
        ≡ (if str_eq key asked then none else lookup asked entries)
  unfolding lookup delete
  lookup-delete key asked [] = ground arith
  lookup-delete key asked ((label, held) ∷ others) = ground (
    arith,
    lookup-delete key asked others,
    eq_iff label asked,
    eq_iff key asked,
    eq_iff label key,
  )

  pub lookup-insert :
      (key asked : String) (new : Val) (entries : Assoc Val)
      → lookup asked (insert key new entries)
        ≡ (if str_eq key asked then some new else lookup asked entries)
  unfolding lookup insert
  lookup-insert key asked new [] = ground arith
  lookup-insert key asked new ((label, held) ∷ others) = ground (
    arith,
    lookup-insert key asked new others,
    eq_iff label asked,
    eq_iff key asked,
    eq_iff label key,
  )

  pub lookup-insert_at :
      (key asked : String) (new : Val) (entries : Assoc Val)
      → key ≡ asked
      → lookup asked (insert key new entries) ≡ some new
  lookup-insert_at key asked new entries same =
      ground (arith, lookup-insert key asked new entries, eq_iff key asked)

  pub lookup-insert_self :
      (key : String) (new : Val) (entries : Assoc Val)
      → lookup key (insert key new entries) ≡ some new
  lookup-insert_self key new entries = rw (lookup-insert, eq_refl key)

-- What all entries have, a looked-up one has.
pub lookup-All {ℓ κ} :
    {Val : Type ℓ} (P : String × Val → Type κ) (key : String) (held : Val) (entries : Assoc Val)
    → All P entries
    → lookup key entries ≡ some held
    → P (key, held)
unfolding lookup
lookup-All P key held [] all e = (let bad : ⊥ = ground (arith, e) in elim bad [ ])
lookup-All P key held ((label, old) ∷ others) (first, rest) e =
    let later = lookup-All P key held others rest in
    elim (Bool-cases (str_eq label key)) [
      | inl same ↦
          subst (λ v. P (key, v)) (some_cancel (rw (same, lookup) at e))
            (subst (λ k. P (k, old)) ((eq_iff label key).0 same) first)
      | inr other ↦ later (rw (other, lookup) at e)
    ]

-- What the entries have, they have behind an insertion and a deletion.
pub All-insert {ℓ κ} :
    {Val : Type ℓ} (P : String × Val → Type κ) (key : String) (new : Val) (entries : Assoc Val)
    → P (key, new)
    → All P entries
    → All P (insert key new entries)
unfolding insert
All-insert P key new [] h all = (h, tt)
All-insert P key new ((label, old) ∷ others) h (first, rest) =
    let later = All-insert P key new others h rest in
    elim (Bool-cases (str_eq label key)) [
      | inl same ↦
          rw (insert, same) (subst (λ k. P (k, new)) (sym ((eq_iff label key).0 same)) h, rest)
      | inr other ↦ rw (insert, other) (first, later)
    ]

pub All-delete {ℓ κ λ'} :
    {Val : Type ℓ} (P : String × Val → Type κ) (Q : String × Val → Type λ') (key : String)
    (entries : Assoc Val)
    → ((entry : String × Val) → P entry → str_eq entry.0 key ≡ false → Q entry)
    → All P entries
    → All Q (delete key entries)
unfolding delete
All-delete P Q key [] f all = tt
All-delete P Q key ((label, old) ∷ others) f (first, rest) =
    let later = All-delete P Q key others f rest in
    elim (Bool-cases (str_eq label key)) [
      | inl same ↦ rw (delete, same) later
      | inr other ↦ rw (delete, other) (f (label, old) first other, later)
    ]
