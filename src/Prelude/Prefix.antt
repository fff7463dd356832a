-- ===== src/Prelude/Prefix.antt =====
-- strings.HasPrefix and strings.TrimPrefix.
use Prim.Native.Char.{code}
use Prim.Native.String.{String, [], ◌∷◌, ◌++◌}
use Prim.Native.String.append as Append
use text.Mathlib.TextEquality.{Char-path}
use mathlib.Core.Path.{◌≡◌, refl, ap, sym, ◌∙◌}
use mathlib.Core.Logic.{inl, inr}
use mathlib.Core.Option.{Option, none, some}
use native.Mathlib.Omega.{arith}
use helion_v.Prelude.Tests.{if◌then◌else◌, ◌==◌, ==_iff, Bool-cases, some_cancel}

-- What stands behind a prefix, where the string has it.
unfoldable pub strip_prefix : (prefix s : String) → Option String
strip_prefix [] s = some s
strip_prefix (c ∷ p) [] = none
strip_prefix (c ∷ p) (d ∷ s) =
    let rest = strip_prefix p s in if code c == code d then rest else none

pub strip_prefix_sound : (p s r : String) → strip_prefix p s ≡ some r → s ≡ p ++ r
unfolding strip_prefix
strip_prefix_sound [] s r e = some_cancel e ∙ sym (Append.nil r)
strip_prefix_sound (c ∷ p) [] r e = (let bad : ⊥ = ground (arith, e) in elim bad [ ])
strip_prefix_sound (c ∷ p) (d ∷ s) r e =
    let later = strip_prefix_sound p s r in
    elim (Bool-cases (code c == code d)) [
      | inl same ↦
          ap (λ v. d ∷ v) (later (rw (same, strip_prefix) at e))
          ∙ ap (λ z. z ∷ (p ++ r)) (sym (Char-path c d ((==_iff (code c) (code d)).0 same)))
          ∙ sym (Append.cons c p r)
      | inr other ↦ (let bad : ⊥ = ground (arith, (rw (other, strip_prefix) at e)) in elim bad [ ])
    ]

pub strip_prefix-append : (p r : String) → strip_prefix p (p ++ r) ≡ some r
unfolding strip_prefix
strip_prefix-append [] r = rw (Append.nil r) refl
strip_prefix-append (c ∷ p) r = rw (Append.cons c p r, strip_prefix-append p r) (ground arith)
