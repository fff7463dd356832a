-- ===== src/Principal/Cuts.antt =====
-- Cutting a string at its first colon and joining its parts.
use Prim.Native.Char.{Char, code}
use Prim.Native.String.{[], ◌∷◌, ◌++◌}
use Prim.Native.String.append as Append
use text.Mathlib.TextEquality.{Char-path}
use helion_v.Prelude.{
  String, some, ◌≡◌, sym, ap, ◌∙◌, inl, inr, arith, some_cancel, Option-cases, Bool-cases, ◌==◌,
  ==_iff,
}
use helion_v.Principal.{before_colon, behind_colon}

-- A cut is the same with more text behind it.
pub before_colon-append :
    (p s k : String) → before_colon p ≡ some k → before_colon (p ++ s) ≡ some k
unfolding before_colon
before_colon-append [] s k e = (let bad : ⊥ = ground (arith, e) in elim bad [ ])
before_colon-append (c ∷ p) s k e =
    let later = before_colon-append p s in
    rw (Append.cons c p s, before_colon)
      (elim (Bool-cases (code c == b':')) [
        | inl colon ↦ rw colon (rw (colon, before_colon) at e)
        | inr other ↦ elim (Option-cases (before_colon p)) [
          | inl n ↦
              (let bad : ⊥ = ground (arith, (rw (other, n, before_colon) at e)) in elim bad [ ])
          | inr (front, f) ↦ rw (other, later front f) (rw (other, f, before_colon) at e)
        ]
      ])

pub behind_colon-append :
    (p s r : String) → behind_colon p ≡ some r → behind_colon (p ++ s) ≡ some (r ++ s)
unfolding behind_colon
behind_colon-append [] s r e = (let bad : ⊥ = ground (arith, e) in elim bad [ ])
behind_colon-append (c ∷ p) s r e =
    let later = behind_colon-append p s r in
    rw (Append.cons c p s, behind_colon)
      (elim (Bool-cases (code c == b':')) [
        | inl colon ↦
            rw colon (ap some (ap (λ z. z ++ s) (some_cancel (rw (colon, behind_colon) at e))))
        | inr other ↦ rw other (later (rw (other, behind_colon) at e))
      ])

abbrev colon_char : Char
colon_char = ":"

colon_first : (s : String) → ":" ++ s ≡ colon_char ∷ s
colon_first s = Append.cons colon_char "" s ∙ ap (λ z. colon_char ∷ z) (Append.nil s)

pub cut_joined :
    (s kind subject : String)
    → before_colon s ≡ some kind
    → behind_colon s ≡ some subject
    → s ≡ (kind ++ ":") ++ subject
unfolding before_colon behind_colon
cut_joined [] kind subject b r = (let bad : ⊥ = ground (arith, b) in elim bad [ ])
cut_joined (c ∷ s) kind subject b r =
    let later = cut_joined s in
    elim (Bool-cases (code c == b':')) [
      | inl colon ↦
          (let is_kind : "" ≡ kind = some_cancel (rw (colon, before_colon) at b) in
            let is_subject : s ≡ subject = some_cancel (rw (colon, behind_colon) at r) in
            let is_colon : c ≡ colon_char =
              Char-path c colon_char ((==_iff (code c) (code colon_char)).0 colon) in
            ap (λ z. z ∷ s) is_colon
            ∙ sym (colon_first s)
            ∙ ap (λ z. (z ++ ":") ++ s) is_kind
            ∙ ap (λ z. (kind ++ ":") ++ z) is_subject)
      | inr other ↦ elim (Option-cases (before_colon s)) [
        | inl n ↦ (let bad : ⊥ = ground (arith, (rw (other, n, before_colon) at b)) in elim bad [ ])
        | inr (front, f) ↦
            (let is_kind : c ∷ front ≡ kind = some_cancel (rw (other, f, before_colon) at b) in
              let tail = later front subject f (rw (other, behind_colon) at r) in
              ap (λ z. c ∷ z) tail
              ∙ sym (Append.cons c (front ++ ":") subject)
              ∙ ap (λ z. z ++ subject) (sym (Append.cons c front ":"))
              ∙ ap (λ z. (z ++ ":") ++ subject) is_kind)
      ]
    ]
