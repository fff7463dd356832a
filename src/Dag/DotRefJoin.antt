-- ===== src/Dag/DotRefJoin.antt =====
-- Splitting a reference and joining its parts.
use Prim.Native.Char.{Char, code}
use Prim.Native.String.{[], ◌∷◌, ◌++◌}
use Prim.Native.String.append as Append
use text.Mathlib.TextEquality.{Char-path}
use helion_v.Prelude.{
  ==_iff, String, Bool, false, none, some, ◌==◌, ◌||◌, str_eq, eq_iff, ◌≡◌, ◌≢◌, ◌↔◌, refl, sym, ap,
  ◌∙◌, inl, inr, arith, Bool-cases, Option-cases, some_cancel,
}
use helion_v.Dag.DotRef.{last_dot, split_dot_ref}

-- Whether a string has a dot.
unfoldable pub has_dot : String → Bool
has_dot [] = false
has_dot (c ∷ s) = (code c == b'.') || has_dot s

last_dot-none : (s : String) → has_dot s ≡ false → last_dot s ≡ none
unfolding last_dot has_dot
last_dot-none [] h = refl
last_dot-none (c ∷ s) h =
    let rest = last_dot-none s (ground arith) in rw (rest, last_dot) (ground arith)

abbrev pub joined : String → String → String
joined upstream output = upstream ++ ("." ++ output)

abbrev dot : Char
dot = "."

dot_first : (output : String) → "." ++ output ≡ dot ∷ output
dot_first output = Append.cons dot "" output ∙ ap (λ z. dot ∷ z) (Append.nil output)

last_dot-joined :
    (upstream output : String)
    → has_dot output ≡ false
    → last_dot (joined upstream output) ≡ some (upstream, output)
unfolding last_dot
last_dot-joined [] output h =
    rw (Append.nil ("." ++ output), dot_first, last_dot-none output h, last_dot) refl
last_dot-joined (c ∷ s) output h =
    let rest = last_dot-joined s output h in
    rw (Append.cons c s ("." ++ output), rest, last_dot) refl

last_dot-none_has : (s : String) → last_dot s ≡ none → has_dot s ≡ false
unfolding last_dot has_dot
last_dot-none_has [] h = refl
last_dot-none_has (c ∷ s) h =
    let behind = last_dot-none_has s in
    elim (Option-cases (last_dot s)) [
      | inr (p, e) ↦ (let bad : ⊥ = ground (arith, (rw (e, last_dot) at h)) in elim bad [ ])
      | inl e ↦ rw (behind e) (ground (arith, (rw (e, last_dot) at h)))
    ]

last_dot-parts :
    (s upstream output : String)
    → last_dot s ≡ some (upstream, output)
    → (s ≡ joined upstream output) × (has_dot output ≡ false)
unfolding last_dot
last_dot-parts [] upstream output h = (let bad : ⊥ = ground (arith, h) in elim bad [ ])
last_dot-parts (c ∷ s) upstream output h =
    let behind = last_dot-parts s in
    elim (Option-cases (last_dot s)) [
      | inr ((l, r), e) ↦
          let (joins, clean) = behind l r e in
          let same = some_cancel (rw (e, last_dot) at h) in
          rw (sym (ap (λ p. p.0) same), sym (ap (λ p. p.1) same))
            (ap (λ z. c ∷ z) joins ∙ sym (Append.cons c l ("." ++ r)), clean)
      | inl e ↦ elim (Bool-cases (code c == b'.')) [
        | inr n ↦ (let bad : ⊥ = ground (arith, (rw (e, last_dot, n) at h)) in elim bad [ ])
        | inl y ↦
            let same = some_cancel (rw (e, last_dot, y) at h) in
            let is_dot : c ≡ dot = Char-path c dot ((==_iff (code c) b'.').0 y) in
            rw (sym (ap (λ p. p.0) same), sym (ap (λ p. p.1) same), is_dot)
              (sym (Append.nil ("." ++ s) ∙ dot_first s), last_dot-none_has s e)
      ]
    ]

-- A reference is split into an upstream, which is not empty, and an output exactly where it is the
-- two joined by a dot, and the output is not empty and has no dot: the upstream may have dots.
pub split_dot_ref_iff :
    (ref upstream output : String)
    → upstream ≢ ""
    → ((split_dot_ref ref ≡ (upstream, output))
        ↔ ((ref ≡ joined upstream output) × (output ≢ "") × (has_dot output ≡ false)))
unfolding split_dot_ref
split_dot_ref_iff ref upstream output n = (there, back)
  where
    there :
        split_dot_ref ref ≡ (upstream, output)
        → (ref ≡ joined upstream output) × (output ≢ "") × (has_dot output ≡ false)
    there h = elim (Option-cases (last_dot ref)) [
      | inl e ↦ elim (n (sym (ap (λ p. p.0) (rw (e, split_dot_ref) at h)))) [ ]
      | inr ((l, r), e) ↦ elim (Bool-cases (str_eq l "" || str_eq r "")) [
        | inl y ↦ elim (n (sym (ap (λ p. p.0) (rw (e, split_dot_ref, y) at h)))) [ ]
        | inr y ↦
            let same = rw (e, split_dot_ref, y) at h in
            let (joins, clean) = last_dot-parts ref l r e in
            rw (sym (ap (λ p. p.0) same), sym (ap (λ p. p.1) same))
              (joins, (λ z. ground (arith, y, eq_iff r "", z)), clean)
      ]
    ]

    back :
        (ref ≡ joined upstream output) × (output ≢ "") × (has_dot output ≡ false)
        → split_dot_ref ref ≡ (upstream, output)
    back (joins, m, clean) =
        let found : last_dot ref ≡ some (upstream, output) =
          rw joins (last_dot-joined upstream output clean) in
        let kept : (str_eq upstream "" || str_eq output "") ≡ false =
          ground (arith, eq_iff upstream "", eq_iff output "", n, m) in
        rw (found, split_dot_ref, kept) refl
