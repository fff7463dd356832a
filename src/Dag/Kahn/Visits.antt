-- ===== src/Dag/Kahn/Visits.antt =====
-- The loop over the children of a name: how a degree falls, and when its name enters the queue.
use helion_v.Prelude.{
  ℕ, ◌+◌, ◌-◌, ◌^◌, ◌≤◌, ◌<◌, String, true, false, List, [], ◌∷◌, ◌++◌, Assoc, insert, count,
  count-append, ◌≡◌, refl, arith, str_eq, eq_iff, if◌then◌else◌, Bool-cases, inl, inr, ◌==◌, ◌&&◌,
  ltb,
}
use text.Mathlib.TextPositions.{eq_refl}
use helion_v.Dag.Sort.{degree, decrement, visit}
use helion_v.Dag.Kahn.Degrees.{degree-insert}

decrement_pos : (d : ℕ) → 0 < d → d < 2 ^ 64 → decrement d ≡ d - 1
decrement_pos d p h = omega (arith, p, h)

-- One where the last of `n` decrements reaches zero.
abbrev pub released : ℕ → ℕ → ℕ
released n d = if ltb 0 n && (n == d) then 1 else 0

-- For a name that occurs at most as often as its degree.
pub record Visited (cs : List String) (m : Assoc ℕ) (queue : List String) (x : String)
    : Type 0 where
  pub falls : degree (visit cs m queue).0 x + count x cs ≡ degree m x
  pub queued : count x (visit cs m queue).1 ≡ count x queue + released (count x cs) (degree m x)

-- The turn for one child.
abbrev turn_degrees : String → Assoc ℕ → Assoc ℕ
turn_degrees c m = insert c (decrement (degree m c)) m

abbrev turn_queue : String → Assoc ℕ → List String → List String
turn_queue c m queue = if decrement (degree m c) == 0 then queue ++ c ∷ [] else queue

module _ (c x : String) (m : Assoc ℕ) (queue : List String) where
  turn-other-degree : str_eq c x ≡ false → degree (turn_degrees c m) x ≡ degree m x
  turn-other-degree n = rw (degree-insert, n) refl

  turn-other-queue : str_eq c x ≡ false → count x (turn_queue c m queue) ≡ count x queue
  unfolding count
  turn-other-queue n = elim (Bool-cases (decrement (degree m c) == 0)) [
    | inr z ↦ rw z refl
    | inl z ↦ rw z (ground (arith, count-append x queue (c ∷ []), n))
  ]

  module _ (y : str_eq c x ≡ true) (p : 0 < degree m x) (h : degree m x < 2 ^ 64) where
    turn-same-degree : degree (turn_degrees c m) x ≡ degree m x - 1
    turn-same-degree = rw (degree-insert, y, (eq_iff c x).0 y) (decrement_pos (degree m x) p h)

    turn-same-queue :
        count x (turn_queue c m queue) ≡ count x queue + (if degree m x == 1 then 1 else 0)
    unfolding count
    turn-same-queue =
        let e = (eq_iff c x).0 y in
        let falls = decrement_pos (degree m x) p h in
        let here = eq_refl x in
        rw e (elim (Bool-cases (degree m x == 1)) [
          | inl z ↦
              let last : (decrement (degree m x) == 0) ≡ true = ground (arith, falls, z) in
              rw (last, z) (ground (arith, count-append x queue (x ∷ []), here))
          | inr z ↦
              let on : (decrement (degree m x) == 0) ≡ false = ground (arith, falls, z, p) in
              rw (on, z) (omega arith)
        ])

pub visit-Visited :
    (cs : List String) (m : Assoc ℕ) (queue : List String) (x : String)
    → count x cs ≤ degree m x
    → degree m x < 2 ^ 64
    → Visited cs m queue x
unfolding visit count
visit-Visited [] m queue x le h = record { falls = omega arith; queued = ground arith }
visit-Visited (c ∷ cs) m queue x le h =
    let behind = visit-Visited cs (turn_degrees c m) (turn_queue c m queue) x in
    elim (Bool-cases (str_eq c x)) [
      | inr n ↦
          let d = turn-other-degree c x m queue n in
          let q = turn-other-queue c x m queue n in
          let v = behind (ground (arith, d, le, n)) (ground (arith, d, h)) in
          record {
            falls = ground (arith, v.falls, d, n);
            queued = ground (arith, v.queued, d, q, n);
          }
      | inl y ↦
          let p : 0 < degree m x = ground (arith, le, y) in
          let d = turn-same-degree c x m queue y p h in
          let q = turn-same-queue c x m queue y p h in
          let v = behind (ground (arith, d, le, y)) (ground (arith, d, h)) in
          record {
            falls = ground (arith, v.falls, d, y, p);
            queued = ground (arith, v.queued, d, q, y, p);
          }
    ]
