-- ===== src/Scheduler/RoundRobin.antt =====
-- RoundRobinPolicy (internal/cluster/policy.go).
use Prim.Native.String.{◌++◌, compare}
use Prim.Native.Nat.{Ordering}
use native.Mathlib.Nat.{mod-eq_of_lt, mod-add-mod, add-mod_right}
use helion_v.Prelude.{
  ℕ, zero, suc, ◌+◌, ◌-◌, ◌%◌, ◌^◌, ◌≤◌, ◌<◌, String, Bool, true, false, Option, none, some, List,
  [], ◌∷◌, Assoc, length, lookup, insert, get_elem?, ltb, ◌==◌, if◌then◌else◌, ◌≡◌, ◌≢◌, arith,
  lookup-insert_self, lt→ltb, leb, Bool-cases, inl, inr, subst, sym, ◌∙◌, ltb→lt, not_ltb→le, ap,
  lt_of_lt_of_le,
}
use helion_v.Node.{Node}
use helion_v.Scheduler.{Policy}

-- `a < b` on strings: the order of the bytes of UTF-8 is that of the code points.
abbrev str_less : String → String → Bool
str_less a b = elim (compare a b) [ Ordering.lt ↦ true | _ ↦ false ]

-- sort.Strings
abbrev insert_sorted : String → List String → List String
insert_sorted x [] = x ∷ []
insert_sorted x (y ∷ ys) = if str_less y x then y ∷ insert_sorted x ys else x ∷ y ∷ ys

abbrev sort_strings : List String → List String
sort_strings [] = []
sort_strings (x ∷ xs) = insert_sorted x (sort_strings xs)

-- strings.Join(ids, "|")
abbrev join_ids : List String → String
join_ids [] = ""
join_ids (x ∷ []) = x
join_ids (x ∷ y ∷ rest) = x ++ ("|" ++ join_ids (y ∷ rest))

abbrev node_ids : List Node → List String
node_ids [] = []
node_ids (n ∷ ns) = n.node_id ∷ node_ids ns

-- candidateSetKey
unfoldable pub candidate_set_key : List Node → String
candidate_set_key nodes = join_ids (sort_strings (node_ids nodes))

-- The value of the counter of a candidate set; a fresh one is 0. An int64, as its bit pattern.
abbrev pub counter_for : Assoc ℕ → String → ℕ
counter_for counters key = elim (lookup key counters) [ none ↦ 0 | some c ↦ c ]

-- `int(counter.Add(1)-1) % len(nodes)`. Go's remainder has the sign of the counter, and a negative
-- index panics; that is `none` here.
abbrev pub rotation_index : ℕ → ℕ → Option ℕ
rotation_index counter size =
    if ltb counter (2 ^ 63)
    then some (counter % size)
    else if (2 ^ 64 - counter) % size == 0
    then some 0
    else none

abbrev pub node_at : List Node → Option ℕ → Option Node
node_at nodes none = none
node_at nodes (some i) = get_elem? nodes i

-- RoundRobinPolicy.Pick
unfoldable pub round_robin_pick : Assoc ℕ → List Node → Assoc ℕ × Option Node
round_robin_pick counters [] = (counters, none)
round_robin_pick counters (n ∷ ns) =
    let key = candidate_set_key (n ∷ ns) in
    let counter = counter_for counters key in
    (
      insert key ((counter + 1) % 2 ^ 64) counters,
      node_at (n ∷ ns) (rotation_index counter (length (n ∷ ns))),
    )

abbrev pub round_robin : Policy
round_robin = record { State = Assoc ℕ; pick = round_robin_pick }

-- The counters after some picks from the same nodes.
abbrev pub after_picks : ℕ → Assoc ℕ → List Node → Assoc ℕ
after_picks zero counters nodes = counters
after_picks (suc t) counters nodes = (round_robin_pick (after_picks t counters nodes) nodes).0

-- The answer of the pick behind `t` others.
abbrev pub nth_pick : ℕ → Assoc ℕ → List Node → Option Node
nth_pick t counters nodes = (round_robin_pick (after_picks t counters nodes) nodes).1

-- Adding the numbers below `size` to any start meets each remainder once.
wrap_once : (x size : ℕ) → size ≤ x → x < size + size → x % size ≡ x - size
wrap_once x size l u =
    let e : x ≡ (x - size) + size = omega arith in
    subst (λ y. y % size ≡ x - size) (sym e)
      (add-mod_right (x - size) size ∙ mod-eq_of_lt (omega arith))

turn_of : (r i size : ℕ) → ℕ
turn_of r i size = if leb r i then i - r else i + size - r

module _ (r i size : ℕ) (below : r < size) (target : i < size) where
  turn_below : turn_of r i size < size
  unfolding turn_of
  turn_below = ground arith

  turn_hits : (r + turn_of r i size) % size ≡ i
  unfolding turn_of
  turn_hits = elim (Bool-cases (leb r i)) [
    | inl le ↦ rw le (let e : r + (i - r) ≡ i = ground arith in rw e (mod-eq_of_lt target))
    | inr gt ↦
        rw gt (wrap_once (r + (i + size - r)) size (ground arith) (ground arith) ∙ ground arith)
  ]

  turn_only : (u : ℕ) → u < size → (r + u) % size ≡ i → u ≡ turn_of r i size
  unfolding turn_of
  turn_only u h e = elim (Bool-cases (ltb (r + u) size)) [
    | inl short ↦ (let p : (r + u) % size ≡ r + u = mod-eq_of_lt (ltb→lt _ _ short) in ground arith)
    | inr long ↦
        (let p : (r + u) % size ≡ r + u - size =
            wrap_once (r + u) size (not_ltb→le _ _ long) (omega arith) in
          ground arith)
  ]

add_lt : (c : ℕ) {a b : ℕ} → a < b → c + a < c + b
add_lt c h = omega arith

module _ (counters : Assoc ℕ) (n : Node) (ns : List Node) where
  abbrev nodes : List Node
  nodes = n ∷ ns

  abbrev start : ℕ
  start = counter_for counters (candidate_set_key nodes)

  -- Each pick counts one up.
  counter_after :
      (t : ℕ)
      → start + t < 2 ^ 64
      → counter_for (after_picks t counters nodes) (candidate_set_key nodes) ≡ start + t
  unfolding round_robin_pick
  counter_after zero h = omega arith
  counter_after (suc t) h =
      let old = counter_after t (omega arith) in
      rw (counter_for, lookup-insert_self) (rw old (omega arith))

  nth_pick_lem :
      (t : ℕ)
      → start + t < 2 ^ 63
      → nth_pick t counters nodes ≡ get_elem? nodes ((start + t) % length nodes)
  unfolding round_robin_pick
  nth_pick_lem t h = rw (counter_after t (omega arith), lt→ltb (start + t) (2 ^ 63) h)

  -- Among `length nodes` picks in a row from the same candidates, as long as the counter stays
  -- below 2 ^ 63, the node at each position is picked in exactly one turn: every other turn picks
  -- the node at another position.
  pub round_robin_fair :
      start + length nodes ≤ 2 ^ 63
      → (i : ℕ) → i < length nodes
      → (t : ℕ) × ((t < length nodes)
          × (nth_pick t counters nodes ≡ get_elem? nodes i)
          × ((u : ℕ)
              → u < length nodes
              → u ≢ t
              → (j : ℕ) × (j < length nodes)
                × (j ≢ i)
                × (nth_pick u counters nodes ≡ get_elem? nodes j)))
  round_robin_fair room i h =
      let size = length nodes in
      let below : start % size < size = omega arith in
      let t = turn_of (start % size) i size in
      let bound = turn_below (start % size) i size below h in
      let hits : (start + t) % size ≡ i =
        sym (mod-add-mod start size t) ∙ turn_hits (start % size) i size below h in
      (
        t,
        (
          bound,
          nth_pick_lem t (lt_of_lt_of_le (add_lt start bound) room)
              ∙ ap (λ j. get_elem? nodes j) hits,
          λ u v other. (
            (start + u) % size,
            omega arith,
            (λ e.
                other (turn_only (start % size) i size below h u v (mod-add-mod start size u ∙ e))),
            nth_pick_lem u (lt_of_lt_of_le (add_lt start v) room),
          ),
        ),
      )
