-- ===== src/Gpu/Loop.antt =====
-- The loop of Allocate (internal/runtime/gpu_alloc.go): what it picks and what it leaves.
use helion_v.Prelude.{
  ℕ, zero, suc, ◌+◌, ◌-◌, ◌≤◌, ◌<◌, String, true, false, some, List, [], ◌∷◌, length, ◌==◌, ==_iff,
  if◌then◌else◌, ◌≡◌, ◌≢◌, inl, inr, refl, sym, ◌∙◌, subst, arith, Bool-cases, In, here, there,
}
use helion_v.Gpu.{owner, claimed, pick_free}

-- How many indices from `idx` on are free.
unfoldable pub free_from : (left idx : ℕ) → List (ℕ × String) → ℕ
unfolding claimed
free_from zero idx busy = 0
free_from (suc left) idx busy =
    let rest = free_from left (idx + 1) busy in if claimed idx busy then rest else suc rest

-- A claim below the range changes nothing in it, and a claim in it takes at most one index away.
pub claimed-cons :
    (idx k : ℕ) (job : String) (busy : List (ℕ × String))
    → claimed idx ((k, job) ∷ busy) ≡ (if k == idx then true else claimed idx busy)
unfolding claimed owner
claimed-cons idx k job busy = ground arith

pub free_from-below :
    (left idx k : ℕ) (job : String) (busy : List (ℕ × String))
    → k < idx
    → free_from left idx ((k, job) ∷ busy) ≡ free_from left idx busy
unfolding free_from
free_from-below zero idx k job busy h = refl
free_from-below (suc left) idx k job busy h =
    ground (arith, free_from-below left (idx + 1) k job busy, claimed-cons idx k job busy)

pub free_from-cons :
    (left idx k : ℕ) (job : String) (busy : List (ℕ × String))
    → free_from left idx busy ≤ suc (free_from left idx ((k, job) ∷ busy))
unfolding free_from
free_from-cons zero idx k job busy = omega arith
free_from-cons (suc left) idx k job busy = ground (
  arith,
  free_from-cons left (idx + 1) k job busy,
  free_from-below left (idx + 1) k job busy,
  claimed-cons idx k job busy,
)

pub free_from-nil : (left idx : ℕ) → free_from left idx [] ≡ left
unfolding free_from claimed owner
free_from-nil zero idx = refl
free_from-nil (suc left) idx = omega (arith, free_from-nil left (idx + 1))

-- At most as many are taken as the map has entries.
pub enough_free :
    (left idx : ℕ) (busy : List (ℕ × String)) → left ≤ free_from left idx busy + length busy
enough_free left idx [] = omega (arith, free_from-nil left idx)
enough_free left idx ((k, job) ∷ busy) =
    omega (arith, enough_free left idx busy, free_from-cons left idx k job busy)

-- One turn of the loop, by its two tests.
pub data Turn (job : String) (left idx need : ℕ) (busy : List (ℕ × String))
    (r : List (ℕ × String) × List ℕ) : Type 0 where
  done : need ≡ 0 → r ≡ (busy, []) → Turn job left idx need busy r
  skips :
      need ≢ 0
      → claimed idx busy ≡ true
      → r ≡ pick_free job left (idx + 1) need busy
      → Turn job left idx need busy r
  takes :
      need ≢ 0
      → claimed idx busy ≡ false
      → r ≡ (
        (pick_free job left (idx + 1) (need - 1) ((idx, job) ∷ busy)).0,
        idx ∷ (pick_free job left (idx + 1) (need - 1) ((idx, job) ∷ busy)).1,
      )
      → Turn job left idx need busy r

pub turn :
    (job : String) (left idx need : ℕ) (busy : List (ℕ × String))
    → Turn job left idx need busy (pick_free job (suc left) idx need busy)
unfolding pick_free
turn job left idx need busy = elim (Bool-cases (need == 0)) [
  | inl z ↦ done (ground (arith, z)) (rw (pick_free, z) refl)
  | inr n ↦ elim (Bool-cases (claimed idx busy)) [
    | inl c ↦ skips (ground (arith, n)) c (rw (pick_free, n, c) refl)
    | inr c ↦ takes (ground (arith, n)) c (rw (pick_free, n, c) refl)
  ]
]

-- Each index is below all that follow.
abbrev pub IsAscending : List ℕ → Type 0
IsAscending [] = Unit
IsAscending (x ∷ xs) = ((y : ℕ) → In y xs → x < y) × IsAscending xs

-- What the loop has picked and what the map is then.
pub record Picks (job : String) (left idx need : ℕ) (busy : List (ℕ × String))
    (r : List (ℕ × String) × List ℕ) : Type 0 where
  pub enough : need ≤ free_from left idx busy → length r.1 ≡ need
  pub ascending : IsAscending r.1
  pub fresh : (i : ℕ) → In i r.1 → (idx ≤ i) × (i < idx + left) × (claimed i busy ≡ false)
  pub owned : (i : ℕ) → In i r.1 → owner i r.0 ≡ some job
  pub kept : (i : ℕ) → ((In i r.1 → ⊥)) → owner i r.0 ≡ owner i busy
  pub lowest :
      (i : ℕ) → idx ≤ i → claimed i busy ≡ false → (In i r.1 → ⊥) → (k : ℕ) → In k r.1 → k < i

pub Picks-skip :
    (job : String) (left idx need : ℕ) (busy : List (ℕ × String)) (r : List (ℕ × String) × List ℕ)
    → claimed idx busy ≡ true
    → Picks job left (idx + 1) need busy r
    → Picks job (suc left) idx need busy r
unfolding free_from
Picks-skip job left idx need busy r c p = record {
  enough = λ h. p.enough (ground (arith, c, h));
  ascending = p.ascending;
  fresh = λ i m. (let (a, b, f) = p.fresh i m in (omega (arith, a), omega (arith, b), f));
  owned = p.owned;
  kept = p.kept;
  lowest = λ i h f n k m. p.lowest i (past i h f) f n k m;
}
  where
    past : (i : ℕ) → idx ≤ i → claimed i busy ≡ false → idx + 1 ≤ i
    past i h f = elim (Bool-cases (idx == i)) [
      | inl same ↦
          (let bad : ⊥ = ground (arith, c, (rw (sym ((==_iff idx i).0 same)) at f)) in elim bad [ ])
      | inr other ↦ ground (arith, other, h)
    ]

pub owner-cons :
    (i k : ℕ) (job : String) (busy : List (ℕ × String))
    → owner i ((k, job) ∷ busy) ≡ (if k == i then some job else owner i busy)
unfolding owner
owner-cons i k job busy = ground arith

module _ (job : String) (left idx need : ℕ) (busy : List (ℕ × String))
    (r : List (ℕ × String) × List ℕ)
    (p : Picks job left (idx + 1) (need - 1) ((idx, job) ∷ busy) r) where
  pub not_again : In idx r.1 → ⊥
  not_again m = (let (a, b, f) = p.fresh idx m in omega (arith, a))

  pub take-fresh :
      claimed idx busy ≡ false
      → (i : ℕ) → In i (idx ∷ r.1)
      → (idx ≤ i) × (i < idx + suc left) × (claimed i busy ≡ false)
  take-fresh c i (here e) =
      subst (λ z. (idx ≤ z) × (z < idx + suc left) × (claimed z busy ≡ false)) e
        (omega arith, omega arith, c)
  take-fresh c i (there m) =
      let (a, b, f) = p.fresh i m in
      (omega (arith, a), omega (arith, b), ground (arith, f, a, claimed-cons i idx job busy))

  pub take-owned : (i : ℕ) → In i (idx ∷ r.1) → owner i r.0 ≡ some job
  take-owned i (here e) =
      subst (λ z. owner z r.0 ≡ some job) e
        (p.kept idx not_again ∙ ground (arith, owner-cons idx idx job busy))
  take-owned i (there m) = p.owned i m

  pub apart_from : (i : ℕ) → (In i (idx ∷ r.1) → ⊥) → (idx == i) ≡ false
  apart_from i n = elim (Bool-cases (idx == i)) [
    | inl same ↦ elim (n (here ((==_iff idx i).0 same))) [ ]
    | inr other ↦ other
  ]

  pub take-kept : (i : ℕ) → (In i (idx ∷ r.1) → ⊥) → owner i r.0 ≡ owner i busy
  take-kept i n =
      p.kept i (λ m. n (there m)) ∙ ground (arith, owner-cons i idx job busy, apart_from i n)

  pub take-lowest :
      (i : ℕ)
      → idx ≤ i
      → claimed i busy ≡ false
      → (In i (idx ∷ r.1) → ⊥)
      → (k : ℕ) → In k (idx ∷ r.1)
      → k < i
  take-lowest i h f n k (here e) = subst (λ z. z < i) e (ground (arith, h, apart_from i n))
  take-lowest i h f n k (there m) =
      p.lowest i (ground (arith, h, apart_from i n))
        (ground (arith, f, apart_from i n, claimed-cons i idx job busy)) (λ j. n (there j)) k m

  pub Picks-take :
      need ≢ 0 → claimed idx busy ≡ false → Picks job (suc left) idx need busy (r.0, idx ∷ r.1)
  unfolding free_from
  Picks-take z c = record {
    enough = λ h.
        ground
          (arith, p.enough (ground (arith, h, c, free_from-below left (idx + 1) idx job busy)), z);
    ascending = (λ y m. (let (a, b, f) = p.fresh y m in omega (arith, a)), p.ascending);
    fresh = take-fresh c;
    owned = take-owned;
    kept = take-kept;
    lowest = take-lowest;
  }

pub pick_free-Picks :
    (job : String) (left idx need : ℕ) (busy : List (ℕ × String))
    → Picks job left idx need busy (pick_free job left idx need busy)
unfolding free_from pick_free
pick_free-Picks job zero idx need busy = record {
  enough = λ h. ground arith;
  ascending = tt;
  fresh = λ i m. elim m [ ];
  owned = λ i m. elim m [ ];
  kept = λ i n. refl;
  lowest = λ i h c n k m. elim m [ ];
}
pick_free-Picks job (suc left) idx need busy = elim (turn job left idx need busy) [
  | done z q ↦ subst (Picks job (suc left) idx need busy) (sym q) (record {
    enough = λ h. omega (arith, z);
    ascending = tt;
    fresh = λ i m. elim m [ ];
    owned = λ i m. elim m [ ];
    kept = λ i n. refl;
    lowest = λ i h c n k m. elim m [ ];
  })
  | skips n c q ↦
      subst (Picks job (suc left) idx need busy) (sym q)
        (Picks-skip job left idx need busy _ c (pick_free-Picks job left (idx + 1) need busy))
  | takes n c q ↦ subst (Picks job (suc left) idx need busy) (sym q) (
      Picks-take job left idx need busy _
        (pick_free-Picks job left (idx + 1) (need - 1) ((idx, job) ∷ busy)) n c)
]
