-- ===== src/Policies/Usage/Sums.antt =====
-- usage.py: the costs of a sum and of a difference, and how the checked values grow.
use matterloop.Base.{
  ◌≡◌, refl, ℕ, ◌+◌, ◌-◌, ◌≤◌, String, List, [], ◌∷◌, ◌++◌, Option, none, some, false, eqb, elem,
  arith, ◌==◌, ◌||◌, eq_iff, eq_self, Bool-cases, inl, inr, if◌then◌else◌,
}
use matterloop.Base.Dict.{Dict, get, keys}
use matterloop.Policies.Usage.{
  UsageAmount, amount_at, currencies, cost_for, costs, add, fits, difference, subtract, exceeds,
}

pub absent_key : (d : Dict ℕ) (c : String) → elem c (keys d) ≡ false → amount_at d c ≡ 0
unfolding amount_at get
absent_key [] c h = refl
absent_key ((j, v) ∷ d) c h = ground (arith, eq_iff j c, eq_iff c j, absent_key d c, h)

amount_at-here :
    (f : String → ℕ) (cs : List String) (j : String)
    → amount_at (costs f cs) j ≡ (if elem j cs then f j else 0)
    → amount_at (costs f (j ∷ cs)) j ≡ f j
unfolding costs amount_at get
amount_at-here f cs j h = elim (Bool-cases (eqb (f j) 0)) [
  | inl z ↦ rw z (ground (arith, z, h))
  | inr n ↦ rw n (ground (arith, eq_self j))
]

pub amount_at-costs :
    (f : String → ℕ) (cs : List String) (c : String)
    → amount_at (costs f cs) c ≡ (if elem c cs then f c else 0)
unfolding costs amount_at get
amount_at-costs f [] c = refl
amount_at-costs f (j ∷ cs) c = elim (Bool-cases (j == c)) [
  | inl y ↦
      let same : j ≡ c = (eq_iff j c).0 y in
      rw (← same) (rw (eq_self j) (amount_at-here f cs j (amount_at-costs f cs j)))
  | inr n ↦ ground (arith, n, amount_at-costs f cs c, eq_iff c j, eq_iff j c)
]

pub elem-append : (k : String) (xs ys : List String) → elem k (xs ++ ys) ≡ (elem k xs || elem k ys)
elem-append k [] ys = refl
elem-append k (x ∷ xs) ys = ground (arith, elem-append k xs ys)

pub cost_for-add :
    (l r : UsageAmount) (c : String) → cost_for (add l r) c ≡ cost_for l c + cost_for r c
unfolding cost_for add
cost_for-add l r c =
    let sum = amount_at-costs (λ c. cost_for l c + cost_for r c) (currencies l r) c in
    elim (Bool-cases (elem c (currencies l r))) [
      | inl y ↦ ground (arith, sum, y)
      | inr n ↦ ground (
        arith,
        sum,
        n,
        absent_key l.costs_micros c,
        absent_key r.costs_micros c,
        elem-append c (keys l.costs_micros) (keys r.costs_micros),
      )
    ]

pub cost_for-difference :
    (l r : UsageAmount) (c : String) → cost_for (difference l r) c ≤ cost_for l c
unfolding cost_for difference
cost_for-difference l r c =
    let diff = amount_at-costs (λ c. cost_for l c - cost_for r c) (currencies l r) c in
    elim (Bool-cases (elem c (currencies l r))) [
      | inl y ↦ ground (arith, diff, y)
      | inr n ↦ ground (arith, diff, n)
    ]

pub subtract-difference : (l r u : UsageAmount) → subtract l r ≡ some u → u ≡ difference l r
unfolding subtract
subtract-difference l r u e = elim (Bool-cases (fits l r)) [
  | inl y ↦ cc (rw (y, subtract) at e)
  | inr n ↦ cc (rw (n, subtract) at e)
]

-- Values that are no greater exceed no limit that the others keep.
abbrev pub Below : List ℕ → List ℕ → Type 0
Below [] ws = Unit
Below (v ∷ vs) [] = (v ∷ vs) ≡ []
Below (v ∷ vs) (w ∷ ws) = (v ≤ w) × Below vs ws

pub exceeds-Below :
    (vs ws : List ℕ) (limits : List (Option ℕ))
    → Below vs ws
    → exceeds ws limits ≡ false
    → exceeds vs limits ≡ false
unfolding exceeds
exceeds-Below [] ws limits b h = refl
exceeds-Below (v ∷ vs) [] limits b h = cc
exceeds-Below (v ∷ vs) (w ∷ ws) [] b h = refl
exceeds-Below (v ∷ vs) (w ∷ ws) (none ∷ limits) b h = exceeds-Below vs ws limits (b.1) h
exceeds-Below (v ∷ vs) (w ∷ ws) (some l ∷ limits) b h =
    let rest : exceeds vs limits ≡ false = exceeds-Below vs ws limits (b.1) (ground (arith, h)) in
    ground (arith, b.0, h, rest)
