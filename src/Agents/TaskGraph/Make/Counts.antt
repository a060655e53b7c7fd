-- ===== src/Agents/TaskGraph/Make/Counts.antt =====
-- How often an identifier occurs, for the constructor in task_graph.py.
use matterloop.Base.{
  ◌≡◌, refl, ℕ, suc, ◌+◌, ◌≤◌, ◌<◌, String, List, [], ◌∷◌, ◌++◌, true, false, elem, length, arith,
  ◌==◌, eq_iff, eq_self, Bool-cases, length-append, inl, inr, if◌then◌else◌,
}
use matterloop.Agents.TaskGraph.{enqueue}
use matterloop.Agents.TaskGraph.Settled.{elem-append, length-enqueue}

unfoldable pub count : String → List String → ℕ
count k [] = 0
count k (x ∷ xs) = (if x == k then 1 else 0) + count k xs

pub count-append : (k : String) (xs ys : List String) → count k (xs ++ ys) ≡ count k xs + count k ys
unfolding count
count-append k [] ys = omega arith
count-append k (x ∷ xs) ys = ground (arith, count-append k xs ys)

pub count_positive : (k : String) (xs : List String) → elem k xs ≡ true → 0 < count k xs
unfolding count
count_positive k [] h = cc
count_positive k (x ∷ xs) h = ground (arith, eq_iff k x, eq_iff x k, count_positive k xs)

pub elem_counted : (k : String) (xs : List String) → 0 < count k xs → elem k xs ≡ true
unfolding count
elem_counted k [] h = absurd (omega arith)
elem_counted k (x ∷ xs) h = ground (arith, eq_iff k x, eq_iff x k, elem_counted k xs)

-- A list without one occurrence of an element.
erase : String → List String → List String
erase k [] = []
erase k (x ∷ xs) = let rest = erase k xs in if x == k then xs else x ∷ rest

length-erase :
    (k : String) (xs : List String) → 0 < count k xs → suc (length (erase k xs)) ≡ length xs
unfolding count erase
length-erase k [] h = absurd (omega arith)
length-erase k (x ∷ xs) h = ground (arith, length-erase k xs)

count-erase :
    (j k : String) (xs : List String)
    → count j xs ≤ count j (erase k xs) + (if k == j then 1 else 0)
unfolding count erase
count-erase j k [] = omega arith
count-erase j k (x ∷ xs) = ground (arith, eq_iff x k, eq_iff x j, eq_iff k j, count-erase j k xs)

-- A list whose elements all occur at least as often in another is no longer than it.
pub pigeonhole :
    (xs ys : List String) → ((k : String) → count k xs ≤ count k ys) → length xs ≤ length ys
unfolding count
pigeonhole [] ys h = omega arith
pigeonhole (x ∷ xs) ys h =
    let there : 0 < count x ys = ground (arith, h x, eq_self x) in
    let shorter : length xs ≤ length (erase x ys) =
      pigeonhole xs (erase x ys) (λ k. ground (arith, h k, count-erase k x ys)) in
    omega (arith, length-erase x ys there, shorter)

-- `len(ids) == len(set(ids))`: no identifier occurs twice.
enqueue_all :
    (xs : List String) (d : String) (ds : List String)
    → length xs + length (d ∷ ds) ≤ length (enqueue xs (d ∷ ds))
    → (elem d xs ≡ false) × (length (xs ++ d ∷ []) + length ds ≤ length (enqueue (xs ++ d ∷ []) ds))
unfolding enqueue
enqueue_all xs d ds h = elim (Bool-cases (elem d xs)) [
  | inl y ↦ absurd (omega (arith, rw y at h, length-enqueue xs ds))
  | inr n ↦ (n, omega (arith, rw n at h, length-append xs (d ∷ [])))
]

unique-enqueue :
    (xs ds : List String)
    → length xs + length ds ≤ length (enqueue xs ds)
    → (k : String) → elem k xs ≡ true
    → elem k ds ≡ false
unique-enqueue xs [] h k m = refl
unique-enqueue xs (d ∷ ds) h k m =
    let (n, h') = enqueue_all xs d ds h in
    let later : elem k ds ≡ false =
      unique-enqueue (xs ++ d ∷ []) ds h' k (rw elem-append (ground (arith, m))) in
    ground (arith, later, n, m, eq_iff k d)

pub count_unique :
    (xs ds : List String)
    → length xs + length ds ≤ length (enqueue xs ds)
    → (k : String) → count k ds ≤ 1
unfolding count
count_unique xs [] h k = omega arith
count_unique xs (d ∷ ds) h k =
    let (n, h') = enqueue_all xs d ds h in
    let later : elem d ds ≡ false =
      unique-enqueue (xs ++ d ∷ []) ds h' d (rw elem-append (ground (arith, eq_self d))) in
    elim (Bool-cases (d == k)) [
      | inl y ↦ rw y (ground (arith, rw ((eq_iff d k).0 y) at later, elem_counted k ds))
      | inr m ↦ rw m (omega (arith, count_unique (xs ++ d ∷ []) ds h' k))
    ]
