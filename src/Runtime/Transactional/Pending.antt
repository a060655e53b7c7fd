-- ===== src/Runtime/Transactional/Pending.antt =====
-- `pending_records` of the execution ledger (ledger.py): which records its sorted selection has.
use matterloop.Base.{
  ◌≡◌, refl, ℕ, ◌≤◌, All, String, List, [], ◌∷◌, Option, none, some, Bool, false, ◌==◌, keep,
  if◌then◌else◌, arith, eq_iff, Bool-cases, inl, inr, ◌∙◌, ap,
}
use matterloop.Base.Dict.{Dict, get, values}
use matterloop.Runtime.Ledger.{ExecutionRecord, Ledger}
use matterloop.Runtime.Transactional.{
  precedes, insert_record, sort_records, is_selected, pending_records,
}

-- The record of an identifier in a list.
unfoldable pub find : String → List ExecutionRecord → Option ExecutionRecord
find k [] = none
find k (r ∷ rs) = let rest = find k rs in if r.execution_id == k then some r else rest

abbrev pub Distinct : List ExecutionRecord → Type 0
Distinct [] = Unit
Distinct (r ∷ rs) = (find r.execution_id rs ≡ none) × Distinct rs

-- Each record stands once, under its own identifier.
abbrev pub Records : Dict ExecutionRecord → Type 0
Records [] = Unit
Records ((id, r) ∷ d) = (r.execution_id ≡ id) × (get d id ≡ none) × Records d

find-insert_record :
    (k : String) (r : ExecutionRecord) (rs : List ExecutionRecord)
    → find r.execution_id rs ≡ none
    → find k (insert_record r rs) ≡ (if r.execution_id == k then some r else find k rs)
unfolding find insert_record
find-insert_record k r [] e = refl
find-insert_record k r (s ∷ rs) e = ground (
  arith,
  e,
  eq_iff s.execution_id k,
  eq_iff s.execution_id r.execution_id,
  eq_iff r.execution_id k,
  find-insert_record k r rs,
)

Distinct-insert_record :
    (r : ExecutionRecord) (rs : List ExecutionRecord)
    → find r.execution_id rs ≡ none
    → Distinct rs
    → Distinct (insert_record r rs)
unfolding find insert_record
Distinct-insert_record r [] e d = (refl, tt)
Distinct-insert_record r (s ∷ rs) e (here, d) = elim (Bool-cases (precedes r s)) [
  | inl y ↦ rw y (e, (here, d))
  | inr n ↦
      (let apart : (s.execution_id == r.execution_id) ≡ false = ground (arith, e) in
        let rest : find r.execution_id rs ≡ none = ground (arith, e) in
        rw n (
          ground (
            arith,
            apart,
            here,
            eq_iff s.execution_id r.execution_id,
            eq_iff r.execution_id s.execution_id,
            find-insert_record s.execution_id r rs rest,
          ),
          Distinct-insert_record r rs rest d,
        ))
]

abbrev Sorts : List ExecutionRecord → Type 0
Sorts rs = ((k : String) → find k (sort_records rs) ≡ find k rs) × Distinct (sort_records rs)

Sorts-sort_records : (rs : List ExecutionRecord) → Distinct rs → Sorts rs
unfolding find sort_records
Sorts-sort_records [] d = (λ k. refl, tt)
Sorts-sort_records (r ∷ rs) (here, d) =
    let ih = Sorts-sort_records rs d in
    let new = ih.0 r.execution_id ∙ here in
    (
      λ k.
          find-insert_record k r (sort_records rs) new
          ∙ ap (λ (o : Option ExecutionRecord). if r.execution_id == k then some r else o) (ih.0 k),
      Distinct-insert_record r (sort_records rs) new ih.1,
    )

module _ (p : ExecutionRecord → Bool) where
  find-keep :
      (k : String) (d : Dict ExecutionRecord)
      → Records d
      → find k (keep p (values d))
        ≡ elim (get d k) [ none ↦ none | some r ↦ if p r then some r else none ]
  unfolding find get
  find-keep k [] h = refl
  find-keep k ((id, r) ∷ d) (own, once, h) =
      ground (arith, eq_iff id k, eq_iff r.execution_id k, find-keep k d h, own, once)

  Distinct-keep : (d : Dict ExecutionRecord) → Records d → Distinct (keep p (values d))
  Distinct-keep [] h = tt
  Distinct-keep ((id, r) ∷ d) (own, once, h) = elim (Bool-cases (p r)) [
    | inr n ↦ rw (n, keep, Distinct) (Distinct-keep d h)
    | inl y ↦
        rw (y, keep, Distinct)
          (ground (arith, find-keep r.execution_id d h, ap (get d) own, once), Distinct-keep d h)
  ]

-- The pending records are distinct, and they are those of the dictionary that are selected.
pub Distinct-pending_records :
    (run_id : Option String) (l : Ledger) → Records l.records → Distinct (pending_records run_id l)
unfolding pending_records
Distinct-pending_records run_id l h =
    (Sorts-sort_records _ (Distinct-keep (is_selected run_id) l.records h)).1

pub find-pending_records :
    (run_id : Option String) (k : String) (l : Ledger)
    → Records l.records
    → find k (pending_records run_id l) ≡ elim (get l.records k) [
      | none ↦ none
      | some r ↦ if is_selected run_id r then some r else none
    ]
unfolding pending_records
find-pending_records run_id k l h =
    (Sorts-sort_records _ (Distinct-keep (is_selected run_id) l.records h)).0 k
    ∙ find-keep (is_selected run_id) k l.records h

-- Each record was created no later than those behind it.
abbrev pub InOrder : List ExecutionRecord → Type 0
InOrder [] = Unit
InOrder (r ∷ rs) = All (λ (s : ExecutionRecord). r.created_at ≤ s.created_at) rs × InOrder rs

later_than :
    (t u : ℕ) (rs : List ExecutionRecord)
    → t ≤ u
    → All (λ (s : ExecutionRecord). u ≤ s.created_at) rs
    → All (λ (s : ExecutionRecord). t ≤ s.created_at) rs
later_than t u [] h a = tt
later_than t u (s ∷ rs) h (a, b) = (omega (arith, h, a), later_than t u rs h b)

All-insert_record :
    (t : ℕ) (r : ExecutionRecord) (rs : List ExecutionRecord)
    → t ≤ r.created_at
    → All (λ (s : ExecutionRecord). t ≤ s.created_at) rs
    → All (λ (s : ExecutionRecord). t ≤ s.created_at) (insert_record r rs)
unfolding insert_record
All-insert_record t r [] h a = (h, tt)
All-insert_record t r (s ∷ rs) h (a, b) = elim (Bool-cases (precedes r s)) [
  | inl y ↦ rw y (h, (a, b))
  | inr n ↦ rw n (a, All-insert_record t r rs h b)
]

InOrder-insert_record :
    (r : ExecutionRecord) (rs : List ExecutionRecord) → InOrder rs → InOrder (insert_record r rs)
unfolding insert_record precedes
InOrder-insert_record r [] o = (tt, tt)
InOrder-insert_record r (s ∷ rs) (a, o) = elim (Bool-cases (precedes r s)) [
  | inl y ↦
      (let first : r.created_at ≤ s.created_at = ground (arith, y) in
        rw y ((first, later_than r.created_at s.created_at rs first a), (a, o)))
  | inr n ↦
      (let first : s.created_at ≤ r.created_at = ground (arith, n) in
        rw n (All-insert_record s.created_at r rs first a, InOrder-insert_record r rs o))
]

InOrder-sort_records : (rs : List ExecutionRecord) → InOrder (sort_records rs)
unfolding sort_records
InOrder-sort_records [] = tt
InOrder-sort_records (r ∷ rs) = InOrder-insert_record r (sort_records rs) (InOrder-sort_records rs)

pub InOrder-pending_records :
    (run_id : Option String) (l : Ledger) → InOrder (pending_records run_id l)
unfolding pending_records
InOrder-pending_records run_id l =
    InOrder-sort_records (keep (is_selected run_id) (values l.records))
