-- ===== src/Runtime/Transactional/Recovery.antt =====
-- `recover` of `TransactionalExecutor` (transactional.py): every record that was in execution waits for
-- reconciliation, and nothing else changes.
use matterloop.Base.{
  ◌≡◌, refl, ℕ, suc, String, List, [], ◌∷◌, Option, none, some, true, false, ◌==◌, if◌then◌else◌,
  map, ◌⊎◌, arith, eq_iff, eq_self, Bool-cases, Option-cases, inl, inr, ◌∙◌, sym, ap, ◌&&◌, not,
}
use matterloop.Base.Dict.{Dict, get, put, get-put}
use matterloop.Runtime.Ledger.{
  ExecutionStatus, is_pending, is_prepared, ExecutionRecord, Ledger, Result, ok,
  require_reconciliation, update_record, legal,
}
use matterloop.Runtime.Transactional.{
  RecoveryAction, RecoveryDecision, of_run, is_selected, pending_records, recover_record,
  recover_records, recover, reconcile_answer,
}
use matterloop.Runtime.Transactional.Stages.{transition-found}
use matterloop.Runtime.Transactional.Pending.{
  find, Distinct, InOrder, InOrder-pending_records, Records, Distinct-pending_records,
  find-pending_records,
}

-- The decision on a record of a status: one that never started is released, any other is reconciled.
abbrev pub decide_as : ExecutionStatus → ExecutionRecord → RecoveryDecision
decide_as status r = record {
  execution_id = r.execution_id;
  action = if is_prepared status then RecoveryAction.release else RecoveryAction.reconcile;
}

abbrev pub decide : ExecutionRecord → RecoveryDecision
decide r = decide_as r.status r

abbrev pub marked : ℕ → ExecutionRecord → ExecutionRecord
marked now r = record r { status = ExecutionStatus.reconciliation_required; updated_at = now }

abbrev after_as : ExecutionStatus → ℕ → ExecutionRecord → ExecutionRecord
after_as status now r = if is_prepared status then r else marked now r

-- A record that was pending, afterwards.
abbrev after : ℕ → ExecutionRecord → ExecutionRecord
after now r = after_as r.status now r

-- One record of the loop.
record Handles (status : ExecutionStatus) (r : ExecutionRecord) (now : ℕ) (l : Ledger)
    : Type 0 where
  answer : (recover_record status r now l).0 ≡ ok (decide_as status r)
  here : get (recover_record status r now l).1.records r.execution_id ≡ some (after_as status now r)
  others :
      (k : String)
      → (r.execution_id == k) ≡ false
      → get (recover_record status r now l).1.records k ≡ get l.records k

module _ (r : ExecutionRecord) (now : ℕ) (l : Ledger)
    (e : get l.records r.execution_id ≡ some r) where
  recover-executing :
      r.status ≡ ExecutionStatus.executing
      → recover_record ExecutionStatus.executing r now l ≡ (
        ok (decide_as ExecutionStatus.executing r),
        record l { records = put l.records r.execution_id (marked now r) },
      )
  unfolding recover_record require_reconciliation legal update_record
  recover-executing s =
      ap (λ (x : Result ExecutionRecord × Ledger). (reconcile_answer r.execution_id x.0, x.1))
        (transition-found r.execution_id ExecutionStatus.reconciliation_required none none now r l e
          (ap (λ (t : ExecutionStatus). legal t ExecutionStatus.reconciliation_required) s))

  Handles-executing :
      r.status ≡ ExecutionStatus.executing → Handles ExecutionStatus.executing r now l
  Handles-executing s =
      let step = recover-executing s in
      record {
        answer = rw step refl;
        here = rw step (rw (get-put, eq_self) refl);
        others = λ k n. rw step (rw (get-put, n) refl);
      }

  Handles-recover_record :
      (status : ExecutionStatus)
      → r.status ≡ status
      → is_pending status ≡ true
      → Handles status r now l
  unfolding recover_record is_pending
  Handles-recover_record ExecutionStatus.prepared s y = record {
    answer = refl;
    here = e;
    others = λ k n. refl;
  }
  Handles-recover_record ExecutionStatus.executing s y = Handles-executing s
  Handles-recover_record _ s y = cc

-- The loop over distinct pending records of the ledger.
abbrev Stored : List ExecutionRecord → Ledger → Type 0
Stored rs l =
    (k : String) (r : ExecutionRecord)
    → find k rs ≡ some r
    → (r.execution_id ≡ k) × (get l.records k ≡ some r) × (is_pending r.status ≡ true)

abbrev after_all : ℕ → Option ExecutionRecord → Option ExecutionRecord → Option ExecutionRecord
after_all now none o = o
after_all now (some r) o = some (after now r)

record Recovers (rs : List ExecutionRecord) (l : Ledger)
    (x : Result (List RecoveryDecision) × Ledger) : Type 0 where
  answer : x.0 ≡ ok (map decide rs)
  changed :
      (k : String) → (now : ℕ) × (get x.1.records k ≡ after_all now (find k rs) (get l.records k))

module _ (r : ExecutionRecord) (rs : List ExecutionRecord)
    (apart : find r.execution_id rs ≡ none) where
  find-other :
      (k : String) (s : ExecutionRecord) → find k rs ≡ some s → (r.execution_id == k) ≡ false
  find-other k s f = elim (Bool-cases (r.execution_id == k)) [
    | inr n ↦ n
    | inl y ↦ cc (f, apart, (eq_iff r.execution_id k).0 y)
  ]

  find-tail : (k : String) (s : ExecutionRecord) → find k rs ≡ some s → find k (r ∷ rs) ≡ some s
  unfolding find
  find-tail k s f = rw (find-other k s f) f

  Stored-tail :
      (now : ℕ) (l : Ledger)
      → Handles r.status r now l
      → Stored (r ∷ rs) l
      → Stored rs (recover_record r.status r now l).1
  Stored-tail now l h p k s f =
      let (own, stored, waits) = p k s (find-tail k s f) in
      (own, h.others k (find-other k s f) ∙ stored, waits)

  changed_head :
      (now : ℕ) (l : Ledger)
      → Handles r.status r now l
      → (x : Ledger)
      → ((k : String)
          → (t : ℕ) × (get x.records k
              ≡ after_all t (find k rs) (get (recover_record r.status r now l).1.records k)))
      → (k : String) → (t : ℕ) × (get x.records k ≡ after_all t (find k (r ∷ rs)) (get l.records k))
  unfolding find
  changed_head now l h x c k =
      let (t, e) = c k in
      elim (Bool-cases (r.execution_id == k)) [
        | inr n ↦ (t, rw n (e ∙ ap (after_all t (find k rs)) (h.others k n)))
        | inl y ↦
            (let same = (eq_iff r.execution_id k).0 y in
              (
                now,
                rw y (
                    e
                    ∙ ap
                        (λ (o : Option ExecutionRecord).
                          after_all t o (get (recover_record r.status r now l).1.records k))
                        (ap (λ (i : String). find i rs) (sym same) ∙ apart)
                    ∙ ap (get (recover_record r.status r now l).1.records) (sym same)
                    ∙ h.here),
              ))
      ]

Recovers-recover_records :
    (clock : ℕ → ℕ) (n : ℕ) (rs : List ExecutionRecord) (l : Ledger)
    → Distinct rs
    → Stored rs l
    → Recovers rs l (recover_records clock n rs l)
unfolding recover_records find
Recovers-recover_records clock n [] l d p = record { answer = refl; changed = λ k. (0, refl) }
Recovers-recover_records clock n (r ∷ rs) l (apart, d) p =
    let own = p r.execution_id r (rw eq_self refl) in
    let h = Handles-recover_record r (clock n) l own.1 r.status refl own.2 in
    let l' = (recover_record r.status r (clock n) l).1 in
    let ih =
      Recovers-recover_records clock (suc n) rs l' d (Stored-tail r rs apart (clock n) l h p) in
    rw (h.answer, recover_records)
      (record {
        answer = rw ih.answer refl;
        changed =
            changed_head r rs apart (clock n) l h (recover_records clock (suc n) rs l').1
              ih.changed;
      })

own_id :
    (k : String) (r : ExecutionRecord) (d : Dict ExecutionRecord)
    → Records d
    → get d k ≡ some r
    → r.execution_id ≡ k
unfolding get
own_id k r [] h e = cc
own_id k r ((j, s) ∷ d) (own, once, h) e = elim (Bool-cases (j == k)) [
  | inl y ↦ cc ((rw y at e), own, (eq_iff j k).0 y)
  | inr n ↦ own_id k r d h (rw n at e)
]

selected_found :
    (run_id : Option String) (k : String) (l : Ledger) (r : ExecutionRecord)
    → Records l.records
    → get l.records k ≡ some r
    → find k (pending_records run_id l) ≡ (if is_selected run_id r then some r else none)
selected_found run_id k l r h e =
    find-pending_records run_id k l h
    ∙ ap
        (λ (o : Option ExecutionRecord). elim o [
          | none ↦ none
          | some r ↦ if is_selected run_id r then some r else none
        ])
        e

Stored-pending_records :
    (run_id : Option String) (l : Ledger) → Records l.records → Stored (pending_records run_id l) l
Stored-pending_records run_id l h k s f = elim (Option-cases (get l.records k)) [
  | inl n ↦ cc (
    f,
    find-pending_records run_id k l h
        ∙ ap
            (λ (o : Option ExecutionRecord). elim o as (λ o. Option ExecutionRecord) [
              | none ↦ none
              | some r ↦ if is_selected run_id r then some r else none
            ])
            n,
  )
  | inr (r, e) ↦
      (let g = selected_found run_id k l r h e in
        elim (Bool-cases (is_selected run_id r)) [
          | inr n ↦ cc (f, g, n)
          | inl y ↦
              (let same : s ≡ r = cc (f, g, y) in
                rw same (own_id k r l.records h e, e, ground (arith, y)))
        ])
]

changed_as :
    (run_id : Option String) (now : ℕ) (r : ExecutionRecord) (o : Option ExecutionRecord)
    → o ≡ some r
    → after_all now (if is_selected run_id r then some r else none) o
      ≡ some (if is_selected run_id r && not (is_prepared r.status) then marked now r else r)
changed_as run_id now r o e = elim (Bool-cases (is_selected run_id r)) [
  | inr n ↦ rw n e
  | inl y ↦
      rw y (elim (Bool-cases (is_prepared r.status)) [ inl p ↦ rw p refl | inr p ↦ rw p refl ])
]

recovered :
    (run_id : Option String) (clock : ℕ → ℕ) (l : Ledger)
    → Records l.records
    → ((recover run_id clock l).0 ≡ ok (map decide (pending_records run_id l)))
      × ((k : String) (r : ExecutionRecord)
          → get l.records k ≡ some r
          → (now : ℕ) × (get (recover run_id clock l).1.records k
              ≡ some
                  (if is_selected run_id r && not (is_prepared r.status) then marked now r else r)))
unfolding recover
recovered run_id clock l h =
    let rs = pending_records run_id l in
    let x =
      Recovers-recover_records clock 0 rs l (Distinct-pending_records run_id l h)
        (Stored-pending_records run_id l h) in
    (
      x.answer,
      λ k r e. (
        (x.changed k).0,
        (x.changed k).1
            ∙ ap (λ (o : Option ExecutionRecord). after_all (x.changed k).0 o (get l.records k))
                (selected_found run_id k l r h e)
            ∙ changed_as run_id (x.changed k).0 r (get l.records k) e,
      ),
    )

-- A record belongs to the run that is recovered, if one is given.
abbrev pub InRun : Option String → ExecutionRecord → Type 0
InRun none r = Unit
InRun (some id) r = r.run_id ≡ id

abbrev pub IsDue : Option String → ExecutionRecord → Type 0
IsDue run_id r =
    ((r.status ≡ ExecutionStatus.prepared) ⊎ (r.status ≡ ExecutionStatus.executing))
    × InRun run_id r

pending_status :
    (s : ExecutionStatus)
    → is_pending s ≡ true
    → (s ≡ ExecutionStatus.prepared) ⊎ (s ≡ ExecutionStatus.executing)
unfolding is_pending
pending_status ExecutionStatus.prepared y = inl refl
pending_status ExecutionStatus.executing y = inr refl
pending_status _ y = cc

status_pending :
    (s : ExecutionStatus)
    → (s ≡ ExecutionStatus.prepared) ⊎ (s ≡ ExecutionStatus.executing)
    → is_pending s ≡ true
unfolding is_pending
status_pending s (inl e) = rw e refl
status_pending s (inr e) = rw e refl

InRun-of_run :
    (run_id : Option String) (r : ExecutionRecord) → of_run run_id r ≡ true → InRun run_id r
InRun-of_run none r y = tt
InRun-of_run (some id) r y = (eq_iff r.run_id id).0 y

of_run-InRun :
    (run_id : Option String) (r : ExecutionRecord) → InRun run_id r → of_run run_id r ≡ true
of_run-InRun none r h = refl
of_run-InRun (some id) r h = (eq_iff r.run_id id).1 h

selected→IsDue :
    (run_id : Option String) (r : ExecutionRecord) → is_selected run_id r ≡ true → IsDue run_id r
selected→IsDue run_id r y =
    (pending_status r.status (ground (arith, y)), InRun-of_run run_id r (ground (arith, y)))

IsDue→selected :
    (run_id : Option String) (r : ExecutionRecord) → IsDue run_id r → is_selected run_id r ≡ true
IsDue→selected run_id r (s, h) = rw (status_pending r.status s, of_run-InRun run_id r h) refl

module _ (run_id : Option String) (k : String) (l : Ledger) (h : Records l.records)
    (r : ExecutionRecord) where
  pending_sound :
      find k (pending_records run_id l) ≡ some r → (get l.records k ≡ some r) × IsDue run_id r
  pending_sound f =
      let (own, stored, waits) = Stored-pending_records run_id l h k r f in
      (
        stored,
        elim (Bool-cases (is_selected run_id r)) [
          | inl y ↦ selected→IsDue run_id r y
          | inr n ↦ cc (f, selected_found run_id k l r h stored, n)
        ],
      )

  pending_complete :
      get l.records k ≡ some r → IsDue run_id r → find k (pending_records run_id l) ≡ some r
  pending_complete e d = rw (IsDue→selected run_id r d) at (selected_found run_id k l r h e)

not_marked :
    (run_id : Option String) (r : ExecutionRecord)
    → ¬ ((r.status ≡ ExecutionStatus.executing) × InRun run_id r)
    → (is_selected run_id r && not (is_prepared r.status)) ≡ false
not_marked run_id r u = elim (Bool-cases (is_selected run_id r)) [
  | inr n ↦ rw n refl
  | inl y ↦
      (let due = selected→IsDue run_id r y in
        elim due.0 [ inl e ↦ rw (y, e) refl | inr e ↦ absurd (u (e, due.1)) ])
]

-- `recover`, in a ledger where each record stands once under its own identifier, returns a decision
-- for each of a list of records: to release a prepared one, to reconcile one in execution. The list has
-- exactly the records of the ledger that are prepared or in execution, of the run if one is given, each
-- once, and none after one that was created later. Afterwards each of them that was in execution waits
-- for reconciliation, with only its status and time changed, and every other record is as before.
pub recover_marks :
    (run_id : Option String) (clock : ℕ → ℕ) (l : Ledger)
    → Records l.records
    → ((rs : List ExecutionRecord) × ((recover run_id clock l).0 ≡ ok (map decide rs))
        × InOrder rs
        × Distinct rs
        × ((k : String) (r : ExecutionRecord)
            → find k rs ≡ some r
            → (get l.records k ≡ some r) × IsDue run_id r)
        × ((k : String) (r : ExecutionRecord)
            → get l.records k ≡ some r
            → IsDue run_id r
            → find k rs ≡ some r))
      × ((k : String) (r : ExecutionRecord)
          → get l.records k ≡ some r
          → r.status ≡ ExecutionStatus.executing
          → InRun run_id r
          → (now : ℕ) × (get (recover run_id clock l).1.records k ≡ some (marked now r)))
      × ((k : String) (r : ExecutionRecord)
          → get l.records k ≡ some r
          → ¬ ((r.status ≡ ExecutionStatus.executing) × InRun run_id r)
          → get (recover run_id clock l).1.records k ≡ some r)
recover_marks run_id clock l h = (
  (
    pending_records run_id l,
    (recovered run_id clock l h).0,
    InOrder-pending_records run_id l,
    Distinct-pending_records run_id l h,
    λ k r f. pending_sound run_id k l h r f,
    λ k r e d. pending_complete run_id k l h r e d,
  ),
  λ k r e s u.
      let (now, c) = (recovered run_id clock l h).1 k r e in
      (now, rw (IsDue→selected run_id r (inr s, u), s) at c),
  λ k r e u. let (now, c) = (recovered run_id clock l h).1 k r e in rw (not_marked run_id r u) at c,
)
