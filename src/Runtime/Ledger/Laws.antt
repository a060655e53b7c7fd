-- ===== src/Runtime/Ledger/Laws.antt =====
-- The invariant of `InMemoryExecutionLedger` (ledger.py) along any sequence of its calls.
use matterloop.Base.{
  ◌≡◌, refl, ◌≢◌, ℕ, String, List, [], ◌∷◌, Option, none, some, true, Bool-cases, Option-cases, inl,
  inr, arith, eq_iff,
}
use matterloop.Base.Dict.{get, put, get-put}
use matterloop.Runtime.Ledger.{
  ExecutionStatus, is_prepared, legal, ExecutionRecord, Ledger, empty, mark_executing, commit, fail,
  require_reconciliation, register, prepare_new, prepare, update_record, transition,
}

-- A record stands under its own identifier and is indexed by its request hash, and the index names
-- records that are there; a committed record has its result.
pub record IsConsistent (l : Ledger) : Type 0 where
  pub own_id : (k : String) (r : ExecutionRecord) → get l.records k ≡ some r → r.execution_id ≡ k
  pub indexed :
      (k : String) (r : ExecutionRecord)
      → get l.records k ≡ some r
      → get l.by_hash r.request_hash ≡ some k
  pub named : (h k : String) → get l.by_hash h ≡ some k → get l.records k ≢ none
  pub hash_of :
      (h k : String) (r : ExecutionRecord)
      → get l.by_hash h ≡ some k
      → get l.records k ≡ some r
      → r.request_hash ≡ h
  pub has_result :
      (k : String) (r : ExecutionRecord)
      → get l.records k ≡ some r
      → r.status ≡ ExecutionStatus.committed
      → r.result_payload ≢ none

pub IsConsistent-empty : IsConsistent empty
unfolding get
IsConsistent-empty = record {
  own_id = λ k r e. cc;
  indexed = λ k r e. cc;
  named = λ h k e. cc;
  hash_of = λ h k r e. cc;
  has_result = λ k r e. cc;
}

is_prepared→eq : (st : ExecutionStatus) → is_prepared st ≡ true → st ≡ ExecutionStatus.prepared
is_prepared→eq ExecutionStatus.prepared h = refl
is_prepared→eq _ h = cc

result_kept :
    (target : ExecutionStatus) (payload text : Option String) (now : ℕ) (r : ExecutionRecord)
    → payload ≢ none
    → (update_record target payload text now r).result_payload ≢ none
unfolding update_record
result_kept target none text now r h = absurd (h refl)
result_kept target (some p) text now r h = λ e. cc

module _ (l : Ledger) (c : IsConsistent l) where
  IsConsistent-register :
      (r : ExecutionRecord)
      → get l.records r.execution_id ≡ none
      → get l.by_hash r.request_hash ≡ none
      → r.status ≡ ExecutionStatus.prepared
      → IsConsistent (register r l)
  unfolding register
  IsConsistent-register r fresh_id fresh_hash st = record {
    own_id = λ k q. simp get-put (ground (arith, c.own_id k q, eq_iff r.execution_id k));
    indexed = λ k q. simp get-put (
        ground
          (arith, c.indexed k q, eq_iff r.execution_id k, eq_iff r.request_hash q.request_hash));
    named = λ h k.
        simp get-put
          (ground (arith, c.named h k, eq_iff r.request_hash h, eq_iff r.execution_id k));
    hash_of = λ h k q. simp get-put (
        ground (
          arith,
          c.hash_of h k q,
          c.named h k,
          c.indexed k q,
          eq_iff r.request_hash h,
          eq_iff r.execution_id k,
        ));
    has_result = λ k q. simp get-put (ground (arith, c.has_result k q, eq_iff r.execution_id k));
  }

  -- A write of a record with the same identifiers, that has a result if it is committed.
  IsConsistent-update :
      (id : String) (r u : ExecutionRecord)
      → get l.records id ≡ some r
      → u.execution_id ≡ r.execution_id
      → u.request_hash ≡ r.request_hash
      → (u.status ≡ ExecutionStatus.committed → u.result_payload ≢ none)
      → IsConsistent (record l { records = put l.records id u })
  IsConsistent-update id r u found same_id same_hash result = record {
    own_id = λ k q. simp get-put (ground (arith, c.own_id k q, c.own_id id r, eq_iff id k));
    indexed = λ k q. simp get-put (ground (arith, c.indexed k q, c.indexed id r, eq_iff id k));
    named = λ h k. simp get-put (ground (arith, c.named h k, eq_iff id k));
    hash_of = λ h k q. simp get-put (ground (arith, c.hash_of h k q, c.hash_of h k r, eq_iff id k));
    has_result = λ k q. simp get-put (ground (arith, c.has_result k q, result, eq_iff id k));
  }

  IsConsistent-prepare_new :
      (r : ExecutionRecord) → get l.by_hash r.request_hash ≡ none → IsConsistent (prepare_new r l).1
  unfolding prepare_new
  IsConsistent-prepare_new r fresh = elim (Bool-cases (is_prepared r.status)) [
    | inr n ↦ rw n c
    | inl y ↦ elim (Option-cases (get l.records r.execution_id)) [
      | inr (other, e) ↦ rw (y, e) c
      | inl e ↦ rw (y, e) (IsConsistent-register r e fresh (is_prepared→eq r.status y))
    ]
  ]

  pub IsConsistent-prepare : (r : ExecutionRecord) → IsConsistent (prepare r l).1
  unfolding prepare
  IsConsistent-prepare r = elim (Option-cases (get l.by_hash r.request_hash)) [
    | inr (id, e) ↦ rw (e, prepare) c
    | inl e ↦ rw (e, prepare) (IsConsistent-prepare_new r e)
  ]

  pub IsConsistent-transition :
      (id : String) (target : ExecutionStatus) (payload text : Option String) (now : ℕ)
      → (target ≡ ExecutionStatus.committed → payload ≢ none)
      → IsConsistent (transition id target payload text now l).1
  unfolding transition
  IsConsistent-transition id target payload text now has_payload =
      elim (Option-cases (get l.records id)) [
        | inl e ↦ rw (e, transition) c
        | inr (r, e) ↦
            rw (e, transition)
              (elim (Bool-cases (legal r.status target)) [
                | inr n ↦ rw n c
                | inl y ↦ rw y (
                    IsConsistent-update id r (update_record target payload text now r) e refl refl
                      (λ st. result_kept target payload text now r (has_payload st)))
              ])
      ]

-- One call of a mutating method.
pub data Action : Type 0 where
  prepare_it : ExecutionRecord → Action
  start_it : String → ℕ → Action
  commit_it : String → String → ℕ → Action
  fail_it : String → String → ℕ → Action
  reconcile_it : String → ℕ → Action

unfoldable pub step : Action → Ledger → Ledger
unfolding mark_executing commit fail require_reconciliation
step (prepare_it r) l = (prepare r l).1
step (start_it id now) l = (mark_executing id now l).1
step (commit_it id payload now) l = (commit id payload now l).1
step (fail_it id text now) l = (fail id text now l).1
step (reconcile_it id now) l = (require_reconciliation id now l).1

unfoldable pub run : List Action → Ledger → Ledger
run [] l = l
run (a ∷ rest) l = run rest (step a l)

IsConsistent-step : (a : Action) (l : Ledger) → IsConsistent l → IsConsistent (step a l)
unfolding step
IsConsistent-step (prepare_it r) l c = IsConsistent-prepare l c r
IsConsistent-step (start_it id now) l c = IsConsistent-transition l c id _ none none now (λ e. cc)
IsConsistent-step (commit_it id p now) l c =
    IsConsistent-transition l c id _ (some p) (some "") now (λ _ e. cc)
IsConsistent-step (fail_it id t now) l c =
    IsConsistent-transition l c id _ none (some t) now (λ e. cc)
IsConsistent-step (reconcile_it id now) l c =
    IsConsistent-transition l c id _ none none now (λ e. cc)

-- Any sequence of calls on a consistent ledger, refused calls included, leaves it consistent.
pub IsConsistent-run :
    (actions : List Action) (l : Ledger) → IsConsistent l → IsConsistent (run actions l)
unfolding run
IsConsistent-run [] l c = c
IsConsistent-run (a ∷ rest) l c = IsConsistent-run rest (step a l) (IsConsistent-step a l c)

pub IsConsistent-commit :
    (l : Ledger)
    → IsConsistent l
    → (id payload : String) (now : ℕ) → IsConsistent (commit id payload now l).1
unfolding commit
IsConsistent-commit l c id p now =
    IsConsistent-transition l c id _ (some p) (some "") now (λ _ e. cc)

pub IsConsistent-start :
    (l : Ledger)
    → IsConsistent l
    → (id : String) (now : ℕ) → IsConsistent (mark_executing id now l).1
unfolding mark_executing
IsConsistent-start l c id now = IsConsistent-transition l c id _ none none now (λ e. cc)
