-- ===== src/Runtime/Idempotency/Cached.antt =====
-- A result that `IdempotentInvoker.invoke` (idempotency.py) has returned is returned again.
use matterloop.Base.{
  ◌≡◌, refl, ℕ, String, List, Option, none, some, arith, ◌==◌, eq_iff, ◌⊎◌, inl, inr, Option-cases,
  Bool-cases,
}
use matterloop.Base.Dict.{get, get-put}
use matterloop.Runtime.Ledger.{
  LedgerError, ExecutionStatus, ExecutionRecord, Ledger, Result, ok, err, prepare, prepare_new,
  register, update_record, mark_executing, commit, fail,
}
use matterloop.Runtime.Ledger.Laws.{
  Action, run, IsConsistent, IsConsistent-commit, IsConsistent-start, IsConsistent-prepare,
}
use matterloop.Runtime.Idempotency.{
  ExecutorResult, success, failure, interrupted, InvokeResult, result, Invoker, payload_result,
  reuse, settled, settle, call_executor, execute_prepared, on_prepared, invoke,
}
use matterloop.Runtime.Idempotency.Kept.{Cached, by_hash-transition, Cached-run}

-- A call for a cached request returns the result and changes nothing.
invoke-Cached :
    (s : Invoker) (q : ExecutionRecord) (outcome : ExecutorResult) (t1 t2 : ℕ) (p : String)
    → Cached s.ledger q.request_hash p
    → get s.ledger.records q.execution_id ≡ none
    → invoke q outcome t1 t2 s ≡ (result p, s)
unfolding invoke on_prepared prepare reuse
invoke-Cached s q outcome t1 t2 p c fresh = ground (
  arith,
  c.indexed,
  c.stored,
  c.own_id,
  c.committed,
  c.payload,
  eq_iff c.found.execution_id q.execution_id,
)

-- What `prepare` returns is the record that its request hash leads to.
prepare-indexed :
    (l : Ledger) (q r : ExecutionRecord)
    → IsConsistent l
    → (prepare q l).0 ≡ ok r
    → (get (prepare q l).1.by_hash q.request_hash ≡ some r.execution_id)
      × (get (prepare q l).1.records r.execution_id ≡ some r)
unfolding prepare prepare_new register
prepare-indexed l q r c e = elim (Option-cases (get l.by_hash q.request_hash)) [
  | inr (id, i) ↦ ground (arith, c.own_id id r)
  | inl i ↦ ground (
    arith,
    get-put l.by_hash q.request_hash q.request_hash q.execution_id,
    get-put l.records q.execution_id q.execution_id q,
    eq_iff q.request_hash q.request_hash,
    eq_iff q.execution_id q.execution_id,
  )
]

commit-stored :
    (l : Ledger) (id p : String) (now : ℕ) (r : ExecutionRecord)
    → (commit id p now l).0 ≡ ok r
    → (get (commit id p now l).1.records id ≡ some r)
      × (r.status ≡ ExecutionStatus.committed)
      × (r.result_payload ≡ some p)
unfolding commit
commit-stored l id p now r e = elim (Option-cases (get l.records id)) [
  | inl n ↦ ground arith
  | inr (o, i) ↦ ground (
    arith,
    get-put l.records id id (update_record ExecutionStatus.committed (some p) (some "") now o),
    eq_iff id id,
  )
]

Result-cases :
    (r : Result ExecutionRecord)
    → ((q : ExecutionRecord) × (r ≡ ok q)) ⊎ ((e : LedgerError) × (r ≡ err e))
Result-cases (ok q) = inl (q, refl)
Result-cases (err e) = inr (e, refl)

settled-ok :
    (p : String) (r : Result ExecutionRecord) {v : InvokeResult}
    → settled (result p) r ≡ v
    → (v' : String) → v ≡ result v'
    → (q : ExecutionRecord) × (r ≡ ok q) × (p ≡ v')
settled-ok p (ok q) e v' f = (q, refl, cc)
settled-ok p (err x) e v' f = cc

module _ (q : ExecutionRecord) (p : String) where
  settle_caches :
      (s : Invoker) (outcome : ExecutorResult) (now : ℕ)
      → IsConsistent s.ledger
      → get s.ledger.by_hash q.request_hash ≡ some q.execution_id
      → (settle q outcome now s).0 ≡ result p
      → Cached (settle q outcome now s).1.ledger q.request_hash p
  unfolding settle
  settle_caches s interrupted now c i e = cc
  settle_caches s (failure text) now c i e =
      elim (Result-cases (fail q.execution_id text now s.ledger).0) [
        | inl (r, f) ↦ cc
        | inr (x, f) ↦ cc
      ]
  settle_caches s (success v) now c i e =
      let (r, f, g) = settled-ok v (commit q.execution_id v now s.ledger).0 e p refl in
      let (stored, st, pl) = commit-stored s.ledger q.execution_id v now r f in
      record {
        id = q.execution_id;
        found = r;
        indexed = unfold commit in rw by_hash-transition i;
        stored = stored;
        own_id =
            (IsConsistent-commit s.ledger c q.execution_id v now).own_id q.execution_id r stored;
        committed = st;
        payload = cc;
      }

  execute_caches :
      (s : Invoker) (outcome : ExecutorResult) (t1 t2 : ℕ)
      → IsConsistent s.ledger
      → get s.ledger.by_hash q.request_hash ≡ some q.execution_id
      → (execute_prepared q outcome t1 t2 s).0 ≡ result p
      → Cached (execute_prepared q outcome t1 t2 s).1.ledger q.request_hash p
  unfolding execute_prepared
  execute_caches s outcome t1 t2 c i =
      go (mark_executing q.execution_id t1 s.ledger).0 (mark_executing q.execution_id t1 s.ledger).1
        (IsConsistent-start s.ledger c q.execution_id t1)
        (unfold mark_executing in rw by_hash-transition i)
    where
      go :
          (m : Result ExecutionRecord) (l : Ledger)
          → IsConsistent l
          → get l.by_hash q.request_hash ≡ some q.execution_id
          → (call_executor q outcome t2 m (record s { ledger = l })).0 ≡ result p
          → Cached
              (call_executor q outcome t2 m (record s { ledger = l })).1.ledger
              q.request_hash
              p
      go (err e) l c' i' h = unfold call_executor in cc
      go (ok r) l c' i' h = unfold call_executor in settle_caches _ outcome t2 c' i' h

  payload_result-eq : (o : Option String) → payload_result o ≡ result p → o ≡ some p
  unfolding payload_result
  payload_result-eq none h = cc
  payload_result-eq (some v) h = cc

  reuse-eq :
      (st : ExecutionStatus) (r : ExecutionRecord)
      → reuse st r ≡ result p
      → (st ≡ ExecutionStatus.committed) × (r.result_payload ≡ some p)
  unfolding reuse
  reuse-eq ExecutionStatus.committed r h = (refl, payload_result-eq r.result_payload h)
  reuse-eq _ r h = cc

  on_prepared_caches :
      (s : Invoker) (outcome : ExecutorResult) (t1 t2 : ℕ) (m : Result ExecutionRecord)
      → IsConsistent s.ledger
      → ((r : ExecutionRecord)
          → m ≡ ok r
          → (get s.ledger.by_hash q.request_hash ≡ some r.execution_id)
            × (get s.ledger.records r.execution_id ≡ some r))
      → (on_prepared q outcome t1 t2 m s).0 ≡ result p
      → Cached (on_prepared q outcome t1 t2 m s).1.ledger q.request_hash p
  unfolding on_prepared
  on_prepared_caches s outcome t1 t2 (err e) c i h = cc
  on_prepared_caches s outcome t1 t2 (ok r) c i h =
      elim (Bool-cases (r.execution_id == q.execution_id)) [
        | inl y ↦ rw y (
            execute_caches s outcome t1 t2 c
              (cc ((i r refl).0, (eq_iff r.execution_id q.execution_id).0 y)) (rw y at h))
        | inr n ↦
            let (st, pl) = reuse-eq r.status r (rw n at h) in
            rw n (record {
              id = r.execution_id;
              found = r;
              indexed = (i r refl).0;
              stored = (i r refl).1;
              own_id = refl;
              committed = st;
              payload = pl;
            })
      ]

  -- A call that returns a result leaves it cached.
  invoke_caches :
      (s : Invoker) (outcome : ExecutorResult) (t1 t2 : ℕ)
      → IsConsistent s.ledger
      → (invoke q outcome t1 t2 s).0 ≡ result p
      → Cached (invoke q outcome t1 t2 s).1.ledger q.request_hash p
  unfolding invoke
  invoke_caches s outcome t1 t2 c h =
      on_prepared_caches (record s { ledger = (prepare q s.ledger).1 }) outcome t1 t2
        (prepare q s.ledger).0 (IsConsistent-prepare s.ledger c q)
        (λ r e. prepare-indexed s.ledger q r c e) h

-- On a consistent ledger, a request whose call returned a result is not executed again: after any further calls on the
-- ledger, a call with the same request hash and a new execution identifier returns that result,
-- whatever the executor would do, and leaves the ledger and the record of executor calls as they are.
pub invoke_again :
    (s : Invoker) (q again : ExecutionRecord) (outcome later : ExecutorResult) (t1 t2 u1 u2 : ℕ)
    (p : String) (actions : List Action) (runs : List String)
    → IsConsistent s.ledger
    → (invoke q outcome t1 t2 s).0 ≡ result p
    → again.request_hash ≡ q.request_hash
    → get (run actions (invoke q outcome t1 t2 s).1.ledger).records again.execution_id ≡ none
    → invoke again later u1 u2
        (record { ledger = run actions (invoke q outcome t1 t2 s).1.ledger; runs = runs })
      ≡ (result p, record { ledger = run actions (invoke q outcome t1 t2 s).1.ledger; runs = runs })
invoke_again s q again outcome later t1 t2 u1 u2 p actions runs c h same fresh =
    invoke-Cached _ again later u1 u2 p
      (rw same (
        Cached-run actions (invoke q outcome t1 t2 s).1.ledger q.request_hash p
          (invoke_caches q p s outcome t1 t2 c h)))
      fresh
