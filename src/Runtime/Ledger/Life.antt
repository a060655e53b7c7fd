-- ===== src/Runtime/Ledger/Life.antt =====
-- The life of one record of `InMemoryExecutionLedger` (ledger.py).
use matterloop.Base.{
  ◌≡◌, refl, ℕ, String, List, [], ◌∷◌, Option, none, some, Bool, true, false, ◌==◌, eq_iff, inl,
  inr, Option-cases, Bool-cases,
}
use matterloop.Base.Dict.{get, get-put}
use matterloop.Runtime.Ledger.{
  ExecutionStatus, legal, ExecutionRecord, Ledger, register, prepare_new, prepare, transition,
  mark_executing, commit, fail, require_reconciliation, is_prepared,
}
use matterloop.Runtime.Ledger.Laws.{
  Action, prepare_it, start_it, commit_it, fail_it, reconcile_it, step, run,
}

-- The two outcomes that nothing changes any more.
abbrev pub is_final : ExecutionStatus → Bool
is_final ExecutionStatus.committed = true
is_final ExecutionStatus.failed = true
is_final _ = false

legal_of_final : (a b : ExecutionStatus) → is_final a ≡ true → legal a b ≡ false
unfolding legal
legal_of_final ExecutionStatus.committed b h = refl
legal_of_final ExecutionStatus.failed b h = refl
legal_of_final _ b h = cc

module _ (l : Ledger) (k : String) (r : ExecutionRecord) (here : get l.records k ≡ some r) where
  kept_by_new : (q : ExecutionRecord) → get (prepare_new q l).1.records k ≡ some r
  unfolding prepare_new register
  kept_by_new q = elim (Bool-cases (is_prepared q.status)) [
    | inr n ↦ rw n here
    | inl y ↦ elim (Option-cases (get l.records q.execution_id)) [
      | inr (o, e) ↦ rw (y, e) here
      | inl e ↦
          rw (y, e)
            (rw get-put (elim (Bool-cases (q.execution_id == k)) [
              | inr n ↦ rw n here
              | inl i ↦ cc ((eq_iff q.execution_id k).0 i)
            ]))
    ]
  ]

  kept_by_prepare : (q : ExecutionRecord) → get (prepare q l).1.records k ≡ some r
  unfolding prepare
  kept_by_prepare q = elim (Option-cases (get l.by_hash q.request_hash)) [
    | inr (id, e) ↦ rw (e, prepare) here
    | inl e ↦ rw (e, prepare) (kept_by_new q)
  ]

  kept_by_transition :
      (id : String) (target : ExecutionStatus) (payload text : Option String) (now : ℕ)
      → is_final r.status ≡ true
      → get (transition id target payload text now l).1.records k ≡ some r
  unfolding transition
  kept_by_transition id target payload text now final = elim (Option-cases (get l.records id)) [
    | inl e ↦ rw (e, transition) here
    | inr (o, e) ↦
        rw (e, transition)
          (elim (Bool-cases (legal o.status target)) [
            | inr n ↦ rw n here
            | inl y ↦ rw y (
                rw get-put (elim (Bool-cases (id == k)) [
                  | inr n ↦ rw n here
                  | inl i ↦ cc ((eq_iff id k).0 i, legal_of_final r.status target final)
                ]))
          ])
  ]

  kept_by_step : (a : Action) → is_final r.status ≡ true → get (step a l).records k ≡ some r
  unfolding step mark_executing commit fail require_reconciliation
  kept_by_step (prepare_it q) final = kept_by_prepare q
  kept_by_step (start_it id now) final = kept_by_transition id _ none none now final
  kept_by_step (commit_it id p now) final = kept_by_transition id _ (some p) (some "") now final
  kept_by_step (fail_it id t now) final = kept_by_transition id _ none (some t) now final
  kept_by_step (reconcile_it id now) final = kept_by_transition id _ none none now final

-- A record that is committed or failed is never changed or removed by later calls, whatever they are.
pub final_is_kept :
    (actions : List Action) (l : Ledger) (k : String) (r : ExecutionRecord)
    → get l.records k ≡ some r
    → is_final r.status ≡ true
    → get (run actions l).records k ≡ some r
unfolding run
final_is_kept [] l k r here final = here
final_is_kept (a ∷ rest) l k r here final =
    final_is_kept rest (step a l) k r (kept_by_step l k r here a final) final
