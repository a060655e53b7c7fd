-- ===== src/Agents/TaskGraph/Settled/Runs.antt =====
-- Any sequence of the methods of `TaskGraph` (task_graph.py), and what is left to do after it.
use matterloop.Base.{
  ◌≡◌, refl, ℕ, ◌<◌, ◌⊎◌, inl, inr, String, List, [], ◌∷◌, some, Bool, true, false, elem, any, all,
  arith, ◌==◌, Bool-cases, Option-cases, eq_self, eq_iff, suc, zero,
}
use matterloop.Base.Dict.{Dict, get}
use matterloop.Agents.Tasks.{TaskStatus, TaskState, is_terminal}
use matterloop.Agents.TaskGraph
use matterloop.Agents.TaskGraph.{
  is_succeeded, is_pending, is_in_progress, is_failed_dependency, dependents_of,
}
use matterloop.Agents.TaskGraph.Methods
use matterloop.Agents.TaskGraph.Order.{done_in}
use matterloop.Agents.TaskGraph.Runs.{Action, step, run, is_active}
use matterloop.Agents.TaskGraph.Settled.{failed_in, has, Waits, IsIndexed}
use matterloop.Agents.TaskGraph.Settled.Steps.{IsHealthy, IsHealthy-change, IsHealthy-unlock}
use matterloop.Agents.TaskGraph.Settled.Whole.{IsHealthy-cancel_all, IsHealthy-recover_inflight}

IsHealthy-step : (a : Action) (g : TaskGraph.TaskGraph) → IsHealthy g → IsHealthy (step a g)
unfolding step is_in_progress
IsHealthy-step (Action.mark_waiting_approval id) g h =
    unfold Methods.mark_waiting_approval in
    IsHealthy-change g h id _ _ _ (λ s y. (refl, ground arith, refl))
IsHealthy-step (Action.resume_approval id) g h =
    unfold Methods.resume_approval in
    IsHealthy-change g h id _ _ _ (λ s y. (refl, ground arith, refl))
IsHealthy-step (Action.start id agent) g h =
    unfold Methods.start in IsHealthy-change g h id _ _ _ (λ s y. (refl, ground arith, refl))
IsHealthy-step (Action.begin_verification id result) g h =
    unfold Methods.begin_verification in
    IsHealthy-change g h id _ _ _ (λ s y. (refl, ground arith, refl))
IsHealthy-step (Action.record_verification id v) g h =
    unfold Methods.record_verification in
    IsHealthy-change g h id _ _ _ (λ s y. (refl, ground arith, ground arith))
IsHealthy-step (Action.succeed id result) g h =
    unfold Methods.succeed in IsHealthy-unlock g h id _ _ _ (λ s y. (refl, refl))
IsHealthy-step (Action.retry id error result v) g h =
    unfold Methods.retry in IsHealthy-change g h id _ _ _ (λ s y. (refl, y, refl))
IsHealthy-step (Action.fail id error result v) g h =
    unfold Methods.fail in IsHealthy-unlock g h id _ _ _ (λ s y. (refl, refl))
IsHealthy-step Action.cancel_all g h = IsHealthy-cancel_all g h
IsHealthy-step Action.recover_inflight g h = IsHealthy-recover_inflight g h

-- Any sequence of method calls, refused calls included, keeps a graph healthy: every task that is
-- still pending has no dependency that failed, was blocked or was cancelled, and has one that has
-- not succeeded yet; and the index of dependents stays complete.
pub IsHealthy-run :
    (actions : List Action) (g : TaskGraph.TaskGraph) → IsHealthy g → IsHealthy (run actions g)
unfolding run
IsHealthy-run [] g h = h
IsHealthy-run (a ∷ rest) g h = IsHealthy-run rest (step a g) (IsHealthy-step a g h)

-- A dependency that has neither failed nor succeeded.
all_split :
    (f : String → Bool) (ds : List String)
    → all f ds ≡ false
    → (d : String) × (elem d ds ≡ true) × (f d ≡ false)
all_split f [] h = cc
all_split f (d ∷ ds) h = elim (Bool-cases (f d)) [
  | inl y ↦ let (c, m, n) = all_split f ds (ground arith) in (c, ground (arith, m), n)
  | inr n ↦ (d, ground (arith, eq_self d), n)
]

none_of :
    (f : String → Bool) (ds : List String) (d : String)
    → any f ds ≡ false
    → elem d ds ≡ true
    → f d ≡ false
none_of f [] d h m = cc
none_of f (c ∷ ds) d h m = elim (Bool-cases (d == c)) [
  | inl y ↦ rw ((eq_iff d c).0 y) (ground arith)
  | inr n ↦ none_of f ds d (ground arith) (ground (arith, m, n))
]

-- A task that is not terminal is pending or active.
open_cases : (t : TaskStatus) → is_terminal t ≡ false → (is_pending t ≡ true) ⊎ (is_active t ≡ true)
unfolding is_terminal is_in_progress
open_cases TaskStatus.pending h = inl refl
open_cases TaskStatus.ready h = inr refl
open_cases TaskStatus.waiting_approval h = inr refl
open_cases TaskStatus.running h = inr refl
open_cases TaskStatus.verifying h = inr refl
open_cases t h = absurd (ground arith)

still_open :
    (t : TaskStatus)
    → is_failed_dependency t ≡ false
    → is_succeeded t ≡ false
    → is_terminal t ≡ false
unfolding is_terminal is_failed_dependency
still_open t f n = ground arith

-- The dependency that a pending task waits for.
open_dependency :
    (dependents : Dict (List String)) (states : Dict TaskState) (id : String) (s : TaskState)
    → IsIndexed dependents states
    → get states id ≡ some s
    → Waits states s
    → (d : String) × (c : TaskState) × (elem d s.spec.dependencies ≡ true)
      × (get states d ≡ some c)
      × (is_terminal c.status ≡ false)
unfolding failed_in done_in
open_dependency dependents states id s x found w =
    let (d, m, n) = all_split (done_in states) s.spec.dependencies w.some_open in
    elim (Option-cases (get states d)) [
      | inl missing ↦ cc (rw (missing, has) at (x.known id s found d m))
      | inr (c, e) ↦ (
        d,
        c,
        m,
        e,
        still_open c.status
            (rw (e, failed_in) at
              (none_of (failed_in states) s.spec.dependencies d w.none_failed m))
            (rw (e, done_in) at n),
      )
    ]

module _ (g : TaskGraph.TaskGraph) (h : IsHealthy g) (rank : String → ℕ)
    (ranked : (k d : String) → elem k (dependents_of g.dependents d) ≡ true → rank d < rank k) where
  active_below :
      (n : ℕ) (id : String) (s : TaskState)
      → rank id < n
      → get g.states id ≡ some s
      → is_terminal s.status ≡ false
      → (k : String) × (t : TaskState) × (get g.states k ≡ some t) × (is_active t.status ≡ true)
  active_below zero id s b found o = absurd (omega arith)
  active_below (suc n) id s b found o = elim (open_cases s.status o) [
    | inr y ↦ (id, s, found, y)
    | inl p ↦
        let (d, c, m, e, o') =
          open_dependency g.dependents g.states id s h.index found (h.settled.at id s found p) in
        active_below n d c (omega (arith, b, ranked id d (h.index.indexed id s found d m))) e o'
  ]

  -- In a healthy graph whose dependents have no cycle (they increase a rank), as long as some task
  -- is not terminal there is a task that is ready to run, or waits for approval, runs or is verified.
  pub no_deadlock :
      (id : String) (s : TaskState)
      → get g.states id ≡ some s
      → is_terminal s.status ≡ false
      → (k : String) × (t : TaskState) × (get g.states k ≡ some t) × (is_active t.status ≡ true)
  no_deadlock id s = active_below (suc (rank id)) id s (omega arith)
