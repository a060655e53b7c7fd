-- ===== src/Agents/TaskGraph/Make/Fresh.antt =====
-- The graph that the constructor of task_graph.py makes of new tasks.
use matterloop.Base.{
  ◌≡◌, refl, ℕ, ◌≤◌, ◌<◌, String, List, [], ◌∷◌, some, Bool, true, false, elem, any, all, arith,
  ◌==◌, ◌||◌, eq_iff, Bool-cases, Option-cases, inl, inr, if◌then◌else◌,
}
use matterloop.Base.Dict.{Dict, get, put, get-put}
use matterloop.Agents.Tasks.{
  TaskStatus, TaskSpec, TaskState, initial_state, valid_state, valid_status,
}
use matterloop.Agents.TaskGraph
use matterloop.Agents.TaskGraph.{
  Result, ok, err, dependents_of, is_pending, is_succeeded, is_failed_dependency,
}
use matterloop.Agents.TaskGraph.Cases.{Result-cases}
use matterloop.Agents.TaskGraph.Order.{done_in, IsOrdered, is_executable}
use matterloop.Agents.TaskGraph.Valid.{IsValid}
use matterloop.Agents.TaskGraph.Settled.{failed_in, has, IsSettled, IsIndexed}
use matterloop.Agents.TaskGraph.Settled.Steps.{IsHealthy}
use matterloop.Agents.TaskGraph.Make.{task_ids, validate_and_index, is_empty, fresh_states, make}
use matterloop.Agents.TaskGraph.Make.Counts.{count, count_positive, elem_counted}
use matterloop.Agents.TaskGraph.Make.Index.{edges, edges_listed}
use matterloop.Agents.TaskGraph.Make.Rank.{rank, rank-IsTopological}
use matterloop.Agents.TaskGraph.Make.Validated.{Validated, Validated-index}

-- The state of a new task.
record IsNew (tasks : List TaskSpec) (id : String) (s : TaskState) : Type 0 where
  status :
      s.status ≡ (if is_empty s.spec.dependencies then TaskStatus.ready else TaskStatus.pending)
  named : (d : String) → elem d s.spec.dependencies ≡ true → 0 < edges tasks id d
  valid : valid_state s ≡ true

IsNew-initial :
    (tasks : List TaskSpec) (id : String) (t : TaskSpec)
    → ((d : String) → count d t.dependencies ≤ edges tasks id d)
    → IsNew tasks id
        (initial_state t (if is_empty t.dependencies then TaskStatus.ready else TaskStatus.pending))
unfolding initial_state valid_state valid_status
IsNew-initial tasks id t part = record {
  status = refl;
  named = λ d m. omega (arith, part d, count_positive d t.dependencies m);
  valid = ground arith;
}

IsNew-fresh :
    (all_tasks tasks : List TaskSpec) (states : Dict TaskState)
    → ((k d : String) → edges tasks k d ≤ edges all_tasks k d)
    → ((id : String) (s : TaskState) → get states id ≡ some s → IsNew all_tasks id s)
    → (id : String) (s : TaskState) → get (fresh_states tasks states) id ≡ some s
    → IsNew all_tasks id s
unfolding fresh_states edges
IsNew-fresh all_tasks [] states part new id s e = new id s e
IsNew-fresh all_tasks (t ∷ tasks) states part new id s e =
    let first =
      initial_state t (if is_empty t.dependencies then TaskStatus.ready else TaskStatus.pending) in
    IsNew-fresh all_tasks tasks (put states t.task_id first) (λ k d. omega (arith, part k d))
      (λ k u q. elim (Bool-cases (t.task_id == k)) [
        | inl y ↦
            let same : first ≡ u = cc (rw (get-put, y) at q) in
            rw (← same) (IsNew-initial all_tasks k t (λ d. omega (arith, rw y at (part k d))))
        | inr n ↦ new k u (rw (get-put, n) at q)
      ])
      id s e

has-fresh :
    (tasks : List TaskSpec) (states : Dict TaskState) (k : String)
    → has (fresh_states tasks states) k ≡ (elem k (task_ids tasks) || has states k)
unfolding fresh_states
has-fresh [] states k = refl
has-fresh (t ∷ tasks) states k =
    let u =
      initial_state t (if is_empty t.dependencies then TaskStatus.ready else TaskStatus.pending) in
    ground (
      arith,
      has-fresh tasks (put states t.task_id u) k,
      get-put states t.task_id k u,
      eq_iff k t.task_id,
      eq_iff t.task_id k,
    )

any_none : (f : String → Bool) (ds : List String) → ((d : String) → f d ≡ false) → any f ds ≡ false
any_none f [] h = refl
any_none f (d ∷ ds) h = ground (arith, h d, any_none f ds h)

not_all :
    (f : String → Bool) (ds : List String)
    → ((d : String) → f d ≡ false)
    → is_empty ds ≡ false
    → all f ds ≡ false
not_all f [] h n = cc
not_all f (d ∷ ds) h n = ground (arith, h d)

module _ (tasks : List TaskSpec) (dependents : Dict (List String))
    (v : Validated tasks dependents) where
  abbrev states : Dict TaskState
  states = fresh_states tasks []

  new : (id : String) (s : TaskState) → get states id ≡ some s → IsNew tasks id s
  unfolding get
  new = IsNew-fresh tasks tasks [] (λ k d. omega arith) (λ id s e. cc)

  listed : (k : String) → has states k ≡ elem k (task_ids tasks)
  unfolding get
  listed k = ground (arith, has-fresh tasks [] k)

  IsIndexed-fresh : IsIndexed dependents states
  IsIndexed-fresh = record {
    indexed = λ id s e d m.
        elem_counted id (dependents_of dependents d)
          (omega (arith, v.indexes.counts id d, (new id s e).named d m));
    known = λ id s e d m. rw listed (v.known id d ((new id s e).named d m));
    listed = λ id h. v.indexes.listed id (rw listed at h);
    tasks = λ d k m. rw listed (
        edges_listed tasks k d
          (omega (arith, v.indexes.counts k d, count_positive k (dependents_of dependents d) m)));
  }

  none_failed : (d : String) → failed_in states d ≡ false
  unfolding failed_in is_failed_dependency
  none_failed d = elim (Option-cases (get states d)) [
    | inl n ↦ rw (n, failed_in) refl
    | inr (s, e) ↦ rw (e, failed_in) (ground (arith, (new d s e).status))
  ]

  none_done : (d : String) → done_in states d ≡ false
  unfolding done_in
  none_done d = elim (Option-cases (get states d)) [
    | inl n ↦ rw (n, done_in) refl
    | inr (s, e) ↦ rw (e, done_in) (ground (arith, (new d s e).status))
  ]

  IsSettled-fresh : IsSettled states
  IsSettled-fresh = record {
    at = λ id s e p. record {
      none_failed = any_none (failed_in states) s.spec.dependencies none_failed;
      some_open =
          not_all (done_in states) s.spec.dependencies none_done
            (ground (arith, (new id s e).status, p));
    };
  }

  IsValid-fresh : IsValid states
  IsValid-fresh = record { at = λ id s e. (new id s e).valid }

  IsOrdered-fresh : IsOrdered states
  unfolding is_executable
  IsOrdered-fresh = record { at = λ id s e x d m. ground (arith, (new id s e).status, x, m) }

  ranked :
      (k d : String) → elem k (dependents_of dependents d) ≡ true → rank v.order d < rank v.order k
  ranked k d m =
      let named : 0 < edges tasks k d =
        omega (arith, v.indexes.counts k d, count_positive k (dependents_of dependents d) m) in
      rank-IsTopological tasks v.order k d v.topological
        (v.complete k (edges_listed tasks k d named)) named

-- What the constructor gives.
pub record IsSound (g : TaskGraph.TaskGraph) : Type 0 where
  pub healthy : IsHealthy g
  pub ordered : IsOrdered g.states
  pub valid : IsValid g.states
  pub place : String → ℕ
  pub acyclic : (k d : String) → elem k (dependents_of g.dependents d) ≡ true → place d < place k

-- A graph that the constructor makes of new tasks has a complete index of dependents, no pending task
-- whose dependencies are all done or one of which failed, no task that may run before one it depends
-- on has succeeded, only valid states, and a rank of the tasks under which every dependent has a higher rank: there is no cycle.
pub IsSound-make : (tasks : List TaskSpec) (g : TaskGraph.TaskGraph) → make tasks ≡ ok g → IsSound g
unfolding make
IsSound-make tasks g e = elim (Result-cases (validate_and_index tasks)) [
  | inl (x, q) ↦ cc (rw (q, make) at e)
  | inr (dependents, q) ↦
      let v = Validated-index tasks dependents q in
      let same : record { states = fresh_states tasks []; dependents = dependents } ≡ g =
        cc (rw (q, make) at e) in
      rw (← same) (record {
        healthy = record {
          index = IsIndexed-fresh tasks dependents v;
          settled = IsSettled-fresh tasks dependents v;
        };
        ordered = IsOrdered-fresh tasks dependents v;
        valid = IsValid-fresh tasks dependents v;
        place = rank v.order;
        acyclic = ranked tasks dependents v;
      })
]
