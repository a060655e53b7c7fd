-- ===== src/Agents/TaskGraph/Settled/Whole.antt =====
-- `cancel_all` and `recover_inflight` of task_graph.py, which change every task.
use matterloop.Base.{
  ◌≡◌, refl, ◌⊎◌, inl, inr, String, List, [], ◌∷◌, none, some, Bool, true, false, elem, arith, ◌==◌,
  eq_iff, eq_self, Bool-cases, Option-cases,
}
use matterloop.Base.Dict.{Dict, get}
use matterloop.Agents.Tasks.{TaskState, is_terminal}
use matterloop.Agents.TaskGraph
use matterloop.Agents.TaskGraph.{
  is_succeeded, is_pending, is_ready, is_failed_dependency, refresh_pending, enqueue, from_keys,
  dependents_of,
}
use matterloop.Agents.TaskGraph.Methods
use matterloop.Agents.TaskGraph.Methods.{
  map_states, cancelled, recovered, is_uncertain, uncertain_ids, all_dependents,
}
use matterloop.Agents.TaskGraph.Order.{done_in}
use matterloop.Agents.TaskGraph.Runs.{get-map_states}
use matterloop.Agents.TaskGraph.Settled.{
  failed_in, has, Waits, IsIndexed, elem-append, elem-enqueue, Waits-congr,
}
use matterloop.Agents.TaskGraph.Settled.Refresh.{Covers}
use matterloop.Agents.TaskGraph.Settled.Steps.{IsHealthy, IsHealthy-refresh}

module _ (f : TaskState → TaskState) (same_spec : (s : TaskState) → (f s).spec ≡ s.spec)
    (states : Dict TaskState) where
  has-map : (k : String) → has (map_states f states) k ≡ has states k
  has-map k = elim (Option-cases (get states k)) [
    | inl n ↦ ground (arith, get-map_states f states k, n)
    | inr (s, e) ↦ ground (arith, get-map_states f states k, e)
  ]

  -- A task after the change is one from before it.
  before-map :
      (k : String) (t : TaskState)
      → get (map_states f states) k ≡ some t
      → (s : TaskState) × (get states k ≡ some s) × (f s ≡ t)
  before-map k t e = elim (Option-cases (get states k)) [
    | inl n ↦ cc (rw (get-map_states, n) at e)
    | inr (s, q) ↦ (s, q, cc (rw (get-map_states, q) at e))
  ]

  IsIndexed-map :
      (dependents : Dict (List String))
      → IsIndexed dependents states
      → IsIndexed dependents (map_states f states)
  IsIndexed-map dependents x = record {
    indexed = λ k t e d m.
        let (s, q, w) = before-map k t e in x.indexed k s q d (rw (same_spec s) at (rw (← w) at m));
    known = λ k t e d m.
        let (s, q, w) = before-map k t e in
        rw has-map (x.known k s q d (rw (same_spec s) at (rw (← w) at m)));
    listed = λ k h. x.listed k (rw has-map at h);
    tasks = λ d k m. rw has-map (x.tasks d k m);
  }

cancelled_closed : (s : TaskState) → is_pending (cancelled s).status ≡ false
unfolding cancelled is_terminal
cancelled_closed s = ground arith

pub IsHealthy-cancel_all :
    (g : TaskGraph.TaskGraph) → IsHealthy g → IsHealthy (Methods.cancel_all g).1
unfolding Methods.cancel_all cancelled is_terminal
IsHealthy-cancel_all g h = record {
  index = IsIndexed-map cancelled (λ s. ground arith) g.states g.dependents h.index;
  settled = record {
    at = λ k t e p.
        let (s, q, w) = before-map cancelled (λ s. ground arith) g.states k t e in
        absurd (cc (rw w at (cancelled_closed s), p));
  };
}

-- What `recover_inflight` makes of a task.
recovered_spec : (s : TaskState) → (recovered s).spec ≡ s.spec
unfolding recovered
recovered_spec s = ground arith

recovered_pending : (s : TaskState) → is_pending (recovered s).status ≡ is_pending s.status
unfolding recovered
recovered_pending s = ground arith

recovered_certain :
    (s : TaskState)
    → is_uncertain s ≡ false
    → (is_failed_dependency (recovered s).status ≡ is_failed_dependency s.status)
      × (is_succeeded (recovered s).status ≡ is_succeeded s.status)
unfolding recovered is_uncertain is_failed_dependency
recovered_certain s n = (ground arith, ground arith)

abbrev uncertain_in : Dict TaskState → String → Bool
unfolding is_uncertain
uncertain_in states d = elim (get states d) [ none ↦ false | some s ↦ is_uncertain s ]

uncertain_ids-found :
    (states : Dict TaskState) (d : String)
    → uncertain_in states d ≡ true
    → elem d (uncertain_ids states) ≡ true
unfolding uncertain_ids get
uncertain_ids-found [] d h = cc
uncertain_ids-found ((j, s) ∷ states) d h = elim (Bool-cases (j == d)) [
  | inl y ↦ ground (arith, eq_iff j d, eq_iff d j)
  | inr n ↦ ground (arith, uncertain_ids-found states d (rw (n, uncertain_in) at h))
]

all_dependents-found :
    (dependents : Dict (List String)) (d k : String) (ids : List String)
    → elem d ids ≡ true
    → elem k (dependents_of dependents d) ≡ true
    → elem k (all_dependents dependents ids) ≡ true
unfolding all_dependents
all_dependents-found dependents d k [] h m = cc
all_dependents-found dependents d k (j ∷ ids) h m =
    rw (elem-append k (dependents_of dependents j) (all_dependents dependents ids))
      (ground (arith, eq_iff d j, all_dependents-found dependents d k ids, h, m))

all_dependents_there :
    (dependents : Dict (List String)) (states : Dict TaskState) (ids : List String)
    → IsIndexed dependents states
    → (k : String) → elem k (all_dependents dependents ids) ≡ true
    → has states k ≡ true
unfolding all_dependents
all_dependents_there dependents states [] x k m = cc
all_dependents_there dependents states (j ∷ ids) x k m =
    elim (Bool-cases (elem k (dependents_of dependents j))) [
      | inl y ↦ x.tasks j k y
      | inr n ↦ all_dependents_there dependents states ids x k (
          ground (
            arith,
            m,
            n,
            elem-append k (dependents_of dependents j) (all_dependents dependents ids),
          ))
    ]

any_split :
    (f : String → Bool) (ds : List String)
    → ((d : String) × (elem d ds ≡ true) × (f d ≡ true))
      ⊎ ((d : String) → elem d ds ≡ true → f d ≡ false)
any_split f [] = inr (λ d m. cc)
any_split f (c ∷ ds) = elim (Bool-cases (f c)) [
  | inl y ↦ inl (c, ground (arith, eq_self c), y)
  | inr n ↦ elim (any_split f ds) [
    | inl (d, m, y) ↦ inl (d, ground (arith, m), y)
    | inr none_of ↦ inr (λ d m. elim (Bool-cases (d == c)) [
      | inl y ↦ rw ((eq_iff d c).0 y) n
      | inr other ↦ none_of d (ground (arith, m, other))
    ])
  ]
]

module _ (g : TaskGraph.TaskGraph) (h : IsHealthy g) where
  Waits-spec :
      (states : Dict TaskState) (s t : TaskState)
      → t.spec ≡ s.spec
      → Waits states s
      → Waits states t
  Waits-spec states s t same w = record {
    none_failed = rw same (w.none_failed);
    some_open = rw same (w.some_open);
  }

  Waits-recovered :
      (s : TaskState)
      → ((d : String) → elem d s.spec.dependencies ≡ true → uncertain_in g.states d ≡ false)
      → Waits g.states s
      → Waits (map_states recovered g.states) s
  unfolding failed_in done_in uncertain_in
  Waits-recovered s certain = Waits-congr g.states _ s (λ d m.
      elim (Option-cases (get g.states d)) [
        | inl n ↦ (rw (get-map_states, n, failed_in) refl, rw (get-map_states, n, done_in) refl)
        | inr (c, e) ↦
            let (failed, done) = recovered_certain c (rw (e, uncertain_in) at (certain d m)) in
            (rw (get-map_states, e, failed_in) failed, rw (get-map_states, e, done_in) done)
      ])

  Covers-recovered :
      Covers
        (from_keys (all_dependents g.dependents (uncertain_ids g.states)))
        (map_states recovered g.states)
  unfolding from_keys
  Covers-recovered = record {
    at = λ k t e p.
        let (s, q, w) = before-map recovered recovered_spec g.states k t e in
        let same : t.spec ≡ s.spec = rw (← w) (recovered_spec s) in
        elim (any_split (uncertain_in g.states) s.spec.dependencies) [
          | inl (d, m, y) ↦ inl (
              rw elem-enqueue (
                all_dependents-found g.dependents d k (uncertain_ids g.states)
                  (uncertain_ids-found g.states d y) (h.index.indexed k s q d m)))
          | inr certain ↦
              let was : Waits g.states s = h.settled.at k s q (rw (← (recovered_pending s), w) p) in
              inr (Waits-spec _ s t same (Waits-recovered s certain was))
        ];
  }

  pub IsHealthy-recover_inflight : IsHealthy (Methods.recover_inflight g).1
  unfolding Methods.recover_inflight from_keys
  IsHealthy-recover_inflight =
      IsHealthy-refresh (all_dependents g.dependents (uncertain_ids g.states))
        (record g { states = map_states recovered g.states })
        (IsIndexed-map recovered recovered_spec g.states g.dependents h.index) Covers-recovered
        (λ k m. rw (has-map recovered recovered_spec g.states) (
          all_dependents_there g.dependents g.states (uncertain_ids g.states) h.index k
            (rw elem-enqueue at m)))
