-- ===== src/Agents/TaskGraph/Make.antt =====
-- The constructor of `TaskGraph` (task_graph.py) for new tasks: `_validate_and_index`, and the states
-- of the tasks. The constructor from restored states is left out.
pub mod Counts
pub mod Index
pub mod Order
pub mod Visit
pub mod Start
pub mod Rank
pub mod Validated
pub mod Fresh
pub mod Accepts
use matterloop.Base.{
  ℕ, zero, suc, ◌+◌, String, List, [], ◌∷◌, ◌++◌, Option, none, some, Bool, true, false, not, eqb,
  elem, all, length, map, if◌then◌else◌,
}
use matterloop.Base.Dict.{Dict, get, put}
use matterloop.Base.Int.{ℤ, pos, negsuc}
use matterloop.Agents.Tasks.{TaskStatus, TaskSpec, TaskState, initial_state}
use matterloop.Agents.TaskGraph
use matterloop.Agents.TaskGraph.{Result, ok, err, GraphError, from_keys}

abbrev pub task_ids : List TaskSpec → List String
task_ids = map (λ (t : TaskSpec). t.task_id)

-- No task depends on an identifier that is not a task.
unfoldable pub knows_dependencies : List String → List TaskSpec → Bool
knows_dependencies known [] = true
knows_dependencies known (t ∷ tasks) =
    let rest = knows_dependencies known tasks in
    if all (λ d. elem d known) t.dependencies then rest else false

-- `{task_id: [] for task_id in task_ids}`
unfoldable pub empty_index : List String → Dict (List String) → Dict (List String)
empty_index [] index = index
empty_index (id ∷ ids) index = empty_index ids (put index id [])

-- `for dependency in task.dependencies: dependents[dependency].append(task.task_id)`
unfoldable pub add_edges : String → List String → Dict (List String) → Result (Dict (List String))
add_edges id [] index = ok index
add_edges id (d ∷ ds) index = elim (get index d) [
  | none ↦ err TaskGraph.key_error
  | some ks ↦ add_edges id ds (put index d (ks ++ id ∷ []))
]

unfoldable pub add_all_edges : List TaskSpec → Dict (List String) → Result (Dict (List String))
unfolding add_edges
add_all_edges [] index = ok index
add_all_edges (t ∷ tasks) index = elim (add_edges t.task_id t.dependencies index) [
  | err e ↦ err e
  | ok index' ↦ add_all_edges tasks index'
]

-- `{task.task_id: len(task.dependencies) for task in tasks}`
unfoldable pub dependency_counts : List TaskSpec → Dict ℤ → Dict ℤ
dependency_counts [] counts = counts
dependency_counts (t ∷ tasks) counts =
    dependency_counts tasks (put counts t.task_id (pos (length t.dependencies)))

abbrev pub is_zero : ℤ → Bool
is_zero (pos zero) = true
is_zero _ = false

abbrev pub decrement : ℤ → ℤ
decrement (pos zero) = negsuc 0
decrement (pos (suc n)) = pos n
decrement (negsuc n) = negsuc (suc n)

-- The tasks without a dependency.
unfoldable pub zero_ids : Dict ℤ → List String
zero_ids [] = []
zero_ids ((id, c) ∷ counts) = let rest = zero_ids counts in if is_zero c then id ∷ rest else rest

-- `for dependent in dependents[current]`: the deque and the counts after it.
unfoldable pub release : List String → Dict ℤ → List String → Result (List String × Dict ℤ)
release [] counts ready = ok (ready, counts)
release (k ∷ ks) counts ready = elim (get counts k) [
  | none ↦ err TaskGraph.key_error
  | some c ↦
      release ks (put counts k (decrement c))
        (if is_zero (decrement c) then ready ++ k ∷ [] else ready)
]

-- `while ready`, on fuel: how many tasks are visited.
unfoldable pub visit_ready : ℕ → Dict (List String) → Dict ℤ → List String → ℕ → Result ℕ
unfolding release
visit_ready zero dependents counts ready visited = err TaskGraph.out_of_fuel
visit_ready (suc fuel) dependents counts [] visited = ok visited
visit_ready (suc fuel) dependents counts (current ∷ ready) visited = elim (get dependents current) [
  | none ↦ err TaskGraph.key_error
  | some ks ↦ elim (release ks counts ready) [
    | err e ↦ err e
    | ok (ready', counts') ↦ visit_ready fuel dependents counts' ready' (suc visited)
  ]
]

abbrev pub is_empty {ℓ} : {A : Type ℓ} → List A → Bool
is_empty [] = true
is_empty (a ∷ rest) = false

-- The visit of `_validate_and_index`. No task is visited twice, so one round more than there are tasks
-- is enough.
unfoldable pub check_order : List TaskSpec → Dict (List String) → Result (Dict (List String))
unfolding visit_ready dependency_counts zero_ids
check_order tasks dependents =
    let counts = dependency_counts tasks [] in
    elim (visit_ready (suc (length tasks)) dependents counts (zero_ids counts) 0) [
      | err e ↦ err e
      | ok visited ↦
          if eqb visited (length tasks) then ok dependents else err TaskGraph.invalid_graph
    ]

-- `_validate_and_index` after the tests of the identifiers.
unfoldable pub index_tasks : List TaskSpec → Result (Dict (List String))
unfolding empty_index add_all_edges check_order
index_tasks tasks = elim (add_all_edges tasks (empty_index (task_ids tasks) [])) [
  | err e ↦ err e
  | ok dependents ↦ check_order tasks dependents
]

-- `_validate_and_index`
unfoldable pub validate_and_index : List TaskSpec → Result (Dict (List String))
unfolding from_keys knows_dependencies index_tasks
validate_and_index tasks =
    let ids = task_ids tasks in
    if is_empty tasks
    then err TaskGraph.invalid_graph
    else if not (eqb (length ids) (length (from_keys ids)))
    then err TaskGraph.invalid_graph
    else if not (knows_dependencies ids tasks)
    then err TaskGraph.invalid_graph
    else index_tasks tasks

-- The states of new tasks.
unfoldable pub fresh_states : List TaskSpec → Dict TaskState → Dict TaskState
unfolding initial_state
fresh_states [] states = states
fresh_states (t ∷ tasks) states = fresh_states tasks (
    put states t.task_id
      (initial_state t (if is_empty t.dependencies then TaskStatus.ready else TaskStatus.pending)))

-- `TaskGraph(tasks)`
unfoldable pub make : List TaskSpec → Result TaskGraph.TaskGraph
unfolding validate_and_index fresh_states
make tasks = elim (validate_and_index tasks) [
  | err e ↦ err e
  | ok dependents ↦ ok (record { states = fresh_states tasks []; dependents = dependents })
]
