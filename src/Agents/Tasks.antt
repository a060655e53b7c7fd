-- ===== src/Agents/Tasks.antt =====
-- matterloop-agents/src/python/matterloop_agents/collaboration/models.py: the status of a task, its
-- definition, result, verification and state. The score of a verification, a float, is left out.
use matterloop.Base.{ℕ, String, List, Option, none, some, Bool, true, false, not, ltb, ◌==◌, ◌&&◌}
use matterloop.Base.Dict.{Dict}
use matterloop.Base.Text.{is_blank}
use matterloop.Base.Int.{ℤ}
use matterloop.Core.Context.{ArtifactRef}

pub data TaskStatus : Type 0 where
  pending ready waiting_approval running verifying succeeded failed blocked cancelled : TaskStatus

-- `is_terminal`
unfoldable pub is_terminal : TaskStatus → Bool
is_terminal TaskStatus.succeeded = true
is_terminal TaskStatus.failed = true
is_terminal TaskStatus.blocked = true
is_terminal TaskStatus.cancelled = true
is_terminal _ = false

pub record TaskSpec : Type 0 where
  pub task_id : String
  pub description : String
  pub capability : String
  pub dependencies : List String
  pub acceptance_criteria : List String
  pub requires_approval : Bool
  pub priority : ℤ
  pub metadata : Dict String
  pub replay_safe : Bool

pub record TaskResult : Type 0 where
  pub task_id : String
  pub agent_id : String
  pub success : Bool
  pub output : String
  pub artifacts : List ArtifactRef
  pub error : String
  pub attempt : ℕ
  pub metadata : Dict String

pub record TaskVerification : Type 0 where
  pub passed : Bool
  pub feedback : String
  pub evidence : List String
  pub failed_criteria : List String

pub record TaskState : Type 0 where
  pub spec : TaskSpec
  pub status : TaskStatus
  pub attempt : ℕ
  pub approval_granted : Bool
  pub assigned_agent : Option String
  pub result : Option TaskResult
  pub verification : Option TaskVerification
  pub error : String

-- `TaskState(spec, status=...)`, with the defaults of the other fields.
unfoldable pub initial_state : TaskSpec → TaskStatus → TaskState
initial_state spec status = record {
  spec = spec;
  status = status;
  attempt = 0;
  approval_granted = false;
  assigned_agent = none;
  result = none;
  verification = none;
  error = "";
}

abbrev pub has_text : Option String → Bool
has_text none = true
has_text (some a) = not (is_blank a)

abbrev pub belongs_to : String → Option TaskResult → Bool
belongs_to id none = true
belongs_to id (some r) = r.task_id == id

abbrev pub is_some {ℓ} : {A : Type ℓ} → Option A → Bool
is_some none = false
is_some (some a) = true

abbrev pub is_success : Option TaskResult → Bool
is_success none = false
is_success (some r) = r.success

abbrev pub is_passed : Option TaskVerification → Bool
is_passed none = false
is_passed (some v) = v.passed

-- The tests of `__post_init__` that depend on the status.
unfoldable pub valid_status : TaskStatus → TaskState → Bool
valid_status TaskStatus.running s = ltb 0 s.attempt && is_some s.assigned_agent
valid_status TaskStatus.verifying s =
    ltb 0 s.attempt && is_some s.assigned_agent && is_success s.result
valid_status TaskStatus.succeeded s = is_success s.result && is_passed s.verification
valid_status _ s = true

-- `TaskState.__post_init__` raises nothing. `replace` runs it on the new state.
unfoldable pub valid_state : TaskState → Bool
unfolding valid_status
valid_state s =
    has_text s.assigned_agent && belongs_to s.spec.task_id s.result && valid_status s.status s
