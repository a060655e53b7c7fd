-- ===== src/Core/Context.antt =====
-- The value objects of matterloop-core: context/models.py, context/human.py, control/decisions.py,
-- events/models.py and exceptions/errors.py.
-- Times are microseconds on the native ℕ. A metadata mapping, whose values the core never reads, is
-- a dictionary of texts.
use matterloop.Base.{ℕ, Bool, true, false, String, Option, none, some, List, [], ◌∷◌}
use matterloop.Base.Dict.{Dict, get}
use matterloop.Base.{ltb, eqb, length, all, ◌&&◌, ◌==◌, if◌then◌else◌}
use matterloop.Core.Status.{LoopStatus, StopReason}

pub record LoopLimits : Type 0 where
  pub max_cycles : ℕ
  pub max_attempts : ℕ
  pub max_steps_per_plan : ℕ
  pub timeout_seconds : Option ℕ

pub record LoopRequest : Type 0 where
  pub goal : String
  pub acceptance_criteria : List String
  pub limits : LoopLimits
  pub metadata : Dict String

pub record PlanStep : Type 0 where
  pub description : String
  pub executor : String
  pub acceptance_criteria : List String
  pub requires_approval : Bool
  pub step_id : String

pub record Plan : Type 0 where
  pub steps : List PlanStep

pub record ArtifactRef : Type 0 where
  pub name : String
  pub uri : String
  pub media_type : Option String
  pub metadata : Dict String

pub record ExternalStateRef : Type 0 where
  pub kind : String
  pub key : String
  pub revision : ℕ
  pub checksum : String
  pub schema_version : ℕ

pub record ExecutionResult : Type 0 where
  pub output : String
  pub artifacts : List ArtifactRef
  pub metadata : Dict String

-- The score in hundredths.
pub record VerificationResult : Type 0 where
  pub passed : Bool
  pub feedback : String
  pub score : Option ℕ
  pub evidence : List String
  pub failed_criteria : List String

pub record IterationRecord : Type 0 where
  pub cycle : ℕ
  pub step_index : ℕ
  pub step : PlanStep
  pub execution : ExecutionResult
  pub verification : VerificationResult
  pub attempt : ℕ

pub data HumanInteractionKind : Type 0 where
  approval input completion_review : HumanInteractionKind

pub data HumanAction : Type 0 where
  approve reject revise provide_input : HumanAction

pub record HumanInteractionRequest : Type 0 where
  pub kind : HumanInteractionKind
  pub prompt : String
  pub allowed_actions : List HumanAction
  pub interaction_id : String
  pub step_id : Option String
  pub metadata : Dict String
  pub created_at : ℕ

pub record HumanResponse : Type 0 where
  pub interaction_id : String
  pub action : HumanAction
  pub content : String
  pub idempotency_key : String
  pub metadata : Dict String
  pub responded_at : ℕ

pub record HumanInteractionRecord : Type 0 where
  pub request : HumanInteractionRequest
  pub response : HumanResponse

-- `f"{run_id}:{cycle_count}:{step_id}"`, by its parts.
pub record OperationId : Type 0 where
  pub run_id : String
  pub cycle : ℕ
  pub step_id : String

pub record LoopContext : Type 0 where
  pub request : LoopRequest
  pub run_id : String
  pub status : LoopStatus
  pub records : List IterationRecord
  pub feedback : String
  pub current_plan : Option Plan
  pub current_step_index : ℕ
  pub cycle_count : ℕ
  pub total_attempts : ℕ
  pub completed_steps : ℕ
  pub stop_reason : Option StopReason
  pub error : String
  pub pending_interaction : Option HumanInteractionRequest
  pub human_interactions : List HumanInteractionRecord
  pub approved_step_ids : List String
  pub replan_required : Bool
  pub completion_approved : Bool
  pub active_operation_id : Option OperationId
  pub pending_execution : Option ExecutionResult
  pub pending_attempt : Option ℕ
  pub last_heartbeat_at : Option ℕ
  pub event_sequence : ℕ
  pub revision : ℕ
  pub active_elapsed_seconds : ℕ
  pub active_started_at : Option ℕ
  pub propagation_context : Dict String
  pub external_state_refs : List ExternalStateRef
  pub started_at : ℕ
  pub updated_at : ℕ

pub data LoopEventType : Type 0 where
  loop_started loop_resumed loop_recovered loop_heartbeat : LoopEventType
  planning_started plan_created approval_requested approval_granted : LoopEventType
  human_interaction_requested human_response_submitted human_approved : LoopEventType
  human_rejected human_revised human_input_provided loop_paused : LoopEventType
  component_retrying execution_started execution_dispatched : LoopEventType
  execution_completed verification_started iteration_completed : LoopEventType
  completion_evaluation_started completion_evaluation_completed : LoopEventType
  completion_replan_requested loop_completed loop_blocked loop_cancelled : LoopEventType
  loop_timed_out loop_failed : LoopEventType

pub record LoopEvent : Type 0 where
  pub event_type : LoopEventType
  pub context : LoopContext
  pub sequence : ℕ

pub data ApprovalDecision : Type 0 where
  approved rejected deferred : ApprovalDecision

pub data RetryAction : Type 0 where
  retry replan fail : RetryAction

pub record RetryDecision : Type 0 where
  pub action : RetryAction
  pub delay_seconds : ℕ

pub data CompletionAction : Type 0 where
  accept replan request_human stop : CompletionAction

pub record CompletionDecision : Type 0 where
  pub action : CompletionAction
  pub feedback : String
  pub interaction : Option HumanInteractionRequest

-- exceptions/errors.py, with the other exceptions that reach the controller. A component can raise
-- a `Fault`; the other kinds are raised by the controller alone. `loop_stopped` and
-- `task_cancelled` derive from `BaseException` only. `out_of_fuel` is no exception of the program:
-- it marks a `while True` loop whose rounds were cut.
pub data Fault : Type 0 where
  conflict interrupted : Fault
  resource_limit : (message : String) → Fault
  failure : (name message : String) → Fault

pub data LoopError : Type 0 where
  fault : Fault → LoopError
  loop_stopped invalid_transition invalid_plan not_resumable not_found : LoopError
  interaction_not_pending response_conflict request_conflict : LoopError
  component_not_found runtime_error value_error out_of_fuel : LoopError

-- The value and the error of a call.
pub data Outcome {ℓ} (E A : Type ℓ) : Type ℓ where
  returns : A → Outcome E A
  raises : E → Outcome E A

-- `LoopLimits.__post_init__`: the limits are accepted.
unfoldable pub valid_limits : LoopLimits → Bool
valid_limits l =
    if ltb l.max_cycles 1
    then false
    else if ltb l.max_attempts 1
    then false
    else if ltb l.max_steps_per_plan 1
    then false
    else elim l.timeout_seconds [ none ↦ true | some t ↦ ltb 0 t ]

-- `existing != incoming` of two mappings: a dictionary's order does not count.
unfoldable pub same_mapping : Dict String → Dict String → Bool
unfolding get
same_mapping a b =
    eqb (length a) (length b)
    && all (λ (e : String × String). elim (get b e.0) [ none ↦ false | some v ↦ v == e.1 ]) a

unfoldable pub same_texts : List String → List String → Bool
same_texts [] [] = true
same_texts (a ∷ as') (b ∷ bs) = a == b && same_texts as' bs
same_texts _ _ = false

abbrev same_option : Option ℕ → Option ℕ → Bool
same_option none none = true
same_option (some a) (some b) = eqb a b
same_option _ _ = false

unfoldable pub same_limits : LoopLimits → LoopLimits → Bool
same_limits a b =
    eqb a.max_cycles b.max_cycles
    && eqb a.max_attempts b.max_attempts
    && eqb a.max_steps_per_plan b.max_steps_per_plan
    && same_option a.timeout_seconds b.timeout_seconds

-- `existing == incoming` of two requests.
unfoldable pub same_request : LoopRequest → LoopRequest → Bool
unfolding same_mapping same_texts same_limits
same_request a b =
    a.goal == b.goal
    && same_texts a.acceptance_criteria b.acceptance_criteria
    && same_limits a.limits b.limits
    && same_mapping a.metadata b.metadata

-- `LoopResult`, and `result_from_context`.
pub record LoopResult : Type 0 where
  pub run_id : String
  pub status : LoopStatus
  pub output : String
  pub cycles : ℕ
  pub total_attempts : ℕ
  pub completed_steps : ℕ
  pub records : List IterationRecord
  pub stop_reason : Option StopReason
  pub error : String
  pub pending_interaction : Option HumanInteractionRequest
  pub human_interactions : List HumanInteractionRecord
  pub active_operation_id : Option OperationId
  pub last_heartbeat_at : Option ℕ
  pub revision : ℕ
  pub event_sequence : ℕ

unfoldable pub last_output : List IterationRecord → String
last_output [] = ""
last_output (r ∷ []) = r.execution.output
last_output (r ∷ next ∷ rest) = last_output (next ∷ rest)

unfoldable pub result_from_context : LoopContext → LoopResult
unfolding last_output
result_from_context c = record {
  run_id = c.run_id;
  status = c.status;
  output = last_output c.records;
  cycles = c.cycle_count;
  total_attempts = c.total_attempts;
  completed_steps = c.completed_steps;
  records = c.records;
  stop_reason = c.stop_reason;
  error = c.error;
  pending_interaction = c.pending_interaction;
  human_interactions = c.human_interactions;
  active_operation_id = c.active_operation_id;
  last_heartbeat_at = c.last_heartbeat_at;
  revision = c.revision;
  event_sequence = c.event_sequence;
}
