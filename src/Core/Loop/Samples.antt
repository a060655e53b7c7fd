-- ===== src/Core/Loop/Samples.antt =====
-- Components with fixed answers, and a run of the controller over them.
use matterloop.Base.{ℕ, ◌+◌, ◌∷◌, [], none, some, true, false, Bool}
use matterloop.Core.Status.{LoopStatus}
use matterloop.Core.Context.{
  LoopRequest, LoopContext, PlanStep, ExecutionResult, ApprovalDecision, RetryAction, Outcome,
  returns, Fault,
}
use matterloop.Core.Loop.Monad.{LoopState}
use matterloop.Core.Loop.Components.{Components, Awaited, waited}

abbrev pub request : LoopRequest
request = record {
  goal = "ship";
  acceptance_criteria = [];
  limits = record {
    max_cycles = 2;
    max_attempts = 3;
    max_steps_per_plan = 4;
    timeout_seconds = none;
  };
  metadata = [];
}

abbrev pub step : PlanStep
step = record {
  description = "build";
  executor = "default";
  acceptance_criteria = [];
  requires_approval = true;
  step_id = "s1";
}

abbrev pub context : LoopContext
context = record {
  request = request;
  run_id = "r1";
  status = LoopStatus.created;
  records = [];
  feedback = "";
  current_plan = none;
  current_step_index = 0;
  cycle_count = 0;
  total_attempts = 0;
  completed_steps = 0;
  stop_reason = none;
  error = "";
  pending_interaction = none;
  human_interactions = [];
  approved_step_ids = [];
  replan_required = false;
  completion_approved = false;
  active_operation_id = none;
  pending_execution = none;
  pending_attempt = none;
  last_heartbeat_at = none;
  event_sequence = 0;
  revision = 0;
  active_elapsed_seconds = 0;
  active_started_at = none;
  propagation_context = [];
  external_state_refs = [];
  started_at = 0;
  updated_at = 0;
}

abbrev pub start : LoopState
start = record {
  context = context;
  ticks = 0;
  cancelled_runs = [];
  commits = [];
  entered = [];
  published = [];
  calls = [];
}

abbrev at_once : {A : Type 0} → A → Awaited A
at_once a = record { polls = []; outcome = returns a }

abbrev output : ExecutionResult
output = record { output = "done"; artifacts = []; metadata = [] }

-- A store that accepts each expected revision.
abbrev accept : ℕ → LoopContext → ℕ → Outcome Fault ℕ
accept t c r = returns (r + 1)

-- Every component answers at once, the plan has one step, and `verdict` is the verifier's.
abbrev pub env : Bool → Components
env verdict = record {
  planners = λ name. some (λ t c. at_once (record { steps = step ∷ [] }));
  executors = λ name. some (λ t s c. record { polls = waited true ∷ []; outcome = returns output });
  verifiers = λ name. some (λ t s e c. at_once (record {
    passed = verdict;
    feedback = "";
    score = none;
    evidence = [];
    failed_criteria = [];
  }));
  approval_gate = λ t s c. at_once ApprovalDecision.approved;
  retry_policy = λ t e a c. returns (record { action = RetryAction.retry; delay_seconds = 0 });
  completion_evaluator = none;
  can_continue = λ t c. returns true;
  backoff = λ t d. at_once tt;
  save = accept;
  load = λ t r. returns none;
  publish = λ t e. returns tt;
  prepare = none;
  now = λ t. t;
  cancels = λ t. [];
  new_id = λ t. "id";
  describe = λ e. "error";
}
