-- ===== src/Core/Loop/Neutral.antt =====
-- The assignments of the controller that leave state, budgets and identity of a run alone.
use matterloop.Base.{ℕ, String, List, arith}
use matterloop.Base.Dict.{Dict}
use matterloop.Core.Status.{StopReason}
use matterloop.Core.Context.{
  Plan, PlanStep, ExecutionResult, VerificationResult, HumanInteractionRequest, OperationId,
  ExternalStateRef,
}
use matterloop.Core.Loop.Keeps.{IsNeutral}
use matterloop.Core.Loop.Checkpoint.{settle_timer, start_timer, attach, set_stop_reason, set_error}
use matterloop.Core.Loop.Await.{set_heartbeat}
use matterloop.Core.Loop.Execute.{
  set_interaction, keep_result, release_operation, abandon_plan, activate,
}
use matterloop.Core.Loop.Plan.{
  record_iteration, drop_plan, take_feedback, set_index, clear_completion,
}
use matterloop.Core.Loop.Drive.{set_plan}

pub settle_timer-IsNeutral : (t : ℕ) → IsNeutral (settle_timer t)
unfolding settle_timer
settle_timer-IsNeutral t c = ground arith

pub start_timer-IsNeutral : (t : ℕ) → IsNeutral (start_timer t)
unfolding start_timer
start_timer-IsNeutral t c = ground arith

pub attach-IsNeutral : (filled : Dict String × List ExternalStateRef) → IsNeutral (attach filled)
unfolding attach
attach-IsNeutral filled c = ground arith

pub set_stop_reason-IsNeutral : (reason : StopReason) → IsNeutral (set_stop_reason reason)
unfolding set_stop_reason
set_stop_reason-IsNeutral reason c = ground arith

pub set_error-IsNeutral : (text : String) → IsNeutral (set_error text)
unfolding set_error
set_error-IsNeutral text c = ground arith

pub set_heartbeat-IsNeutral : (t : ℕ) → IsNeutral (set_heartbeat t)
unfolding set_heartbeat
set_heartbeat-IsNeutral t c = ground arith

pub set_interaction-IsNeutral :
    (i : HumanInteractionRequest) (reason : StopReason) → IsNeutral (set_interaction i reason)
unfolding set_interaction
set_interaction-IsNeutral i reason c = ground arith

pub keep_result-IsNeutral : (r : ExecutionResult) → IsNeutral (keep_result r)
unfolding keep_result
keep_result-IsNeutral r c = ground arith

pub release_operation-IsNeutral : (text : String) → IsNeutral (release_operation text)
unfolding release_operation
release_operation-IsNeutral text c = ground arith

pub abandon_plan-IsNeutral : (text : String) → IsNeutral (abandon_plan text)
unfolding abandon_plan
abandon_plan-IsNeutral text c = ground arith

pub activate-IsNeutral : (op : OperationId) → IsNeutral (activate op)
unfolding activate
activate-IsNeutral op c = ground arith

pub record_iteration-IsNeutral :
    (index : ℕ) (step : PlanStep) (e : ExecutionResult) (a : ℕ) (v : VerificationResult)
    → IsNeutral (record_iteration index step e a v)
unfolding record_iteration
record_iteration-IsNeutral index step e a v c = ground arith

pub drop_plan-IsNeutral : IsNeutral drop_plan
unfolding drop_plan
drop_plan-IsNeutral c = ground arith

pub take_feedback-IsNeutral : (text : String) → IsNeutral (take_feedback text)
unfolding take_feedback
take_feedback-IsNeutral text c = ground arith

pub set_index-IsNeutral : (index : ℕ) → IsNeutral (set_index index)
unfolding set_index
set_index-IsNeutral index c = ground arith

pub clear_completion-IsNeutral : IsNeutral clear_completion
unfolding clear_completion
clear_completion-IsNeutral c = ground arith

pub set_plan-IsNeutral : (plan : Plan) → IsNeutral (set_plan plan)
unfolding set_plan
set_plan-IsNeutral plan c = ground arith

pub ruleset neutral_rules = (
  settle_timer-IsNeutral, start_timer-IsNeutral, attach-IsNeutral, set_stop_reason-IsNeutral,
  set_error-IsNeutral, set_heartbeat-IsNeutral, set_interaction-IsNeutral, keep_result-IsNeutral,
  release_operation-IsNeutral, abandon_plan-IsNeutral, activate-IsNeutral,
  record_iteration-IsNeutral, drop_plan-IsNeutral, take_feedback-IsNeutral, set_index-IsNeutral,
  clear_completion-IsNeutral, set_plan-IsNeutral,
)
