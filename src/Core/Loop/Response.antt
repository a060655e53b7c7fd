-- ===== src/Core/Loop/Response.antt =====
-- controller.py: `submit_human_response`, `_find_response_by_idempotency_key`, `_same_response`.
use matterloop.Base.{
  ℕ, String, List, [], ◌∷◌, ◌++◌, Option, none, some, Bool, true, false, not, leb, eqb, elem, any,
  ◌==◌, ◌&&◌, ◌||◌, length, if◌then◌else◌,
}
use matterloop.Core.Status.{LoopStatus, StopReason, same_status}
use matterloop.Core.Context.{
  LoopContext, LoopResult, LoopError, LoopEventType, fault, conflict, HumanInteractionRequest,
  HumanInteractionKind, HumanAction, HumanResponse, HumanInteractionRecord, same_mapping,
  result_from_context, response_conflict, interaction_not_pending, human_response_submitted,
  human_rejected, human_approved, human_revised, human_input_provided, loop_blocked,
}
use matterloop.Core.Loop.Monad.{M, ◌>>=◌, ◌>>◌, pure, raise, get_context, modify, try_catch, maybe}
use matterloop.Core.Loop.Components.{Components}
use matterloop.Core.Loop.Checkpoint.{
  ensure_transition, checkpoint_and_emit_many, pause_active_timer, set_stop_reason,
}
use matterloop.Core.Loop.Entry.{load, load_context}

unfoldable pub action_code : HumanAction → ℕ
action_code HumanAction.approve = 0
action_code HumanAction.reject = 1
action_code HumanAction.revise = 2
action_code HumanAction.provide_input = 3

abbrev pub same_action : HumanAction → HumanAction → Bool
unfolding action_code
same_action a b = eqb (action_code a) (action_code b)

-- `_find_response_by_idempotency_key`
unfoldable pub find_response : String → List HumanInteractionRecord → Option HumanInteractionRecord
find_response key [] = none
find_response key (r ∷ rs) =
    if r.response.idempotency_key == key then some r else find_response key rs

-- `_same_response`: the time of the response does not count.
unfoldable pub same_response : HumanResponse → HumanResponse → Bool
unfolding action_code same_mapping
same_response a b =
    a.interaction_id == b.interaction_id
    && eqb (action_code a.action) (action_code b.action)
    && a.content == b.content
    && same_mapping a.metadata b.metadata

unfoldable pub accept_response : HumanInteractionRequest → HumanResponse → LoopContext → LoopContext
accept_response pending response c = record c {
  human_interactions =
      c.human_interactions ++ (record { request = pending; response = response }) ∷ [];
  pending_interaction = none;
  feedback = if response.content == "" then c.feedback else response.content;
}

abbrev add_text : String → List String → List String
add_text a xs = if elem a xs then xs else a ∷ xs

unfoldable pub plan_finished : LoopContext → Bool
plan_finished c = elim c.current_plan [
  | none ↦ false
  | some plan ↦ leb (length plan.steps) c.current_step_index
]

unfoldable pub approve_step : HumanInteractionKind → Option String → LoopContext → LoopContext
approve_step HumanInteractionKind.approval (some step_id) c = record c {
  approved_step_ids = add_text step_id c.approved_step_ids;
}
approve_step _ _ c = c

abbrev is_review : HumanInteractionKind → Bool
is_review HumanInteractionKind.completion_review = true
is_review _ = false

unfoldable pub approve_completion : HumanInteractionKind → LoopContext → LoopContext
approve_completion kind c =
    if is_review kind || plan_finished c then record c { completion_approved = true } else c

-- What the action changes besides the record of the interaction.
unfoldable pub apply_action : HumanAction → HumanInteractionRequest → LoopContext → LoopContext
apply_action HumanAction.approve pending c =
    approve_completion pending.kind (approve_step pending.kind pending.step_id c)
apply_action HumanAction.reject pending c = c
apply_action HumanAction.revise pending c = record c { replan_required = true }
apply_action HumanAction.provide_input pending c = record c { replan_required = true }

unfoldable pub response_events : HumanAction → List LoopEventType
response_events HumanAction.approve = human_response_submitted ∷ human_approved ∷ []
response_events HumanAction.reject = human_response_submitted ∷ human_rejected ∷ loop_blocked ∷ []
response_events HumanAction.revise = human_response_submitted ∷ human_revised ∷ []
response_events HumanAction.provide_input = human_response_submitted ∷ human_input_provided ∷ []

unfoldable pub set_blocked : LoopContext → LoopContext
set_blocked c = record c { status = LoopStatus.blocked }

module _ (env : Components) where
  -- A rejection blocks the run.
  unfoldable pub block_if_rejected : HumanAction → M Unit
  block_if_rejected HumanAction.reject = do
    pause_active_timer env
    modify (set_stop_reason StopReason.human_rejected)
    context ← get_context
    if same_status context.status LoopStatus.blocked
        then pure tt
        else (do ensure_transition context.status LoopStatus.blocked; modify set_blocked)
  block_if_rejected action = pure tt

  -- `except CheckpointConflictError`: the same response may have been committed by another call.
  unfoldable pub on_response_conflict : String → HumanResponse → LoopError → M (Option LoopResult)
  on_response_conflict run_id response (fault conflict) = do
    latest ← load env run_id
    maybe latest (raise (fault conflict)) λ c.
        maybe (find_response response.idempotency_key c.human_interactions) (raise (fault conflict))
          λ r.
            if same_response r.response response
            then pure (some (result_from_context c))
            else raise (fault conflict)
  on_response_conflict run_id response error = raise error

  unfoldable pub commit_response : String → HumanResponse → M LoopResult
  commit_response run_id response = do
    settled ←
        try_catch (do checkpoint_and_emit_many env (response_events response.action); pure none)
          (on_response_conflict run_id response)
    context ← get_context
    pure (elim settled [ none ↦ result_from_context context | some r ↦ r ])

  unfoldable pub answer_pending : String → HumanResponse → HumanInteractionRequest → M LoopResult
  answer_pending run_id response pending =
      if not (pending.interaction_id == response.interaction_id)
      then raise interaction_not_pending
      else if not (any (same_action response.action) pending.allowed_actions)
      then raise interaction_not_pending
      else do
        modify (accept_response pending response)
        modify (apply_action response.action pending)
        block_if_rejected response.action
        commit_response run_id response

  -- A response with a known idempotency key is answered by the present result, if it is the same.
  unfoldable pub repeat_response :
      LoopContext → HumanResponse → HumanInteractionRecord → M LoopResult
  repeat_response context response existing =
      if same_response existing.response response
      then pure (result_from_context context)
      else raise response_conflict

  -- `submit_human_response`
  unfoldable pub submit_human_response : String → HumanResponse → M LoopResult
  submit_human_response run_id response = do
    context ← load_context env run_id
    maybe (find_response response.idempotency_key context.human_interactions)
        (maybe context.pending_interaction (raise interaction_not_pending)
          (answer_pending run_id response))
        (repeat_response context response)
