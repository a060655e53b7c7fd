-- ===== src/Memory/Checkpoints/Tests.antt =====
-- The checkpoint store at concrete calls.
use matterloop.Base.{◌≡◌, refl, List, [], ◌∷◌, none, some, true, false}
use matterloop.Base.Int.{pos, negsuc}
use matterloop.Base.Dict.{get, put, remove}
use matterloop.Core.Status.{LoopStatus}
use matterloop.Core.Context.{LoopContext}
use matterloop.Memory.Checkpoints.{save, load, delete, saved, conflict, value_error}
use matterloop.Memory.Checkpoints.History.{
  Call, Answer, history_answers, store_answers, store_answers-Shows, store_step,
}

abbrev fresh : LoopContext
fresh = record {
  request = record {
    goal = "answer";
    acceptance_criteria = [];
    limits = record {
      max_cycles = 2;
      max_attempts = 3;
      max_steps_per_plan = 4;
      timeout_seconds = none;
    };
    metadata = [];
  };
  run_id = "r1";
  status = LoopStatus.created;
  records = [];
  feedback = "";
  current_plan = none;
  current_step_index = 0;
  cycle_count = 0;
  total_attempts = 0;
  completed_steps = 0;
  stop_reason = none;
  error = "";
  pending_interaction = none;
  human_interactions = [];
  approved_step_ids = [];
  replan_required = false;
  completion_approved = false;
  active_operation_id = none;
  pending_execution = none;
  pending_attempt = none;
  last_heartbeat_at = none;
  event_sequence = 0;
  revision = 0;
  active_elapsed_seconds = 0;
  active_started_at = none;
  propagation_context = [];
  external_state_refs = [];
  started_at = 0;
  updated_at = 0;
}

-- Two writers with the same revision, a third with an older one, and a negative revision.
abbrev calls : List Call
calls =
    Call.save fresh none
    ∷ Call.save (record fresh { revision = 1 }) none
    ∷ Call.save fresh (some (pos 1))
    ∷ Call.save fresh (some (negsuc 0))
    ∷ Call.delete "r1"
    ∷ Call.load "r1"
    ∷ []

store_answers-Shows_example : store_answers calls [] ≡ history_answers calls (λ id. [])
unfolding get
store_answers-Shows_example = store_answers-Shows calls (λ id. []) [] (λ id. refl)

-- The second of two writers that expect the same revision is refused.
second_refused :
    store_answers calls []
    ≡ Answer.of_save (saved 1)
      ∷ Answer.of_save (saved 2)
      ∷ Answer.of_save (conflict 1 2)
      ∷ Answer.of_save value_error
      ∷ Answer.of_delete true
      ∷ Answer.of_load none
      ∷ []
unfolding store_answers store_step save delete load get put remove
second_refused = refl
