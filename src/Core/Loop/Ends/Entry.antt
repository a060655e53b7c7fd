-- ===== src/Core/Loop/Ends/Entry.antt =====
-- The entry points `run`, `resume`, `recover` and `submit_human_response` end.
use matterloop.Base.{◌≢◌, String, Option, none, some, false}
use matterloop.Core.Status.{ResumeMode}
use matterloop.Core.Context.{
  LoopContext, LoopRequest, LoopError, HumanAction, HumanResponse, HumanInteractionRequest, raises,
  fault, conflict, out_of_fuel,
}
use matterloop.Core.Loop.Monad.{LoopState}
use matterloop.Core.Loop.Components.{Components}
use matterloop.Core.Loop.Checkpoint
use matterloop.Core.Loop.Entry
use matterloop.Core.Loop.Response
use matterloop.Core.Loop.Ends.{
  Ends, Ends-raise, Ends-bind, Ends-try, Ends-maybe, Ends-pure, ends_rules, Ends-not_found,
  Ends-request_conflict, Ends-value_error, Ends-differs,
}
use matterloop.Core.Loop.Ends.Small.{small_ends, Ends-clock, Ends-start_timer, Ends-emit_many}
use matterloop.Core.Loop.Ends.Drive.{Ends-drive}

module _ (env : Components) where
  Ends-load : (run_id : String) → Ends (Entry.load env run_id)
  unfolding Entry.load
  Ends-load run_id = search ends_rules

  Ends-load_context : (run_id : String) → Ends (Entry.load_context env run_id)
  unfolding Entry.load_context
  Ends-load_context run_id = search (ends_rules, Ends-load, Ends-not_found) depth 12

  Ends-existing :
      (request : LoopRequest) (c : LoopContext) → Ends (Entry.existing_result env request c)
  unfolding Entry.existing_result
  Ends-existing request c = search (ends_rules, Ends-request_conflict)

  Ends-first_conflict :
      (request : LoopRequest) (run_id : String) (e : LoopError)
      → e ≢ out_of_fuel
      → Ends (Entry.on_first_conflict env request run_id e)
  unfolding Entry.on_first_conflict
  Ends-first_conflict request run_id (fault conflict) n =
      search (ends_rules, Ends-load, Ends-existing) depth 12
  Ends-first_conflict request run_id e n = Ends-raise _ n

module _ (env : Components) (planner verifier : String) where
  Ends-start_run :
      (request : LoopRequest) (run_id : String)
      → Ends (Entry.start_run env planner verifier request run_id)
  unfolding Entry.start_run
  Ends-start_run request run_id = Ends-bind _ _ (Ends-clock env) λ t.
      Ends-bind _ _ (search ends_rules) λ _. Ends-bind _ _ (Ends-start_timer env) λ _.
        Ends-bind _ _ (Ends-clock env) λ h. Ends-bind _ _ (search ends_rules) λ _.
          Ends-bind _ _ (Ends-try _ _ (search small_ends) (Ends-first_conflict env request run_id))
            λ settled. Ends-maybe settled _ _ (Ends-drive env planner verifier false) Ends-pure

  Ends-find_or_start :
      (request : LoopRequest) (run_id : String)
      → Ends (Entry.find_or_start env planner verifier request run_id)
  unfolding Entry.find_or_start
  Ends-find_or_start request run_id =
      search (ends_rules, Ends-load, Ends-start_run, Ends-existing) depth 12

  pub Ends-run :
      (request : LoopRequest) (run_id : Option String)
      → Ends (Entry.run env planner verifier request run_id)
  unfolding Entry.run
  Ends-run request none = search (ends_rules, Ends-start_run) depth 12
  Ends-run request (some run_id) =
      search (ends_rules, Ends-find_or_start, Ends-value_error) depth 12

  Ends-resume_replan : Ends (Entry.resume_replan env planner verifier)
  unfolding Entry.resume_replan
  Ends-resume_replan = search (small_ends, Ends-drive) depth 12

  Ends-resume_continue : Ends (Entry.resume_continue env planner verifier)
  unfolding Entry.resume_continue
  Ends-resume_continue = search (small_ends, Ends-drive) depth 12

  pub Ends-resume :
      (run_id : String) (mode : ResumeMode) → Ends (Entry.resume env planner verifier run_id mode)
  unfolding Entry.resume
  Ends-resume run_id mode =
      search
        (small_ends, Ends-load_context, Ends-start_timer, Ends-resume_replan, Ends-resume_continue)
        depth 24

  Ends-require_recovery : Ends (Entry.require_recovery env planner verifier)
  unfolding Entry.require_recovery
  Ends-require_recovery = search small_ends depth 12

  Ends-recover_unstable : (c : LoopContext) → Ends (Entry.recover_unstable env planner verifier c)
  unfolding Entry.recover_unstable
  Ends-recover_unstable c =
      search (small_ends, Ends-start_timer, Ends-require_recovery, Ends-drive) depth 24

  pub Ends-recover : (run_id : String) → Ends (Entry.recover env planner verifier run_id)
  unfolding Entry.recover
  Ends-recover run_id = search (ends_rules, Ends-load_context, Ends-recover_unstable) depth 12

module _ (env : Components) (run_id : String) (response : HumanResponse) where
  Ends-block : (action : HumanAction) → Ends (Response.block_if_rejected env action)
  unfolding Response.block_if_rejected Checkpoint.ensure_transition
  Ends-block HumanAction.reject = search small_ends depth 12
  Ends-block _ = search ends_rules

  Ends-response_conflict :
      (e : LoopError) → e ≢ out_of_fuel → Ends (Response.on_response_conflict env run_id response e)
  unfolding Response.on_response_conflict
  Ends-response_conflict (fault conflict) n = search (ends_rules, Ends-load) depth 12
  Ends-response_conflict e n = Ends-raise _ n

  Ends-commit : Ends (Response.commit_response env run_id response)
  unfolding Response.commit_response
  Ends-commit =
      Ends-bind _ _ (Ends-try _ _ (search (ends_rules, Ends-emit_many)) Ends-response_conflict)
        λ settled. search ends_rules

  Ends-answer :
      (pending : HumanInteractionRequest)
      → Ends (Response.answer_pending env run_id response pending)
  unfolding Response.answer_pending
  Ends-answer pending = search (ends_rules, Ends-block, Ends-commit) depth 12

  pub Ends-submit : Ends (Response.submit_human_response env run_id response)
  unfolding Response.submit_human_response Response.repeat_response
  Ends-submit = search (ends_rules, Ends-load_context, Ends-answer, Ends-differs) depth 12

-- The fuel of the loops is enough: whatever the components, the store, the clock and other threads
-- do, `run`, `resume`, `recover` and `submit_human_response` return a result or raise an error of the
-- code, from every state.
pub entry_points_end :
    (env : Components) (planner verifier : String) (s : LoopState)
    → ((request : LoopRequest) (run_id : Option String)
        → (Entry.run env planner verifier request run_id s).0 ≢ raises out_of_fuel)
      × ((run_id : String) (mode : ResumeMode)
          → (Entry.resume env planner verifier run_id mode s).0 ≢ raises out_of_fuel)
      × ((run_id : String) → (Entry.recover env planner verifier run_id s).0 ≢ raises out_of_fuel)
      × ((run_id : String) (response : HumanResponse)
          → (Response.submit_human_response env run_id response s).0 ≢ raises out_of_fuel)
entry_points_end env planner verifier s = (
  λ request run_id. (Ends-run env planner verifier request run_id).at s,
  λ run_id mode. (Ends-resume env planner verifier run_id mode).at s,
  λ run_id. (Ends-recover env planner verifier run_id).at s,
  λ run_id response. (Ends-submit env run_id response).at s,
)
