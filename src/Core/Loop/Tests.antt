-- ===== src/Core/Loop/Tests.antt =====
-- The theorems on the controller at concrete runs.
use matterloop.Base.{if◌then◌else◌, eqb, ◌≡◌, inr, refl, ◌∷◌, [], true, false, arith}
use matterloop.Core.Status.{LoopStatus}
use matterloop.Core.Loop.Drive.{drive}
use matterloop.Core.Loop.Samples.{env, request, context, start}
use matterloop.Core.Loop.Budget.{BudgetHistory, drive-BudgetHistory}
use matterloop.Core.Loop.History.{LegalRun, begin, drive-LegalRun}
use matterloop.Base.{◌≢◌, none, some}
use matterloop.Core.Context.{
  raises, returns, out_of_fuel, LoopContext, HumanInteractionRequest, HumanInteractionKind,
  HumanAction, HumanResponse,
}
use matterloop.Core.Loop.Components.{Components}
use matterloop.Core.Loop.Response.{accept_response, submit_human_response}
use matterloop.Core.Loop.Response
use matterloop.Core.Loop.Checkpoint
use matterloop.Core.Loop.Components
use matterloop.Core.Loop.Entry
use matterloop.Core.Loop.Monad
use matterloop.Core.Loop.Monad.{LoopState}
use matterloop.Core.Loop.Entry.{run, recover}
use matterloop.Core.Loop.Uncertain.{recover_calls_nothing}
use matterloop.Core.Loop.Ends.Entry.{entry_points_end}
use matterloop.Core.Loop.Revisions.{Ordered, drive-Ordered}

drive-BudgetHistory_example : BudgetHistory request (drive (env true) "p" "v" false start).1
drive-BudgetHistory_example = drive-BudgetHistory (env true) "p" "v" false request start (record {
  current = record { same_request = refl; cycles = omega arith; attempts = omega arith };
  committed = tt;
})

drive-LegalRun_example : LegalRun LoopStatus.created (drive (env true) "p" "v" false start).1
drive-LegalRun_example =
    drive-LegalRun (env true) "p" "v" false LoopStatus.created start
      (record { steps = tt; present = refl; visits = begin LoopStatus.created })

drive-Ordered_example : Ordered (drive (env true) "p" "v" false start).1
drive-Ordered_example = drive-Ordered (env true) "p" "v" false start (record { ordered = tt })

entry_points_end_example : (run (env true) "p" "v" request none start).0 ≢ raises out_of_fuel
entry_points_end_example = (entry_points_end (env true) "p" "v" start).0 request none

abbrev question : HumanInteractionRequest
question = record {
  kind = HumanInteractionKind.approval;
  prompt = "approve?";
  allowed_actions = HumanAction.approve ∷ [];
  interaction_id = "i1";
  step_id = some "s1";
  metadata = [];
  created_at = 0;
}

abbrev answer : HumanResponse
answer = record {
  interaction_id = "i1";
  action = HumanAction.approve;
  content = "yes";
  idempotency_key = "k1";
  metadata = ("by", "me") ∷ [];
  responded_at = 1;
}

-- The interaction waits, and the store gives the run before the answer, and later after it.
abbrev asked : LoopContext
asked = record context { pending_interaction = some question }

abbrev answered : Components
answered = record (env true) {
  load =
      λ t run_id. returns (some (if eqb t 0 then asked else accept_response question answer asked));
}

abbrev first_submission : LoopState
first_submission = (submit_human_response answered "r" answer start).1

abbrev answer_again : HumanResponse
answer_again = record answer { responded_at = 9 }

abbrev stored : LoopContext
stored = accept_response question answer asked

abbrev crashed : LoopContext
crashed = record context { status = LoopStatus.executing }

abbrev after_crash : Components
after_crash = record (env true) { load = λ t run_id. returns (some crashed) }

recover_calls_nothing_example : (recover after_crash "p" "v" "r" start).1.calls ≡ start.calls
recover_calls_nothing_example =
    recover_calls_nothing after_crash "p" "v" "r" crashed start refl (inr (refl, refl))
