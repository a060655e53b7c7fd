-- ===== src/Runtime/Runs/Requests.antt =====
-- Sequences of calls of `QueueRuntime` (queueing.py).
use matterloop.Base.{String, List, [], ◌∷◌, Option}
use matterloop.Core.Status.{ResumeMode}
use matterloop.Core.Context.{LoopRequest}
use matterloop.Runtime.Runs.Update.{Environment, World}
use matterloop.Runtime.Runs.Methods

-- The methods that write.
pub data Request : Type 0 where
  submit : LoopRequest → Option String → (fresh : String) → Request
  cancel : String → Request
  resume : String → ResumeMode → Request

unfoldable pub apply : Environment → Request → World → World
apply env (Request.submit q run_id fresh) w = (Methods.submit env q run_id fresh w).1
apply env (Request.cancel id) w = (Methods.cancel env id w).1
apply env (Request.resume id mode) w = (Methods.resume env id mode w).1

unfoldable pub run_requests : Environment → List Request → World → World
run_requests env [] w = w
run_requests env (q ∷ qs) w = run_requests env qs (apply env q w)
