-- ===== src/Core/Loop/Repeated.antt =====
-- A human response that is submitted again (controller.py, `submit_human_response`).
use matterloop.Base.{◌≡◌, List, [], ◌∷◌, ◌++◌}
use matterloop.Core.Context.{HumanInteractionRequest, HumanResponse, HumanInteractionRecord}
use matterloop.Core.Loop.Monad.{LoopState}
use matterloop.Core.Loop.Components.{Components}
use matterloop.Core.Loop.Keeps.{Keeps}

-- The answered interactions of a run.
record Answered (rs : List HumanInteractionRecord) (s : LoopState) : Type 0 where
  answers : s.context.human_interactions ≡ rs

abbrev after_first :
    HumanInteractionRequest → HumanResponse → LoopState → List HumanInteractionRecord
after_first pending response s =
    s.context.human_interactions ++ record { request = pending; response = response } ∷ []
