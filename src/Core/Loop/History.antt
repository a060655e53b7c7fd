-- ===== src/Core/Loop/History.antt =====
-- The states of the accepted checkpoints (state/machine.py) along `_drive` of loop/controller.py.
use matterloop.Base.{◌≡◌, refl, ◌∙◌, List, [], ◌∷◌, true, String, Bool}
use matterloop.Core.Status.{LoopStatus, allowed}
use matterloop.Core.Loop.Monad.{LoopState, Commit, modify, next_tick, note_call}
use matterloop.Core.Loop.Components.{Components, receive_cancels}
use matterloop.Core.Loop.Checkpoint.{acknowledge, note_event, advance_sequence, enter}
use matterloop.Core.Loop.Execute.{count_attempt}
use matterloop.Core.Loop.Drive.{begin_cycle, discard_cancel, drive}
use matterloop.Core.Loop.Invariants.Emit.{EmitRule, base_rule}
use matterloop.Core.Loop.Invariants.Full.{FullRule}
use matterloop.Core.Loop.Invariants.Runs.{Keeps-drive}

-- The last of the states that were entered from `first`, newest first.
abbrev pub last : LoopStatus → List LoopStatus → LoopStatus
last first [] = first
last first (t ∷ older) = t

-- Each state is entered by one transition that the table permits.
abbrev pub Steps : LoopStatus → List LoopStatus → Type 0
Steps first [] = Unit
Steps first (t ∷ older) = (allowed (last first older) t ≡ true) × Steps first older

-- Checkpoints that were accepted along a path of states: each in the state of its moment.
pub data Visits : List Commit → List LoopStatus → Type 0 where
  begin : (t : LoopStatus) → Visits [] (t ∷ [])
  move : {cs : List Commit} {p : List LoopStatus} (t : LoopStatus) → Visits cs p → Visits cs (t ∷ p)
  save :
      {cs : List Commit} {p : List LoopStatus} {t : LoopStatus} (c : Commit)
      → c.snapshot.status ≡ t
      → Visits cs (t ∷ p)
      → Visits (c ∷ cs) (t ∷ p)

-- The states from `first` on, newest first.
abbrev pub path : LoopStatus → List LoopStatus → List LoopStatus
path first [] = first ∷ []
path first (t ∷ older) = t ∷ path first older

saved :
    (first : LoopStatus) (p : List LoopStatus) (cs : List Commit) (c : Commit)
    → c.snapshot.status ≡ last first p
    → Visits cs (path first p)
    → Visits (c ∷ cs) (path first p)
saved first [] cs c e v = save c e v
saved first (t ∷ older) cs c e v = save c e v

module _ (first : LoopStatus) where
  pub record LegalRun (s : LoopState) : Type 0 where
    pub steps : Steps first s.entered
    pub present : s.context.status ≡ last first s.entered
    pub visits : Visits s.commits (path first s.entered)

  history_rule : EmitRule LegalRun
  unfolding next_tick modify note_event acknowledge enter receive_cancels advance_sequence
  history_rule = record {
    tick = record {
      at = λ s h. record { steps = h.steps; present = h.present; visits = h.visits };
    };
    cancels = λ rs. record {
      at = λ s h. record { steps = h.steps; present = h.present; visits = h.visits };
    };
    neutral = λ f n. record {
      at = λ s h. record {
        steps = h.steps;
        present = (n s.context).status ∙ h.present;
        visits = h.visits;
      };
    };
    advance = λ t n. record {
      at = λ s h. record { steps = h.steps; present = h.present; visits = h.visits };
    };
    commit = λ v s h _. record {
      steps = h.steps;
      present = h.present;
      visits = saved first s.entered s.commits _ h.present h.visits;
    };
    event = λ e. record {
      at = λ s h. record { steps = h.steps; present = h.present; visits = h.visits };
    };
    enter = λ t target s h ok. record {
      steps = (rw (← h.present) ok, h.steps);
      present = refl;
      visits = move target h.visits;
    };
  }

  history_full : (env : Components) → FullRule env LegalRun
  unfolding count_attempt begin_cycle discard_cancel note_call
  history_full env = record {
    base = base_rule env history_rule;
    attempt = λ a s h ok. record { steps = h.steps; present = h.present; visits = h.visits };
    cycle = λ s h ok. record { steps = h.steps; present = h.present; visits = h.visits };
    discard = λ s h. record { steps = h.steps; present = h.present; visits = h.visits };
    call = λ c. record {
      at = λ s h. record { steps = h.steps; present = h.present; visits = h.visits };
    };
  }

-- If the states entered so far are a chain of single transitions of the table, that ends in the present
-- state and has the accepted checkpoints along it, each in the state of its moment, then so it is after
-- `_drive`, whether it returns or raises, and also where the store refuses checkpoints.
pub drive-LegalRun :
    (env : Components) (planner verifier : String) (continue : Bool) (first : LoopStatus)
    (s : LoopState)
    → LegalRun first s
    → LegalRun first (drive env planner verifier continue s).1
drive-LegalRun env planner verifier continue first s h =
    (Keeps-drive env (history_full first env) planner verifier continue).at s h
