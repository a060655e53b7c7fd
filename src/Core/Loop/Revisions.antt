-- ===== src/Core/Loop/Revisions.antt =====
-- The revisions of the accepted checkpoints along `_drive` of loop/controller.py.
use matterloop.Base.{ℕ, ◌≤◌, ◌<◌, List, [], ◌∷◌, arith, String, Bool}
use matterloop.Core.Loop.Monad.{LoopState, Commit, modify, next_tick, note_call}
use matterloop.Core.Loop.Components.{Components, receive_cancels}
use matterloop.Core.Loop.Checkpoint.{acknowledge, note_event, advance_sequence, enter}
use matterloop.Core.Loop.Execute.{count_attempt}
use matterloop.Core.Loop.Drive.{begin_cycle, discard_cancel, drive}
use matterloop.Core.Loop.Invariants.Emit.{EmitRule, base_rule}
use matterloop.Core.Loop.Invariants.Full.{FullRule}
use matterloop.Core.Loop.Invariants.Runs.{Keeps-drive}

-- Newest first, each revision is above the one before, and none is above `top`.
abbrev pub IsDescending : List Commit → ℕ → Type 0
IsDescending [] top = Unit
IsDescending (c ∷ []) top = c.revision ≤ top
IsDescending (c ∷ d ∷ older) top =
    (c.revision ≤ top) × (d.revision < c.revision) × IsDescending (d ∷ older) d.revision

pub record Ordered (s : LoopState) : Type 0 where
  pub ordered : IsDescending s.commits s.context.revision

push :
    (cs : List Commit) (c : Commit) (top : ℕ)
    → IsDescending cs top
    → top < c.revision
    → IsDescending (c ∷ cs) c.revision
push [] c top h lt = omega arith
push (d ∷ []) c top h lt = (omega arith, omega arith, omega arith)
push (d ∷ e ∷ older) c top h lt = (omega arith, omega arith, (omega arith, h.1, h.2))

revision_rule : EmitRule Ordered
unfolding next_tick modify note_event acknowledge enter receive_cancels advance_sequence
revision_rule = record {
  tick = record { at = λ s h. record { ordered = h.ordered } };
  cancels = λ rs. record { at = λ s h. record { ordered = h.ordered } };
  neutral =
      λ f n. record { at = λ s h. record { ordered = rw ((n s.context).revision) (h.ordered) } };
  advance = λ t n. record { at = λ s h. record { ordered = h.ordered } };
  commit = λ v s h gt. record {
    ordered =
        push s.commits (record { revision = v; snapshot = record s.context { revision = v } })
          s.context.revision h.ordered (ground arith);
  };
  event = λ e. record { at = λ s h. record { ordered = h.ordered } };
  enter = λ t target s h _. record { ordered = h.ordered };
}

revision_full : (env : Components) → FullRule env Ordered
unfolding count_attempt begin_cycle discard_cancel note_call
revision_full env = record {
  base = base_rule env revision_rule;
  attempt = λ a s h ok. record { ordered = h.ordered };
  cycle = λ s h ok. record { ordered = h.ordered };
  discard = λ s h. record { ordered = h.ordered };
  call = λ c. record { at = λ s h. record { ordered = h.ordered } };
}

-- Each checkpoint that the controller takes as accepted has a higher revision than the one before,
-- and the context carries the highest, if this held before `_drive`; whatever revisions the store
-- answers with.
pub drive-Ordered :
    (env : Components) (planner verifier : String) (continue : Bool) (s : LoopState)
    → Ordered s
    → Ordered (drive env planner verifier continue s).1
drive-Ordered env planner verifier continue s h =
    (Keeps-drive env (revision_full env) planner verifier continue).at s h
