-- ===== src/Core/Loop/Ends/Counters.antt =====
-- The request of a run does not change, and its counters of attempts and cycles never go down.
use matterloop.Base.{◌≡◌, refl, ℕ, ◌≤◌, arith}
use matterloop.Core.Context.{LoopRequest}
use matterloop.Core.Loop.Monad.{LoopState, modify, next_tick, note_call}
use matterloop.Core.Loop.Components.{Components, receive_cancels}
use matterloop.Core.Loop.Checkpoint.{note_event, acknowledge, enter, advance_sequence}
use matterloop.Core.Loop.Execute.{count_attempt}
use matterloop.Core.Loop.Drive.{begin_cycle, discard_cancel}
use matterloop.Core.Loop.Keeps.{SameCore}
use matterloop.Core.Loop.Invariants.Emit.{EmitRule, base_rule}
use matterloop.Core.Loop.Invariants.Full.{FullRule}

pub record AtLeast (r : LoopRequest) (attempts cycles : ℕ) (s : LoopState) : Type 0 where
  pub same_request : s.context.request ≡ r
  pub enough_attempts : attempts ≤ s.context.total_attempts
  pub enough_cycles : cycles ≤ s.context.cycle_count

pub AtLeast-self :
    (s : LoopState) → AtLeast s.context.request s.context.total_attempts s.context.cycle_count s
AtLeast-self s = record {
  same_request = refl;
  enough_attempts = omega arith;
  enough_cycles = omega arith;
}

module _ (r : LoopRequest) (n k : ℕ) where
  counters_emit : EmitRule (AtLeast r n k)
  unfolding next_tick modify note_event acknowledge enter note_call receive_cancels advance_sequence
  counters_emit = record {
    tick = record {
      at = λ s h. record {
        same_request = h.same_request;
        enough_attempts = h.enough_attempts;
        enough_cycles = h.enough_cycles;
      };
    };
    cancels = λ rs. record {
      at = λ s h. record {
        same_request = h.same_request;
        enough_attempts = h.enough_attempts;
        enough_cycles = h.enough_cycles;
      };
    };
    neutral = λ f m. record {
      at = λ s h.
          let e : SameCore (f s.context) s.context = m s.context in
          record {
            same_request = rw (e.request) (h.same_request);
            enough_attempts = rw (e.total_attempts) (h.enough_attempts);
            enough_cycles = rw (e.cycle_count) (h.enough_cycles);
          };
    };
    advance = λ t m. record {
      at = λ s h. record {
        same_request = h.same_request;
        enough_attempts = h.enough_attempts;
        enough_cycles = h.enough_cycles;
      };
    };
    commit = λ v s h _. record {
      same_request = h.same_request;
      enough_attempts = h.enough_attempts;
      enough_cycles = h.enough_cycles;
    };
    event = λ e. record {
      at = λ s h. record {
        same_request = h.same_request;
        enough_attempts = h.enough_attempts;
        enough_cycles = h.enough_cycles;
      };
    };
    enter = λ t target s h _. record {
      same_request = h.same_request;
      enough_attempts = h.enough_attempts;
      enough_cycles = h.enough_cycles;
    };
  }

  pub counters_full : (env : Components) → FullRule env (AtLeast r n k)
  unfolding count_attempt begin_cycle discard_cancel note_call
  counters_full env = record {
    base = base_rule env counters_emit;
    attempt = λ a s h ok. record {
      same_request = h.same_request;
      enough_attempts = ground (arith, h.enough_attempts);
      enough_cycles = h.enough_cycles;
    };
    cycle = λ s h ok. record {
      same_request = h.same_request;
      enough_attempts = h.enough_attempts;
      enough_cycles = ground (arith, h.enough_cycles);
    };
    call = λ c. record {
      at = λ s h. record {
        same_request = h.same_request;
        enough_attempts = h.enough_attempts;
        enough_cycles = h.enough_cycles;
      };
    };
    discard = λ s h. record {
      same_request = h.same_request;
      enough_attempts = h.enough_attempts;
      enough_cycles = h.enough_cycles;
    };
  }
