-- ===== src/Core/Loop/Checkpoint.antt =====
-- controller.py: the active timer, `_transition`, `_stop`, `_fail`, `_checkpoint_and_emit_many`.
-- The detail text and the time of an event are not modelled.
use matterloop.Base.{
  ℕ, ◌+◌, ◌-◌, String, List, [], ◌∷◌, none, some, Bool, false, leb, if◌then◌else◌, length, suc,
}
use matterloop.Base.Dict.{Dict}
use matterloop.Core.Status.{LoopStatus, StopReason, is_terminal, allowed, same_status}
use matterloop.Core.Context.{
  LoopContext, LoopEvent, LoopEventType, LoopError, returns, fault, conflict, invalid_transition,
  loop_failed, ExternalStateRef,
}
use matterloop.Core.Loop.Monad.{M, ◌>>=◌, ◌>>◌, pure, raise, get_context, modify, next_tick, maybe}
use matterloop.Core.Loop.Components.{Components, lift, read_clock}

-- `ensure_transition` of state/machine.py.
unfoldable pub ensure_transition : LoopStatus → LoopStatus → M Unit
ensure_transition current target =
    if allowed current target then pure tt else raise invalid_transition

-- The fields that `prepare_checkpoint` may fill.
unfoldable pub attach : Dict String × List ExternalStateRef → LoopContext → LoopContext
attach (carrier, refs) c = record c { propagation_context = carrier; external_state_refs = refs }

-- The store has accepted the snapshot: `context.revision = revision`.
unfoldable pub acknowledge : ℕ → M Unit
acknowledge r s =
    let c = record s.context { revision = r } in
    (
      returns tt,
      record s { context = c; commits = record { revision = r; snapshot = c } ∷ s.commits },
    )

unfoldable pub note_event : LoopEvent → M Unit
note_event e s = (returns tt, record s { published = e ∷ s.published })

-- `_pause_active_timer` at the time `t`; `max(0, elapsed)` is the subtraction on ℕ.
unfoldable pub settle_timer : ℕ → LoopContext → LoopContext
settle_timer t c = elim c.active_started_at [
  | none ↦ c
  | some started ↦ record c {
    active_elapsed_seconds = c.active_elapsed_seconds + (t - started);
    active_started_at = none;
  }
]

-- `_start_active_timer`
unfoldable pub start_timer : ℕ → LoopContext → LoopContext
start_timer t c = elim c.active_started_at [
  | none ↦ record c { active_started_at = some t }
  | some started ↦ c
]

-- `_remaining_timeout(context) <= 0` at the time `t`.
unfoldable pub timeout_passed : ℕ → LoopContext → Bool
timeout_passed t c = elim c.request.limits.timeout_seconds [
  | none ↦ false
  | some limit ↦ elim c.active_started_at [
    | none ↦ leb limit c.active_elapsed_seconds
    | some started ↦ leb (limit + started) (c.active_elapsed_seconds + t)
  ]
]

unfoldable pub advance_sequence : ℕ → ℕ → LoopContext → LoopContext
advance_sequence t n c = record c { updated_at = t; event_sequence = c.event_sequence + n }

unfoldable pub enter : ℕ → LoopStatus → LoopContext → LoopContext
enter t target c = record c { status = target; updated_at = t }

unfoldable pub set_status : ℕ → LoopStatus → M Unit
unfolding enter
set_status t target s =
    (returns tt, record s { context = enter t target s.context; entered = target ∷ s.entered })

unfoldable pub set_stop_reason : StopReason → LoopContext → LoopContext
set_stop_reason reason c = record c { stop_reason = some reason }

unfoldable pub set_error : String → LoopContext → LoopContext
set_error text c = record c { error = text }

module _ (env : Components) where
  unfoldable pub pause_active_timer : M Unit
  pause_active_timer = do t ← read_clock env; modify (settle_timer t)

  unfoldable pub start_active_timer : M Unit
  start_active_timer = do t ← read_clock env; modify (start_timer t)

  -- `for offset, event_type in enumerate(event_types)`
  unfoldable pub publish_all : LoopContext → ℕ → List LoopEventType → M Unit
  publish_all snapshot sequence [] = pure tt
  publish_all snapshot sequence (e ∷ es) = do
    t ← next_tick
    let event : LoopEvent = record { event_type = e; context = snapshot; sequence = sequence }
    note_event event
    lift (env.publish t event)
    publish_all snapshot (suc sequence) es

  unfoldable pub prepare_checkpoint : List LoopEventType → M Unit
  prepare_checkpoint types = maybe env.prepare (pure tt) λ prepare. do
    t ← next_tick
    context ← get_context
    filled ← lift (prepare t context types)
    modify (attach filled)

  -- `checkpoint_store.save` with the expected revision, and the test that the revision advanced.
  unfoldable pub save_checkpoint : M Unit
  save_checkpoint = do
    t ← next_tick
    context ← get_context
    revision ← lift (env.save t context context.revision)
    if leb revision context.revision then raise (fault conflict) else acknowledge revision

  unfoldable pub checkpoint_and_emit_many : List LoopEventType → M Unit
  checkpoint_and_emit_many [] = pure tt
  checkpoint_and_emit_many (e ∷ es) = do
    let types = e ∷ es
    t ← read_clock env
    before ← get_context
    modify (advance_sequence t (length types))
    prepare_checkpoint types
    save_checkpoint
    snapshot ← get_context
    publish_all snapshot (suc before.event_sequence) types

  unfoldable pub checkpoint_and_emit : LoopEventType → M Unit
  checkpoint_and_emit e = checkpoint_and_emit_many (e ∷ [])

  -- `_transition`
  unfoldable pub transition : LoopStatus → LoopEventType → M Unit
  transition target event = do
    context ← get_context
    ensure_transition context.status target
    t ← read_clock env
    set_status t target
    checkpoint_and_emit event

  -- `_stop`
  unfoldable pub stop : LoopStatus → StopReason → LoopEventType → M Unit
  stop status reason event = do
    pause_active_timer
    modify (set_stop_reason reason)
    context ← get_context
    if same_status context.status status then checkpoint_and_emit event else transition status event

  -- `_fail`
  unfoldable pub fail : LoopError → M Unit
  fail error = do
    pause_active_timer
    modify (set_stop_reason StopReason.component_error)
    modify (set_error (env.describe error))
    context ← get_context
    if is_terminal context.status then pure tt else transition LoopStatus.failed loop_failed
