-- ===== src/Core/Loop/Ends/Small.antt =====
-- The actions without fuel: checkpoints, transitions, stops, supervision of a task.
use matterloop.Base.{ℕ, suc, List, [], ◌∷◌, Bool}
use matterloop.Core.Status.{LoopStatus, StopReason}
use matterloop.Core.Context.{LoopContext, LoopEventType, LoopEvent, LoopError, Outcome, Fault}
use matterloop.Core.Loop.Components.{
  Components, Awaited, Poll, waited, interrupt, read_clock, is_cancelled,
}
use matterloop.Core.Loop.Checkpoint
use matterloop.Core.Loop.Await
use matterloop.Core.Loop.Ends.{Ends, Ends-bind, Ends-lift, Ends-tick, ends_rules}

Ends-note_event : (e : LoopEvent) → Ends (Checkpoint.note_event e)
unfolding Checkpoint.note_event
Ends-note_event e = record { at = λ s h. cc }

Ends-acknowledge : (r : ℕ) → Ends (Checkpoint.acknowledge r)
unfolding Checkpoint.acknowledge
Ends-acknowledge r = record { at = λ s h. cc }

module _ (env : Components) where
  pub Ends-clock : Ends (read_clock env)
  unfolding read_clock
  Ends-clock = search ends_rules

  Ends-is_cancelled : Ends (is_cancelled env)
  unfolding is_cancelled
  Ends-is_cancelled = search ends_rules

  Ends-prepare : (types : List LoopEventType) → Ends (Checkpoint.prepare_checkpoint env types)
  unfolding Checkpoint.prepare_checkpoint
  Ends-prepare types = search ends_rules depth 12

  Ends-save : Ends (Checkpoint.save_checkpoint env)
  unfolding Checkpoint.save_checkpoint
  Ends-save = search (ends_rules, Ends-acknowledge) depth 12

  Ends-publish :
      (snapshot : LoopContext) (n : ℕ) (types : List LoopEventType)
      → Ends (Checkpoint.publish_all env snapshot n types)
  unfolding Checkpoint.publish_all
  Ends-publish snapshot n [] = search ends_rules
  Ends-publish snapshot n (e ∷ es) = Ends-bind _ _ Ends-tick λ t.
      Ends-bind _ _ (Ends-note_event _)
        λ _. Ends-bind _ _ (Ends-lift (env.publish t _)) λ _. Ends-publish snapshot (suc n) es

  pub Ends-emit_many :
      (types : List LoopEventType) → Ends (Checkpoint.checkpoint_and_emit_many env types)
  unfolding Checkpoint.checkpoint_and_emit_many
  Ends-emit_many [] = search ends_rules
  Ends-emit_many (e ∷ es) =
      search (ends_rules, Ends-clock, Ends-prepare, Ends-save, Ends-publish) depth 12

  pub Ends-emit : (e : LoopEventType) → Ends (Checkpoint.checkpoint_and_emit env e)
  unfolding Checkpoint.checkpoint_and_emit
  Ends-emit e = Ends-emit_many (e ∷ [])

  pub Ends-pause : Ends (Checkpoint.pause_active_timer env)
  unfolding Checkpoint.pause_active_timer
  Ends-pause = search (ends_rules, Ends-clock)

  pub Ends-start_timer : Ends (Checkpoint.start_active_timer env)
  unfolding Checkpoint.start_active_timer
  Ends-start_timer = search (ends_rules, Ends-clock)

  Ends-set_status : (t : ℕ) (target : LoopStatus) → Ends (Checkpoint.set_status t target)
  unfolding Checkpoint.set_status
  Ends-set_status t target = record { at = λ s e. cc }

  pub Ends-transition :
      (target : LoopStatus) (e : LoopEventType) → Ends (Checkpoint.transition env target e)
  unfolding Checkpoint.transition Checkpoint.ensure_transition
  Ends-transition target e = search (ends_rules, Ends-clock, Ends-emit, Ends-set_status) depth 12

  pub Ends-stop :
      (status : LoopStatus) (reason : StopReason) (e : LoopEventType)
      → Ends (Checkpoint.stop env status reason e)
  unfolding Checkpoint.stop
  Ends-stop status reason e = search (ends_rules, Ends-pause, Ends-emit, Ends-transition) depth 12

  pub Ends-fail : (error : LoopError) → Ends (Checkpoint.fail env error)
  unfolding Checkpoint.fail
  Ends-fail error = search (ends_rules, Ends-pause, Ends-transition) depth 12

  Ends-stop_if_cancelled : Ends (Await.stop_if_cancelled env)
  unfolding Await.stop_if_cancelled
  Ends-stop_if_cancelled = search (ends_rules, Ends-is_cancelled, Ends-stop) depth 12

  Ends-stop_if_timed_out : Ends (Await.stop_if_timed_out env)
  unfolding Await.stop_if_timed_out
  Ends-stop_if_timed_out = search (ends_rules, Ends-clock, Ends-stop) depth 12

  Ends-heartbeat : (due : Bool) → Ends (Await.heartbeat env due)
  unfolding Await.heartbeat
  Ends-heartbeat due = search (ends_rules, Ends-clock, Ends-emit) depth 12

  Ends-await_rounds :
      {A : Type 0} (polls : List Poll) (o : Outcome Fault A) → Ends (Await.await_rounds env polls o)
  unfolding Await.await_rounds
  Ends-await_rounds [] o =
      search (ends_rules, Ends-stop_if_cancelled, Ends-stop_if_timed_out) depth 12
  Ends-await_rounds (waited due ∷ polls) o = Ends-bind _ _ Ends-stop_if_cancelled λ _.
      Ends-bind _ _ Ends-stop_if_timed_out
        λ _. Ends-bind _ _ (Ends-heartbeat due) λ _. Ends-await_rounds polls o
  Ends-await_rounds (interrupt ∷ polls) o =
      search (ends_rules, Ends-stop_if_cancelled, Ends-stop_if_timed_out) depth 12

  pub Ends-await : {A : Type 0} (task : Awaited A) → Ends (Await.await_component env task)
  unfolding Await.await_component
  Ends-await task = Ends-await_rounds task.polls task.outcome

  Ends-policy : Ends (Await.policy_boundary env)
  unfolding Await.policy_boundary
  Ends-policy = search (ends_rules, Ends-stop) depth 12

  pub Ends-boundary : Ends (Await.stop_at_safe_boundary env)
  unfolding Await.stop_at_safe_boundary
  Ends-boundary = search (ends_rules, Ends-is_cancelled, Ends-stop, Ends-policy) depth 12

pub ruleset small_ends = (
  ends_rules, Ends-clock, Ends-emit, Ends-pause, Ends-transition, Ends-stop, Ends-fail, Ends-await,
  Ends-boundary,
)
