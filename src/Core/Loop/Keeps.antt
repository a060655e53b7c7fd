-- ===== src/Core/Loop/Keeps.antt =====
-- Invariants of the controller's actions: one rule for each way to build an action, and the
-- interface `BaseRule` of the facts from which an invariant of every action below `_execute` follows.
use matterloop.Base.{
  ◌≡◌, ℕ, List, ◌∷◌, String, Option, none, some, Bool, true, false, if◌then◌else◌,
}
use matterloop.Core.Status.{LoopStatus, allowed}
use matterloop.Core.Context.{LoopContext, LoopEventType, LoopError, Outcome, returns, raises, Fault}
use matterloop.Core.Loop.Monad
use matterloop.Core.Loop.Monad.{
  M, LoopState, Call, ◌>>=◌, ◌>>◌, pure, raise, get_context, modify, next_tick, note_call,
  try_catch, try_finally, maybe,
}
use matterloop.Core.Loop.Components.{Components, lift, resolve, is_listed, receive_cancels}
use matterloop.Core.Loop.Checkpoint.{checkpoint_and_emit_many, enter}

-- `m` keeps `P`, whether it returns or raises.
pub record Keeps {A : Type 0} (P : LoopState → Type 0) (m : M A) : Type 0 where
  pub at : (s : LoopState) → P s → P (m s).1

module _ {P : LoopState → Type 0} where
  pub Keeps-get : Keeps P get_context
  unfolding get_context
  Keeps-get = record { at = λ s h. h }

  pub Keeps-is_listed : Keeps P is_listed
  unfolding is_listed
  Keeps-is_listed = record { at = λ s h. h }

module _ {A : Type 0} {P : LoopState → Type 0} where
  pub Keeps-pure : (a : A) → Keeps P (pure a)
  unfolding pure
  Keeps-pure a = record { at = λ s h. h }

  pub Keeps-raise : (e : LoopError) → Keeps P (raise {A = A} e)
  unfolding raise
  Keeps-raise e = record { at = λ s h. h }

  pub Keeps-lift : (o : Outcome Fault A) → Keeps P (lift o)
  unfolding lift
  Keeps-lift (returns a) = Keeps-pure a
  Keeps-lift (raises f) = record { at = λ s h. h }

  pub Keeps-resolve : (o : Option A) → Keeps P (resolve o)
  unfolding resolve
  Keeps-resolve none = record { at = λ s h. h }
  Keeps-resolve (some a) = Keeps-pure a

  pub Keeps-if : (b : Bool) (m n : M A) → Keeps P m → Keeps P n → Keeps P (if b then m else n)
  Keeps-if true m n km kn = km
  Keeps-if false m n km kn = kn

  pub Keeps-maybe :
      {B : Type 0} (o : Option B) (m : M A) (f : B → M A)
      → Keeps P m
      → ((b : B) → Keeps P (f b))
      → Keeps P (maybe o m f)
  Keeps-maybe none m f km kf = km
  Keeps-maybe (some b) m f km kf = kf b

  pub Keeps-try :
      (m : M A) (h : LoopError → M A)
      → Keeps P m
      → ((e : LoopError) → Keeps P (h e))
      → Keeps P (try_catch m h)
  unfolding try_catch
  Keeps-try m h km kh = record { at = λ s p. go (m s).0 (m s).1 (km.at s p) }
    where
      go : (r : Outcome LoopError A) (s' : LoopState) → P s' → P (Monad.or_else r h s').1
      go (returns a) s' p = p
      go (raises e) s' p = (kh e).at s' p

  pub Keeps-finally :
      (m : M A) (f : LoopState → LoopState)
      → Keeps P m
      → ((s : LoopState) → P s → P (f s))
      → Keeps P (try_finally m f)
  unfolding try_finally
  Keeps-finally m f km kf = record { at = λ s p. kf (m s).1 (km.at s p) }

module _ {A B : Type 0} {P : LoopState → Type 0} where
  pub Keeps-and_then :
      (r : Outcome LoopError A) (f : A → M B)
      → ((a : A) → Keeps P (f a))
      → (s : LoopState) → P s
      → P (Monad.and_then r f s).1
  Keeps-and_then (returns a) f kf s p = (kf a).at s p
  Keeps-and_then (raises e) f kf s p = p

  pub Keeps-bind :
      (m : M A) (f : A → M B) → Keeps P m → ((a : A) → Keeps P (f a)) → Keeps P (m >>= f)
  unfolding ◌>>=◌
  Keeps-bind m f km kf = record { at = λ s p. Keeps-and_then (m s).0 f kf (m s).1 (km.at s p) }

module _ {A : Type 0} {P : LoopState → Type 0} where
  -- `context ← get_context; ...`, at the state that is read.
  pub Keeps-read :
      (f : LoopContext → M A)
      → ((s : LoopState) → P s → P (f s.context s).1)
      → Keeps P (get_context >>= f)
  unfolding ◌>>=◌ get_context
  Keeps-read f h = record { at = h }

module _ {A : Type 0} {P Q : LoopState → Type 0} where
  pub Keeps-both : (m : M A) → Keeps P m → Keeps Q m → Keeps (λ s. P s × Q s) m
  Keeps-both m kp kq = record { at = λ s h. (kp.at s h.0, kq.at s h.1) }

-- The rest of a block from the state where its first action ends, for an invariant that holds there.
pub and_then-keeps :
    {A B : Type 0} (P : LoopState → Type 0) (r : Outcome LoopError A) (f : A → M B) (s : LoopState)
    → P s
    → ((a : A) → P (f a s).1)
    → P (Monad.and_then r f s).1
and_then-keeps P (returns a) f s p kf = kf a
and_then-keeps P (raises e) f s p kf = p

-- The fields that decide the state machine, the budgets and the identity of a run, and the answered
-- interactions, are the same.
pub record SameCore (a b : LoopContext) : Type 0 where
  pub request : a.request ≡ b.request
  pub run_id : a.run_id ≡ b.run_id
  pub status : a.status ≡ b.status
  pub cycle_count : a.cycle_count ≡ b.cycle_count
  pub total_attempts : a.total_attempts ≡ b.total_attempts
  pub revision : a.revision ≡ b.revision
  pub event_sequence : a.event_sequence ≡ b.event_sequence
  pub human_interactions : a.human_interactions ≡ b.human_interactions

abbrev pub IsNeutral : (LoopContext → LoopContext) → Type 0
IsNeutral f = (c : LoopContext) → SameCore (f c) c

-- What an invariant of the actions that neither start a cycle nor an attempt needs.
pub record BaseRule (env : Components) (P : LoopState → Type 0) : Type 0 where
  pub tick : Keeps P next_tick
  pub cancels : (rs : List String) → Keeps P (receive_cancels rs)
  pub emit : (types : List LoopEventType) → Keeps P (checkpoint_and_emit_many env types)
  pub neutral : (f : LoopContext → LoopContext) → IsNeutral f → Keeps P (modify f)
  pub enter :
      (t : ℕ) (target : LoopStatus) (s : LoopState)
      → P s
      → allowed s.context.status target ≡ true
      → P (record s { context = enter t target s.context; entered = target ∷ s.entered })

pub ruleset keeps_rules = (
  Keeps-get, Keeps-is_listed, Keeps-pure, Keeps-raise, Keeps-lift, Keeps-resolve, Keeps-if,
  Keeps-maybe, Keeps-try, Keeps-bind,
)
