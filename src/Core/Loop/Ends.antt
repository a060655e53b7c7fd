-- ===== src/Core/Loop/Ends.antt =====
-- The fuel of the controller's loops is enough: no action raises `out_of_fuel`.
pub mod Small
pub mod Counters
pub mod Execute
pub mod Plan
pub mod Cycle
pub mod Drive
pub mod Entry
use matterloop.Base.{◌≡◌, refl, ◌≢◌, Option, none, some, Bool, true, false, if◌then◌else◌}
use matterloop.Core.Context.{
  LoopError, Outcome, returns, raises, Fault, fault, out_of_fuel, loop_stopped, not_resumable,
  interaction_not_pending, runtime_error, invalid_plan, invalid_transition, component_not_found,
  not_found, request_conflict, value_error, response_conflict,
}
use matterloop.Core.Loop.Monad
use matterloop.Core.Loop.Monad.{
  M, LoopState, ◌>>=◌, ◌>>◌, pure, raise, get_context, modify, next_tick, note_call, try_catch,
  try_finally, maybe, Call,
}
use matterloop.Core.Context.{LoopContext}
use matterloop.Core.Loop.Components.{lift, resolve, is_listed, receive_cancels}
use matterloop.Base.{String, List}

-- From every state the action ends with a result or with an error of the code.
pub record Ends {A : Type 0} (m : M A) : Type 0 where
  pub at : (s : LoopState) → (m s).0 ≢ raises out_of_fuel

pub Ends-get : Ends get_context
unfolding get_context
Ends-get = record { at = λ s e. cc }

pub Ends-tick : Ends next_tick
unfolding next_tick
Ends-tick = record { at = λ s e. cc }

pub Ends-modify : (f : LoopContext → LoopContext) → Ends (modify f)
unfolding modify
Ends-modify f = record { at = λ s e. cc }

pub Ends-call : (c : Call) → Ends (note_call c)
unfolding note_call
Ends-call c = record { at = λ s e. cc }

pub Ends-is_listed : Ends is_listed
unfolding is_listed
Ends-is_listed = record { at = λ s e. cc }

pub Ends-cancels : (rs : List String) → Ends (receive_cancels rs)
unfolding receive_cancels
Ends-cancels rs = record { at = λ s e. cc }

module _ {A : Type 0} where
  pub Ends-pure : (a : A) → Ends (pure a)
  unfolding pure
  Ends-pure a = record { at = λ s e. cc }

  pub Ends-raise : (e : LoopError) → e ≢ out_of_fuel → Ends (raise {A = A} e)
  unfolding raise
  Ends-raise e n = record { at = λ s h. n (cc h) }

  pub Ends-raise_fault : (f : Fault) → Ends (raise {A = A} (fault f))
  Ends-raise_fault f = Ends-raise _ (λ h. cc)

  pub Ends-raise_stopped : Ends (raise {A = A} loop_stopped)
  Ends-raise_stopped = Ends-raise _ (λ h. cc)

  pub Ends-raise_not_resumable : Ends (raise {A = A} not_resumable)
  Ends-raise_not_resumable = Ends-raise _ (λ h. cc)

  pub Ends-raise_not_pending : Ends (raise {A = A} interaction_not_pending)
  Ends-raise_not_pending = Ends-raise _ (λ h. cc)

  pub Ends-raise_runtime_error : Ends (raise {A = A} runtime_error)
  Ends-raise_runtime_error = Ends-raise _ (λ h. cc)

  pub Ends-raise_invalid_plan : Ends (raise {A = A} invalid_plan)
  Ends-raise_invalid_plan = Ends-raise _ (λ h. cc)

  pub Ends-raise_invalid_transition : Ends (raise {A = A} invalid_transition)
  Ends-raise_invalid_transition = Ends-raise _ (λ h. cc)

  pub Ends-not_found : Ends (raise {A = A} not_found)
  Ends-not_found = Ends-raise _ (λ h. cc)

  pub Ends-request_conflict : Ends (raise {A = A} request_conflict)
  Ends-request_conflict = Ends-raise _ (λ h. cc)

  pub Ends-value_error : Ends (raise {A = A} value_error)
  Ends-value_error = Ends-raise _ (λ h. cc)

  pub Ends-differs : Ends (raise {A = A} response_conflict)
  Ends-differs = Ends-raise _ (λ h. cc)

  pub Ends-lift : (o : Outcome Fault A) → Ends (lift o)
  unfolding lift
  Ends-lift (returns a) = Ends-pure a
  Ends-lift (raises f) = Ends-raise_fault f

  pub Ends-resolve : (o : Option A) → Ends (resolve o)
  unfolding resolve
  Ends-resolve none = Ends-raise _ (λ h. cc)
  Ends-resolve (some a) = Ends-pure a

  pub Ends-if : (b : Bool) (m n : M A) → Ends m → Ends n → Ends (if b then m else n)
  Ends-if true m n em en = em
  Ends-if false m n em en = en

  pub Ends-maybe :
      {B : Type 0} (o : Option B) (m : M A) (f : B → M A)
      → Ends m
      → ((b : B) → Ends (f b))
      → Ends (maybe o m f)
  Ends-maybe none m f em ef = em
  Ends-maybe (some b) m f em ef = ef b

  Ends-or_else :
      (r : Outcome LoopError A) (h : LoopError → M A) (s : LoopState)
      → r ≢ raises out_of_fuel
      → ((e : LoopError) → e ≢ out_of_fuel → Ends (h e))
      → (Monad.or_else r h s).0 ≢ raises out_of_fuel
  Ends-or_else (returns a) h s n eh = n
  Ends-or_else (raises e) h s n eh = (eh e (λ i. n (cc i))).at s

  -- A handler sees an error of the code.
  pub Ends-try :
      (m : M A) (h : LoopError → M A)
      → Ends m
      → ((e : LoopError) → e ≢ out_of_fuel → Ends (h e))
      → Ends (try_catch m h)
  unfolding try_catch
  Ends-try m h em eh = record { at = λ s. Ends-or_else (m s).0 h (m s).1 (em.at s) eh }

  pub Ends-finally : (m : M A) (f : LoopState → LoopState) → Ends m → Ends (try_finally m f)
  unfolding try_finally
  Ends-finally m f em = record { at = em.at }

module _ {A B : Type 0} where
  -- The rest of a block, from the state where its first action returned.
  pub ends_and_then :
      (r : Outcome LoopError A) (f : A → M B) (s : LoopState)
      → r ≢ raises out_of_fuel
      → ((a : A) → r ≡ returns a → (f a s).0 ≢ raises out_of_fuel)
      → (Monad.and_then r f s).0 ≢ raises out_of_fuel
  ends_and_then (returns a) f s n ef = ef a refl
  ends_and_then (raises e) f s n ef = λ h. n (cc h)

  pub Ends-bind : (m : M A) (f : A → M B) → Ends m → ((a : A) → Ends (f a)) → Ends (m >>= f)
  unfolding ◌>>=◌
  Ends-bind m f em ef = record {
    at = λ s. ends_and_then (m s).0 f (m s).1 (em.at s) (λ a _. (ef a).at (m s).1);
  }

pub ruleset ends_rules = (
  Ends-get, Ends-tick, Ends-modify, Ends-call, Ends-is_listed, Ends-cancels, Ends-pure,
  Ends-raise_fault, Ends-raise_stopped, Ends-raise_not_resumable, Ends-raise_not_pending,
  Ends-raise_runtime_error, Ends-raise_invalid_plan, Ends-raise_invalid_transition, Ends-lift,
  Ends-resolve, Ends-if, Ends-maybe, Ends-bind,
)
