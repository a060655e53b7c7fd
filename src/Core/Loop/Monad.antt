-- ===== src/Core/Loop/Monad.antt =====
-- Coroutines that mutate the context and may raise: what was written before a raise stays written.
use matterloop.Base.{ℕ, ◌+◌, String, List, ◌∷◌, Option, none, some, Bool}
use matterloop.Core.Status.{LoopStatus}
use matterloop.Core.Context.{LoopContext, LoopEvent, PlanStep, LoopError, Outcome, returns, raises}

-- What the controller has asked of a component, newest first; an observation for the theorems.
pub data Call : Type 0 where
  executed : PlanStep → Call
  granted : PlanStep → Call
  verified : PlanStep → Bool → Call

-- A checkpoint that the store has accepted, with the revision that it gave.
pub record Commit : Type 0 where
  pub revision : ℕ
  pub snapshot : LoopContext

-- `ticks` counts the queries of the environment. `commits`, `published` and `calls` are the
-- observable history, newest first, and `entered` the states that `_transition` has written, also
-- those that no checkpoint was accepted for.
pub record LoopState : Type 0 where
  pub context : LoopContext
  pub ticks : ℕ
  pub cancelled_runs : List String
  pub commits : List Commit
  pub entered : List LoopStatus
  pub published : List LoopEvent
  pub calls : List Call

abbrev pub M : Type 0 → Type 0
M A = LoopState → Outcome LoopError A × LoopState

unfoldable pub get_context : M LoopContext
get_context s = (returns s.context, s)

unfoldable pub modify : (LoopContext → LoopContext) → M Unit
modify f s = (returns tt, record s { context = f s.context })

unfoldable pub note_call : Call → M Unit
note_call c s = (returns tt, record s { calls = c ∷ s.calls })

-- Reads the number of the query that is about to be made.
unfoldable pub next_tick : M ℕ
next_tick s = (returns s.ticks, record s { ticks = s.ticks + 1 })

module _ {A : Type 0} where
  unfoldable pub pure : A → M A
  pure a s = (returns a, s)

  unfoldable pub raise : LoopError → M A
  raise e s = (raises e, s)

module _ {A B : Type 0} where
  abbrev pub and_then : Outcome LoopError A → (A → M B) → M B
  and_then (returns a) f s = f a s
  and_then (raises e) f s = (raises e, s)

  infixl 5 ◌>>=◌ ◌>>◌
  unfoldable pub ◌>>=◌ : M A → (A → M B) → M B
  ◌>>=◌ m f s = let (r, s') = m s in and_then r f s'

  abbrev pub ◌>>◌ : M A → M B → M B
  m >> n = m >>= λ _. n

module _ {A : Type 0} where
  abbrev pub or_else : Outcome LoopError A → (LoopError → M A) → M A
  or_else (returns a) h s = (returns a, s)
  or_else (raises e) h s = h e s

  -- `try: body` / `except ...: handler`; a handler that does not match raises the error again.
  unfoldable pub try_catch : M A → (LoopError → M A) → M A
  try_catch m h s = let (r, s') = m s in or_else r h s'

  -- `try: body` / `finally: cleanup`, for a cleanup that only assigns.
  unfoldable pub try_finally : M A → (LoopState → LoopState) → M A
  try_finally m cleanup s = let (r, s') = m s in (r, cleanup s')

  abbrev pub maybe {κ} : {B : Type κ} → Option B → M A → (B → M A) → M A
  maybe none m f = m
  maybe (some b) m f = f b
