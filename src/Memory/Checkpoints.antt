-- ===== src/Memory/Checkpoints.antt =====
-- matterloop-memory/src/python/matterloop_memory/in_memory.py: `InMemoryCheckpointStore`. Each method
-- runs under the store's lock, so a method is one step. A snapshot is a copy, which is the value here.
pub mod History
mod Tests
use matterloop.Base.{ℕ, suc, String, Option, none, some, Bool, true, false, eqb, if◌then◌else◌, not}
use matterloop.Base.Int.{ℤ, pos, negsuc}
use matterloop.Base.Dict.{Dict, get, put, remove}
use matterloop.Core.Context.{LoopContext}

abbrev pub Store : Type 0
Store = Dict LoopContext

pub data Saved : Type 0 where
  saved : (revision : ℕ) → Saved
  conflict : (expected found : ℕ) → Saved
  value_error : Saved

-- `context.revision if expected_revision is None else expected_revision`
abbrev pub expected_of : LoopContext → Option ℤ → ℤ
expected_of c none = pos c.revision
expected_of c (some e) = e

-- `current.revision if current is not None else 0`
abbrev pub current_revision : Option LoopContext → ℕ
current_revision none = 0
current_revision (some c) = c.revision

unfoldable pub save_at : LoopContext → ℤ → Store → Saved × Store
save_at c (negsuc n) d = (value_error, d)
save_at c (pos e) d =
    let found = current_revision (get d c.run_id) in
    if not (eqb found e)
    then (conflict e found, d)
    else (saved (suc e), put d c.run_id (record c { revision = suc e }))

-- `save`
unfoldable pub save : LoopContext → Option ℤ → Store → Saved × Store
unfolding save_at
save c expected d = save_at c (expected_of c expected) d

-- `load`
unfoldable pub load : String → Store → Option LoopContext
load id d = get d id

abbrev pub is_present : Option LoopContext → Bool
is_present none = false
is_present (some c) = true

-- `self._contexts.pop(run_id, None) is not None`
unfoldable pub delete : String → Store → Bool × Store
delete id d = (is_present (get d id), remove d id)
