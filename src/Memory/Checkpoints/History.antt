-- ===== src/Memory/Checkpoints/History.antt =====
-- What `InMemoryCheckpointStore` (in_memory.py) promises: for each run a history of the contexts that
-- were saved, and that the store implements it.
use matterloop.Base.{
  ◌≡◌, refl, ℕ, suc, String, List, [], ◌∷◌, Option, none, some, Bool, true, false, ◌==◌, eqb,
  length, if◌then◌else◌, arith, Bool-cases, inl, inr, ap, sym, ◌∙◌,
}
use matterloop.Base.Int.{ℤ, pos, negsuc}
use matterloop.Base.Dict.{get, get-put, get-remove}
use matterloop.Core.Context.{LoopContext}
use matterloop.Memory.Checkpoints
use matterloop.Memory.Checkpoints.{
  Store, Saved, saved, conflict, value_error, expected_of, current_revision, save_at, is_present,
}

-- The saved contexts of each run, the last first.
abbrev pub Histories : Type 0
Histories = String → List LoopContext

-- The last context of a history, whose revision is the number of the contexts.
abbrev pub latest : List LoopContext → Option LoopContext
latest [] = none
latest (c ∷ cs) = some (record c { revision = suc (length cs) })

abbrev pub update_run : String → List LoopContext → Histories → Histories
update_run id cs h k = if id == k then cs else h k

pub data Call : Type 0 where
  save : LoopContext → Option ℤ → Call
  load delete : String → Call

pub data Answer : Type 0 where
  of_save : Saved → Answer
  of_load : Option LoopContext → Answer
  of_delete : Bool → Answer

abbrev record_save : LoopContext → ℤ → Histories → Answer × Histories
record_save c (negsuc n) h = (of_save value_error, h)
record_save c (pos e) h =
    let found = length (h c.run_id) in
    if eqb found e
    then (of_save (saved (suc e)), update_run c.run_id (c ∷ h c.run_id) h)
    else (of_save (conflict e found), h)

abbrev is_nonempty : List LoopContext → Bool
is_nonempty [] = false
is_nonempty (c ∷ cs) = true

-- A call on the histories: a context is added exactly when the expected revision is the number of
-- contexts that the run has.
unfoldable pub history_step : Call → Histories → Answer × Histories
history_step (Call.save c expected) h = record_save c (expected_of c expected) h
history_step (Call.load id) h = (of_load (latest (h id)), h)
history_step (Call.delete id) h = (of_delete (is_nonempty (h id)), update_run id [] h)

-- The same call on the store.
unfoldable pub store_step : Call → Store → Answer × Store
store_step (Call.save c expected) d =
    (of_save (Checkpoints.save c expected d).0, (Checkpoints.save c expected d).1)
store_step (Call.load id) d = (of_load (Checkpoints.load id d), d)
store_step (Call.delete id) d = (of_delete (Checkpoints.delete id d).0, (Checkpoints.delete id d).1)

unfoldable pub history_answers : List Call → Histories → List Answer
history_answers [] h = []
history_answers (c ∷ cs) h = (history_step c h).0 ∷ history_answers cs (history_step c h).1

unfoldable pub store_answers : List Call → Store → List Answer
store_answers [] d = []
store_answers (c ∷ cs) d = (store_step c d).0 ∷ store_answers cs (store_step c d).1

-- The store has the last context of each history.
abbrev pub Shows : Histories → Store → Type 0
Shows h d = (id : String) → get d id ≡ latest (h id)

revision-latest : (cs : List LoopContext) → current_revision (latest cs) ≡ length cs
revision-latest [] = refl
revision-latest (c ∷ cs) = refl

-- One call answers the same on both sides, and keeps them in step.
abbrev Agrees : Answer × Histories → Answer × Store → Type 0
Agrees a b = (a.0 ≡ b.0) × Shows a.1 b.1

Agrees-save :
    (c : LoopContext) (z : ℤ) (h : Histories) (d : Store)
    → Shows h d
    → Agrees (record_save c z h) (of_save (save_at c z d).0, (save_at c z d).1)
unfolding save_at
Agrees-save c (negsuc n) h d s = (refl, s)
Agrees-save c (pos e) h d s =
    let same : current_revision (get d c.run_id) ≡ length (h c.run_id) =
      rw (s c.run_id) (revision-latest (h c.run_id)) in
    elim (Bool-cases (eqb (length (h c.run_id)) e)) [
      | inr n ↦ rw (same, n) (refl, s)
      | inl y ↦
          rw (same, y)
            (
              refl,
              λ id.
                  rw (get-put d c.run_id id (record c { revision = suc e })) (shown c e h d s y id),
            )
    ]
  where
    shown :
        (c : LoopContext) (e : ℕ) (h : Histories) (d : Store)
        → Shows h d
        → eqb (length (h c.run_id)) e ≡ true
        → (id : String)
        → (if c.run_id == id then some (record c { revision = suc e }) else get d id)
          ≡ latest (update_run c.run_id (c ∷ h c.run_id) h id)
    shown c e h d s y id =
        let l : length (h c.run_id) ≡ e = ground (arith, y) in
        elim (Bool-cases (c.run_id == id)) [ inl z ↦ rw (z, l) refl | inr z ↦ rw z (s id) ]

Agrees-delete :
    (id : String) (h : Histories) (d : Store)
    → Shows h d
    → Agrees (history_step (Call.delete id) h) (store_step (Call.delete id) d)
unfolding history_step store_step Checkpoints.delete
Agrees-delete id h d s = (
  sym (ap (λ (o : Option LoopContext). of_delete (is_present o)) (s id) ∙ emptiness (h id)),
  λ k.
      rw (get-remove d id k)
        (elim (Bool-cases (id == k)) [ inl y ↦ rw y refl | inr n ↦ rw n (s k) ]),
)
  where
    emptiness :
        (cs : List LoopContext) → of_delete (is_present (latest cs)) ≡ of_delete (is_nonempty cs)
    emptiness [] = refl
    emptiness (c ∷ cs) = refl

Agrees-step :
    (c : Call) (h : Histories) (d : Store) → Shows h d → Agrees (history_step c h) (store_step c d)
unfolding history_step store_step Checkpoints.save Checkpoints.load
Agrees-step (Call.save c expected) h d s = Agrees-save c (expected_of c expected) h d s
Agrees-step (Call.load id) h d s = (ap of_load (sym (s id)), s)
Agrees-step (Call.delete id) h d s = Agrees-delete id h d s

-- From a store that shows the histories, any sequence of `save`, `load` and `delete` is answered as on
-- the histories, errors included: `save` succeeds exactly when the expected revision is the number of
-- contexts that the run has, and answers with the number after it; `load` gives the last one with
-- that number as its revision.
pub store_answers-Shows :
    (cs : List Call) (h : Histories) (d : Store)
    → Shows h d
    → store_answers cs d ≡ history_answers cs h
unfolding store_answers history_answers
store_answers-Shows [] h d s = refl
store_answers-Shows (c ∷ cs) h d s =
    let here = Agrees-step c h d s in
    λ i. sym here.0 i ∷ store_answers-Shows cs (history_step c h).1 (store_step c d).1 here.1 i
